-- ===== src/Rabbit/Publishing.antt =====
-- About publishing (rabbitmq/rabbitmq.service.ts).
use mathlib.Core.Path.{subst}
use nestjs_order_api.Base.{String, true, false, none, some, ◌≡◌, arith}
use nestjs_order_api.Http.{Exn, ok, err}
use nestjs_order_api.Prisma.{World, Action, Connections}
use nestjs_order_api.Prisma.Effects.{Oracle}
use nestjs_order_api.Prisma.Inversion.{>>=-eq-ok}
use nestjs_order_api.Rabbit.{
  Letter, to_creation, to_processing, to_completed, Broker, wait_for_connection, attempt_connection,
  on_module_init, publish_database_creation_message, publish_order_processing_message,
  publish_order_completed_message,
}
use nestjs_order_api.Rabbit.Laws.{
  IsBroker, IsBroker-eq, documented-IsBroker, documented_broker, posted,
}
use nestjs_order_api.Rabbit.Waiting.{
  IsQuiet, IsOpenable, wait_for_connection-Waited, wait_for_connection_stuck,
  wait_for_connection_opens,
}

-- A connection without a channel.
abbrev pub half_open : Connections
half_open = record { connection = true; channel = false }

-- The publishing function of a message.
abbrev pub publish : {E : Type 0} → Broker E → Letter → Action E (Unit {0})
publish b (to_creation m) = publish_database_creation_message b m
publish b (to_processing m) = publish_order_processing_message b m
publish b (to_completed m) = publish_order_completed_message b m

-- Only the message has been added, at the end of its queue.
abbrev pub IsPosted : {E : Type 0} → Letter → World E → World E → Type 0
IsPosted m w w' = IsQuiet (posted m w) w'

module _ {E : Type 0} (o : Oracle E) where
  waited-IsQuiet :
      (w : World E) {x : Unit {0}} {u : World E}
      → wait_for_connection (documented_broker o) w ≡ (ok x, u)
      → IsQuiet w u
  waited-IsQuiet w run =
      subst (λ r. IsQuiet w r.1) run
        (wait_for_connection-Waited o (documented_broker o) (documented-IsBroker o) w).0

  publish-IsPosted :
      (m : Letter) (w : World E) {x : Unit {0}} {w' : World E}
      → publish (documented_broker o) m w ≡ (ok x, w')
      → IsPosted m w w'
  unfolding publish_database_creation_message publish_order_processing_message
      publish_order_completed_message documented_broker
  publish-IsPosted (to_creation m) w h =
      let (x, u, run, rest) = >>=-eq-ok (wait_for_connection (documented_broker o)) _ w h in
      ground (arith, waited-IsQuiet w run)
  publish-IsPosted (to_processing m) w h =
      let (x, u, run, rest) = >>=-eq-ok (wait_for_connection (documented_broker o)) _ w h in
      ground (arith, waited-IsQuiet w run)
  publish-IsPosted (to_completed m) w h =
      let (x, u, run, rest) = >>=-eq-ok (wait_for_connection (documented_broker o)) _ w h in
      ground (arith, waited-IsQuiet w run)

  publish-IsQuiet :
      (m : Letter) (w : World E) {e : Exn} {w' : World E}
      → publish (documented_broker o) m w ≡ (err e, w')
      → IsQuiet w w'
  unfolding publish_database_creation_message publish_order_processing_message
      publish_order_completed_message documented_broker
  publish-IsQuiet (to_creation m) w h =
      ground
        (arith, (wait_for_connection-Waited o (documented_broker o) (documented-IsBroker o) w).0)
  publish-IsQuiet (to_processing m) w h =
      ground
        (arith, (wait_for_connection-Waited o (documented_broker o) (documented-IsBroker o) w).0)
  publish-IsQuiet (to_completed m) w h =
      ground
        (arith, (wait_for_connection-Waited o (documented_broker o) (documented-IsBroker o) w).0)

  publish_arrives :
      ((e : E) → o.fault e ≡ none)
      → (m : Letter) (w : World E) → IsOpenable w
      → (w' : World E) × (publish (documented_broker o) m w ≡ (ok tt, w'))
  unfolding publish_database_creation_message publish_order_processing_message
      publish_order_completed_message documented_broker
  publish_arrives reliable (to_creation m) w openable =
      let (u, run, quiet, held) =
        wait_for_connection_opens o (documented_broker o) (documented-IsBroker o) reliable w
          openable in
      (
        record (posted (to_creation m) u) { env = o.next u.env },
        ground (arith, run, reliable u.env),
      )
  publish_arrives reliable (to_processing m) w openable =
      let (u, run, quiet, held) =
        wait_for_connection_opens o (documented_broker o) (documented-IsBroker o) reliable w
          openable in
      (
        record (posted (to_processing m) u) { env = o.next (o.next u.env) },
        ground (arith, run, reliable u.env, reliable (o.next u.env)),
      )
  publish_arrives reliable (to_completed m) w openable =
      let (u, run, quiet, held) =
        wait_for_connection_opens o (documented_broker o) (documented-IsBroker o) reliable w
          openable in
      (
        record (posted (to_completed m) u) { env = o.next (o.next u.env) },
        ground (arith, run, reliable u.env, reliable (o.next u.env)),
      )

  pub publish_stuck :
      (m : Letter) (w : World E)
      → w.rabbit ≡ half_open
      → (e : Exn) × (w' : World E) × (publish (documented_broker o) m w ≡ (err e, w'))
        × (w'.rabbit ≡ half_open)
  unfolding publish_database_creation_message publish_order_processing_message
      publish_order_completed_message
  publish_stuck (to_creation m) w half =
      let (e, w', run, same) =
        wait_for_connection_stuck o (documented_broker o) (documented-IsBroker o) w half in
      (e, w', ground (arith, run), same)
  publish_stuck (to_processing m) w half =
      let (e, w', run, same) =
        wait_for_connection_stuck o (documented_broker o) (documented-IsBroker o) w half in
      (e, w', ground (arith, run), same)
  publish_stuck (to_completed m) w half =
      let (e, w', run, same) =
        wait_for_connection_stuck o (documented_broker o) (documented-IsBroker o) w half in
      (e, w', ground (arith, run), same)

  pub init_half_opens :
      (why : String) (w : World E)
      → o.fault w.env ≡ none
      → o.fault (o.next w.env) ≡ some why
      → w.rabbit ≡ record { connection = false; channel = false }
      → (on_module_init (documented_broker o) w).1.rabbit ≡ half_open
  unfolding on_module_init attempt_connection documented_broker
  init_half_opens why w up down fresh = ground arith

module _ {E : Type 0} (o : Oracle E) (b : Broker E) (laws : IsBroker o b) where
  -- A message that is published without an error stands at the end of its queue, and nothing else has
  -- been written.
  pub publish_success :
      (m : Letter) (w : World E) {x : Unit {0}} {w' : World E}
      → publish b m w ≡ (ok x, w')
      → IsPosted m w w'
  publish_success m w h = publish-IsPosted o m w (rw (IsBroker-eq o b laws) at h)

  -- A publication that throws has written to no table and no queue.
  pub publish_failure :
      (m : Letter) (w : World E) {e : Exn} {w' : World E}
      → publish b m w ≡ (err e, w')
      → IsQuiet w w'
  publish_failure m w h = publish-IsQuiet o m w (rw (IsBroker-eq o b laws) at h)

  -- If nothing fails, and the service has a channel or no connection yet, the publication of a message
  -- succeeds: then it has reconnected where that was needed.
  pub publish_available :
      ((e : E) → o.fault e ≡ none)
      → (m : Letter) (w : World E) → IsOpenable w
      → (w' : World E) × (publish b m w ≡ (ok tt, w')) × IsPosted m w w'
  publish_available reliable m w openable =
      let (w', run) = publish_arrives o reliable m w openable in
      (w', rw (IsBroker-eq o b laws) run, publish-IsPosted o m w run)
