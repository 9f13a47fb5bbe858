-- ===== src/Consumer/Start.antt =====
-- `onModuleInit` of the three consumers, in rabbitmq/order-processing.consumer.ts,
-- rabbitmq/order-completed.consumer.ts and rabbitmq/database-creation.consumer.ts. A timer is a `delay`.
use nestjs_order_api.Base.{
  ℕ, zero, suc, Bool, true, false, none, some, String, ◌≡◌, refl, sym, ◌∙◌, arith,
}
use nestjs_order_api.Http.{Exn, ok, err}
use nestjs_order_api.Prisma.{World, Action, pure, ◌>>◌, catch}
use nestjs_order_api.Prisma.Effects.{Oracle}
use nestjs_order_api.Rabbit.{
  Broker, Letter, on_module_init, consume_database_creation_messages,
  consume_order_processing_messages, consume_order_completed_messages,
}
use nestjs_order_api.Rabbit.Laws.{IsBroker, IsBroker-eq, documented_broker, documented-IsBroker}
use nestjs_order_api.Rabbit.Waiting.{
  IsOpenable, IsQuiet, wait_for_connection_stuck, wait_for_connection_opens,
}
use nestjs_order_api.Rabbit.Publishing.{half_open, publish, publish_stuck, init_half_opens}

pub data Consumer : Type 0 where
  of_creations of_processing of_completed : Consumer

module _ {E : Type 0} (b : Broker E) where
  abbrev pub consume : Consumer → Action E (Unit {0})
  consume of_creations = consume_database_creation_messages b
  consume of_processing = consume_order_processing_messages b
  consume of_completed = consume_order_completed_messages b

  -- Whether the consumer is started after so many attempts; an attempt that fails is followed by the
  -- next.
  unfoldable pub start_consumer : ℕ → Consumer → Action E Bool
  start_consumer zero c = pure false
  start_consumer (suc n) c = do
    b.delay
    catch (do consume c; pure true) (λ e. do b.delay; start_consumer n c)

module _ {E : Type 0} (o : Oracle E) where
  consume_stuck :
      (c : Consumer) (w : World E)
      → w.rabbit ≡ half_open
      → (e : Exn) × (w' : World E) × (consume (documented_broker o) c w ≡ (err e, w'))
        × (w'.rabbit ≡ half_open)
  unfolding consume_database_creation_messages consume_order_processing_messages
      consume_order_completed_messages
  consume_stuck of_creations w half =
      let (e, w', run, same) =
        wait_for_connection_stuck o (documented_broker o) (documented-IsBroker o) w half in
      (e, w', ground (arith, run), same)
  consume_stuck of_processing w half =
      let (e, w', run, same) =
        wait_for_connection_stuck o (documented_broker o) (documented-IsBroker o) w half in
      (e, w', ground (arith, run), same)
  consume_stuck of_completed w half =
      let (e, w', run, same) =
        wait_for_connection_stuck o (documented_broker o) (documented-IsBroker o) w half in
      (e, w', ground (arith, run), same)

  start_stuck :
      (n : ℕ) (c : Consumer) (w : World E)
      → w.rabbit ≡ half_open
      → (w' : World E) × (start_consumer (documented_broker o) n c w ≡ (ok false, w'))
        × (w'.rabbit ≡ half_open)
  unfolding start_consumer documented_broker
  start_stuck zero c w half = (w, refl, half)
  start_stuck (suc n) c w half =
      let (e, u, run, still) = consume_stuck c (record w { env = o.next w.env }) half in
      let (w', rest, same) = start_stuck n c (record u { env = o.next u.env }) still in
      (w', ground (arith, run, rest), same)

  consume_opens :
      ((e : E) → o.fault e ≡ none)
      → (c : Consumer) (w : World E) → IsOpenable w
      → (w' : World E) × (consume (documented_broker o) c w ≡ (ok tt, w')) × IsQuiet w w'
  unfolding consume_database_creation_messages consume_order_processing_messages
      consume_order_completed_messages documented_broker
  consume_opens reliable of_creations w openable =
      let (u, run, quiet, held) =
        wait_for_connection_opens o (documented_broker o) (documented-IsBroker o) reliable w
          openable in
      (record u { env = o.next u.env }, ground (arith, run, reliable u.env), quiet)
  consume_opens reliable of_processing w openable =
      let (u, run, quiet, held) =
        wait_for_connection_opens o (documented_broker o) (documented-IsBroker o) reliable w
          openable in
      (
        record u { env = o.next (o.next u.env) },
        ground (arith, run, reliable u.env, reliable (o.next u.env)),
        quiet,
      )
  consume_opens reliable of_completed w openable =
      let (u, run, quiet, held) =
        wait_for_connection_opens o (documented_broker o) (documented-IsBroker o) reliable w
          openable in
      (
        record u { env = o.next (o.next u.env) },
        ground (arith, run, reliable u.env, reliable (o.next u.env)),
        quiet,
      )

  start_opens :
      ((e : E) → o.fault e ≡ none)
      → (n : ℕ) (c : Consumer) (w : World E) → IsOpenable w
      → (w' : World E) × (start_consumer (documented_broker o) (suc n) c w ≡ (ok true, w'))
        × IsQuiet w w'
  unfolding start_consumer documented_broker
  start_opens reliable n c w openable =
      let (w', run, quiet) = consume_opens reliable c (record w { env = o.next w.env }) openable in
      (w', ground (arith, run), quiet)

module _ {E : Type 0} (o : Oracle E) (b : Broker E) (laws : IsBroker o b) where
  -- If nothing fails, and the messaging service has a channel or no connection yet, each of the three
  -- consumers is started by its first attempt, which changes no table and no queue.
  pub consumer_starts :
      ((e : E) → o.fault e ≡ none)
      → (n : ℕ) (c : Consumer) (w : World E) → IsOpenable w
      → (w' : World E) × (start_consumer b (suc n) c w ≡ (ok true, w')) × IsQuiet w w'
  consumer_starts reliable n c w openable =
      rw (IsBroker-eq o b laws) (start_opens o reliable n c w openable)

  -- If the connection is made when the messaging service starts and creating its channel fails, then,
  -- whether or not the outside world has recovered, no consumer is started by any number of attempts,
  -- every publication throws, and the service stays in the same state.
  pub half_open_never_starts :
      (why : String) (w v : World E)
      → o.fault w.env ≡ none
      → o.fault (o.next w.env) ≡ some why
      → w.rabbit ≡ record { connection = false; channel = false }
      → v.rabbit ≡ (on_module_init b w).1.rabbit
      → (n : ℕ) (c : Consumer) (m : Letter)
      → ((v' : World E) × (start_consumer b n c v ≡ (ok false, v')) × (v'.rabbit ≡ v.rabbit))
        × ((e : Exn) × (v' : World E) × (publish b m v ≡ (err e, v')) × (v'.rabbit ≡ v.rabbit))
  half_open_never_starts why w v up down fresh kept n c m =
      let half = init_half_opens o why w up down fresh in
      let same : v.rabbit ≡ half_open = (rw (IsBroker-eq o b laws) at kept) ∙ half in
      let (v1, run1, still1) = start_stuck o n c v same in
      let (e, v2, run2, still2) = publish_stuck o m v same in
      (
        (v1, rw (IsBroker-eq o b laws) run1, still1 ∙ sym same),
        (e, v2, rw (IsBroker-eq o b laws) run2, still2 ∙ sym same),
      )
