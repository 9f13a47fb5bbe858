-- ===== src/Rabbit/Waiting.antt =====
-- About `waitForConnection` (rabbitmq/rabbitmq.service.ts).
use nestjs_order_api.Base.{
  ℕ, zero, suc, Bool, true, false, none, ◌≡◌, ◌⊎◌, inl, inr, refl, ap, ◌∙◌, arith, Bool-cases,
}
use nestjs_order_api.Http.{Exn, Result, ok, err}
use nestjs_order_api.Prisma.{World}
use nestjs_order_api.Prisma.Effects.{Oracle}
use nestjs_order_api.Rabbit.{
  Broker, reconnect, attempt_connection, wait_rounds, wait_for_connection,
}
use nestjs_order_api.Rabbit.Laws.{IsBroker, IsBroker-eq, documented_broker}

-- The tables and the queues are the same.
abbrev pub IsQuiet : {E : Type 0} → World E → World E → Type 0
IsQuiet w w' =
    (w'.tables ≡ w.tables)
    × (w'.processing ≡ w.processing)
    × (w'.completed ≡ w.completed)
    × (w'.creations ≡ w.creations)

-- There is a channel, or nothing yet, so that a connection will be tried.
abbrev pub IsOpenable : {E : Type 0} → World E → Type 0
IsOpenable w = (w.rabbit.channel ≡ true) ⊎ (w.rabbit.connection ≡ false)

module _ {E : Type 0} (o : Oracle E) where
  attempt_connection-IsQuiet :
      (w : World E) → IsQuiet w (attempt_connection (documented_broker o) w).1
  unfolding attempt_connection documented_broker
  attempt_connection-IsQuiet w = ground arith

  reconnect-IsQuiet :
      (c : Bool) (w : World E)
      → (v : World E) × (reconnect (documented_broker o) c w ≡ (ok tt, v)) × IsQuiet w v
  unfolding reconnect
  reconnect-IsQuiet true w = (w, refl, (refl, refl, refl, refl))
  reconnect-IsQuiet false w =
      let quiet = attempt_connection-IsQuiet w in
      ((attempt_connection (documented_broker o) w).1, ground arith, quiet)

  half_reconnect :
      (w : World E)
      → w.rabbit.connection ≡ true
      → reconnect (documented_broker o) w.rabbit.connection w ≡ (ok tt, w)
  unfolding reconnect
  half_reconnect w e = rw e

  wait_open :
      (n : ℕ) (w : World E)
      → w.rabbit.channel ≡ true
      → wait_rounds (documented_broker o) (suc n) w ≡ (ok tt, w)
  unfolding wait_rounds
  wait_open n w e = ground arith

  wait_closed :
      (n : ℕ) (w v : World E)
      → w.rabbit.channel ≡ false
      → reconnect (documented_broker o) w.rabbit.connection w ≡ (ok tt, v)
      → wait_rounds (documented_broker o) (suc n) w
        ≡ wait_rounds (documented_broker o) n (record v { env = o.next v.env })
  unfolding wait_rounds documented_broker
  wait_closed n w v e run = ground arith

  -- A wait changes no table and no queue, and one that succeeds has a channel.
  abbrev pub Waited : World E → Result (Unit {0}) × World E → Type 0
  Waited w r = IsQuiet w r.1 × (r.0 ≡ ok tt → r.1.rabbit.channel ≡ true)

  wait_rounds-Waited : (n : ℕ) (w : World E) → Waited w (wait_rounds (documented_broker o) n w)
  unfolding wait_rounds
  wait_rounds-Waited zero w = ((refl, refl, refl, refl), λ h. absurd (ground arith))
  wait_rounds-Waited (suc n) w = elim (Bool-cases w.rabbit.channel) [
    | inl e ↦ rw (wait_open n w e) ((refl, refl, refl, refl), λ h. e)
    | inr e ↦
        let (v, run, quiet) = reconnect-IsQuiet w.rabbit.connection w in
        let (same, held) = wait_rounds-Waited n (record v { env = o.next v.env }) in
        rw (wait_closed n w v e run) (ground arith, held)
  ]

  -- A connection without a channel: no round tries again.
  wait_rounds_stuck :
      (n : ℕ) (w : World E)
      → w.rabbit ≡ record { connection = true; channel = false }
      → (e : Exn) × (w' : World E) × (wait_rounds (documented_broker o) n w ≡ (err e, w'))
        × (w'.rabbit ≡ record { connection = true; channel = false })
  unfolding wait_rounds
  wait_rounds_stuck zero w e = (_, w, refl, e)
  wait_rounds_stuck (suc n) w e =
      let (x, w', run, same) = wait_rounds_stuck n (record w { env = o.next w.env }) e in
      (
        x,
        w',
        wait_closed n w w (ap (λ r. r.channel) e) (half_reconnect w (ap (λ r. r.connection) e))
            ∙ run,
        same,
      )

  -- If nothing fails, two rounds are enough to have a channel.
  module _ (reliable : (e : E) → o.fault e ≡ none) where
    after_attempt : World E → World E
    after_attempt w = record w {
      rabbit = record { connection = true; channel = true };
      env = o.next (o.next (o.next (o.next (o.next w.env))));
    }

    reconnect_opens :
        (w : World E)
        → w.rabbit.connection ≡ false
        → reconnect (documented_broker o) w.rabbit.connection w ≡ (ok tt, after_attempt w)
    unfolding reconnect attempt_connection documented_broker after_attempt
    reconnect_opens w e = rw e (
        ground (
          arith,
          reliable w.env,
          reliable (o.next w.env),
          reliable (o.next (o.next w.env)),
          reliable (o.next (o.next (o.next w.env))),
          reliable (o.next (o.next (o.next (o.next w.env)))),
        ))

    wait_rounds_opens :
        (n : ℕ) (w : World E)
        → IsOpenable w
        → (w' : World E) × (wait_rounds (documented_broker o) (suc (suc n)) w ≡ (ok tt, w'))
          × IsQuiet w w'
          × (w'.rabbit.channel ≡ true)
    unfolding after_attempt
    wait_rounds_opens n w openable = elim (Bool-cases w.rabbit.channel) [
      | inl e ↦ (w, wait_open (suc n) w e, (refl, refl, refl, refl), e)
      | inr e ↦
          let v : World E = record (after_attempt w) { env = o.next (after_attempt w).env } in
          (
            v,
            wait_closed (suc n) w (after_attempt w) e (reconnect_opens w (ground arith))
                ∙ wait_open n v refl,
            (refl, refl, refl, refl),
            refl,
          )
    ]

module _ {E : Type 0} (o : Oracle E) (b : Broker E) (laws : IsBroker o b) where
  -- A wait for the connection changes no table and no queue, whether it succeeds or throws; after one
  -- that succeeds there is a channel.
  pub wait_for_connection-Waited : (w : World E) → Waited o w (wait_for_connection b w)
  unfolding wait_for_connection
  wait_for_connection-Waited w = rw (IsBroker-eq o b laws) (wait_rounds-Waited o 10 w)

  pub wait_for_connection_stuck :
      (w : World E)
      → w.rabbit ≡ record { connection = true; channel = false }
      → (e : Exn) × (w' : World E) × (wait_for_connection b w ≡ (err e, w'))
        × (w'.rabbit ≡ record { connection = true; channel = false })
  unfolding wait_for_connection
  wait_for_connection_stuck w e = rw (IsBroker-eq o b laws) (wait_rounds_stuck o 10 w e)

  pub wait_for_connection_opens :
      ((e : E) → o.fault e ≡ none)
      → (w : World E) → IsOpenable w
      → (w' : World E) × (wait_for_connection b w ≡ (ok tt, w'))
        × IsQuiet w w'
        × (w'.rabbit.channel ≡ true)
  unfolding wait_for_connection
  wait_for_connection_opens reliable w openable =
      rw (IsBroker-eq o b laws) (wait_rounds_opens o reliable 8 w openable)
