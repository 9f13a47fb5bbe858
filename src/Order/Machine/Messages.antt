-- ===== src/Order/Machine/Messages.antt =====
-- Bystanders among the events that publish or deliver a message.
use nestjs_order_api.Base.{ℕ, zero, suc, String, Bool, true, false, List, [], ◌∷◌, refl, arith}
use nestjs_order_api.Http.{Result, ok, err}
use nestjs_order_api.Prisma.{World, Processing, Completed, ◌>>=◌}
use nestjs_order_api.Prisma.Effects.{Oracle}
use nestjs_order_api.Prisma.Laws.{documented}
use nestjs_order_api.Rabbit.{
  Letter, to_creation, to_processing, to_completed, reconnect, attempt_connection, wait_rounds,
  wait_for_connection, keep_connection, keep_channel, publish_order_processing_message,
  publish_order_completed_message,
}
use nestjs_order_api.Rabbit.Laws.{documented_broker, sends, passes_time}
use nestjs_order_api.Order.Lifecycle.{enqueue_order_processing, enqueue_order_completed}
use nestjs_order_api.Consumer.{
  handle_order_processing, handle_order_completed, settle_processing, settle_completed,
  deliver_first_processing, deliver_first_completed, deliver_processing, deliver_completed,
}
use nestjs_order_api.Order.Machine.Bystanders.{IsUuid, Kept, IsBystander, >>=-IsBystander, leaving}

module _ {E : Type 0} (o : Oracle E) (ids : IsUuid o) where
  keep_connection-IsBystander : IsBystander o ids keep_connection
  keep_connection-IsBystander = record { keeps = λ w. (refl, omega arith) }

  keep_channel-IsBystander : IsBystander o ids keep_channel
  keep_channel-IsBystander = record { keeps = λ w. (refl, omega arith) }

  passes_time-IsBystander : IsBystander o ids (passes_time o)
  passes_time-IsBystander = record { keeps = λ w. (refl, omega (arith, ids.next_lem w.env)) }

  attempt_connection-IsBystander : IsBystander o ids (attempt_connection (documented_broker o))
  unfolding attempt_connection documented_broker
  attempt_connection-IsBystander =
      search (leaving, keep_connection-IsBystander, keep_channel-IsBystander) depth 14

  reconnect-IsBystander : (c : Bool) → IsBystander o ids (reconnect (documented_broker o) c)
  unfolding reconnect
  reconnect-IsBystander true = search leaving
  reconnect-IsBystander false = search (leaving, attempt_connection-IsBystander)

  sends-IsBystander : (m : Letter) → IsBystander o ids (sends o m)
  sends-IsBystander (to_creation m) = record { keeps = λ w. ground (arith, ids.next_lem w.env) }
  sends-IsBystander (to_processing m) = record { keeps = λ w. ground (arith, ids.next_lem w.env) }
  sends-IsBystander (to_completed m) = record { keeps = λ w. ground (arith, ids.next_lem w.env) }

  -- One round of waiting, and the rounds after it.
  round-Kept :
      (n : ℕ) (w : World E) (c : Bool)
      → IsBystander o ids (wait_rounds (documented_broker o) n)
      → Kept o ids w
          (elim c as (λ _. Result (Unit {0}) × World E) [
            | true ↦ (ok tt, w)
            | false ↦
                (reconnect (documented_broker o) w.rabbit.connection
                    >>= (λ _. passes_time o >>= (λ _. wait_rounds (documented_broker o) n)))
                  w
          ]).1
  round-Kept n w true rest = (refl, omega arith)
  round-Kept n w false rest =
      (>>=-IsBystander o ids _ _ (reconnect-IsBystander w.rabbit.connection)
          (λ _. >>=-IsBystander o ids _ _ passes_time-IsBystander (λ _. rest))).keeps
        w

  wait_rounds-IsBystander : (n : ℕ) → IsBystander o ids (wait_rounds (documented_broker o) n)
  unfolding wait_rounds documented_broker
  wait_rounds-IsBystander zero = record { keeps = λ w. (refl, omega arith) }
  wait_rounds-IsBystander (suc n) = record {
    keeps = λ w. round-Kept n w w.rabbit.channel (wait_rounds-IsBystander n);
  }

  publishing-IsBystander :
      (m : Processing)
      → IsBystander o ids (publish_order_processing_message (documented_broker o) m)
  unfolding publish_order_processing_message wait_for_connection documented_broker
  publishing-IsBystander m = search (leaving, wait_rounds-IsBystander, sends-IsBystander) depth 12

  pub asks_processing-IsBystander :
      (id user tenant : String)
      → IsBystander o ids
          (enqueue_order_processing (documented o) (documented_broker o) id user tenant)
  unfolding enqueue_order_processing
  asks_processing-IsBystander id user tenant = publishing-IsBystander _

  completing-IsBystander :
      (m : Completed) → IsBystander o ids (publish_order_completed_message (documented_broker o) m)
  unfolding publish_order_completed_message wait_for_connection documented_broker
  completing-IsBystander m = search (leaving, wait_rounds-IsBystander, sends-IsBystander) depth 12

  pub asks_completion-IsBystander :
      (id user tenant transaction : String)
      → IsBystander o ids
          (enqueue_order_completed (documented o) (documented_broker o) id user tenant transaction)
  unfolding enqueue_order_completed documented
  asks_completion-IsBystander id user tenant transaction =
      search (leaving, completing-IsBystander) depth 12

  handle_order_processing-IsBystander :
      (m : Processing) (payment : String)
      → IsBystander o ids (handle_order_processing (documented o) m payment)
  unfolding handle_order_processing documented
  handle_order_processing-IsBystander m payment = search leaving

  handle_order_completed-IsBystander :
      (m : Completed) → IsBystander o ids (handle_order_completed (documented o) m)
  unfolding handle_order_completed documented
  handle_order_completed-IsBystander m = search leaving

  settle_processing-Kept :
      (m : Processing) (rest : List Processing) (w : World E) (r : Result (Unit {0}) × World E)
      → Kept o ids w r.1
      → Kept o ids w (settle_processing (documented o) m rest r)
  settle_processing-Kept m rest w (ok x, v) h = h
  settle_processing-Kept m rest w (err e, v) h = h

  settle_completed-Kept :
      (m : Completed) (rest : List Completed) (w : World E) (r : Result (Unit {0}) × World E)
      → Kept o ids w r.1
      → Kept o ids w (settle_completed (documented o) m rest r)
  settle_completed-Kept m rest w (ok x, v) h = h
  settle_completed-Kept m rest w (err e, v) h = h

  deliver_first_processing-Kept :
      (queue : List Processing) (payment : String) (w : World E)
      → Kept o ids w (deliver_first_processing (documented o) queue payment w)
  deliver_first_processing-Kept [] payment w = (refl, omega arith)
  deliver_first_processing-Kept (m ∷ rest) payment w =
      settle_processing-Kept m rest w _ ((handle_order_processing-IsBystander m payment).keeps w)

  pub deliver_processing-Kept :
      (payment : String) (w : World E) → Kept o ids w (deliver_processing (documented o) payment w)
  unfolding deliver_processing
  deliver_processing-Kept payment w = deliver_first_processing-Kept w.processing payment w

  deliver_first_completed-Kept :
      (queue : List Completed) (w : World E)
      → Kept o ids w (deliver_first_completed (documented o) queue w)
  deliver_first_completed-Kept [] w = (refl, omega arith)
  deliver_first_completed-Kept (m ∷ rest) w =
      settle_completed-Kept m rest w _ ((handle_order_completed-IsBystander m).keeps w)

  pub deliver_completed-Kept : (w : World E) → Kept o ids w (deliver_completed (documented o) w)
  unfolding deliver_completed
  deliver_completed-Kept w = deliver_first_completed-Kept w.completed w
