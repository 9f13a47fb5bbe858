-- ===== src/Consumer.antt =====
-- The consumers of the order queues: rabbitmq/order-processing.consumer.ts,
-- rabbitmq/order-completed.consumer.ts, and the callbacks of `consumeOrderProcessingMessages` and
-- `consumeOrderCompletedMessages` in rabbitmq/rabbitmq.service.ts. `p` is the client that
-- `DatabaseManagerService.getClient` gives for the message's tenant; the stubs only log.
pub mod Delivery
pub mod Start
use nestjs_order_api.Base.{String, none, some, List, [], ◌∷◌}
use nestjs_order_api.Http.{Exn, Result, ok, err}
use nestjs_order_api.Schema.{waiting_for_payment, complete}
use nestjs_order_api.Prisma.{Prisma, Action, World, Processing, Completed, pure, ◌>>=◌, ◌>>◌}

module _ {E : Type 0} (p : Prisma E) where
  -- The second argument is the UUID that `generatePaymentId` returns.
  unfoldable pub handle_order_processing : Processing → String → Action E (Unit {0})
  handle_order_processing m payment = do
    p.order_update m.order_id (record {
      status = some waiting_for_payment;
      total = none;
      payment_id = some payment;
      transaction_id = none;
    })
    pure tt

  unfoldable pub handle_order_completed : Completed → Action E (Unit {0})
  handle_order_completed m = do
    p.order_update m.order_id (record {
      status = some complete;
      total = none;
      payment_id = none;
      transaction_id = some m.transaction_id;
    })
    pure tt

  -- `ack` takes the message off the queue; `nack(msg, false, true)` puts it back at its place.
  abbrev pub settle_processing :
      Processing → List Processing → Result (Unit {0}) × World E → World E
  settle_processing m rest (ok _, w) = record w { processing = rest }
  settle_processing m rest (err _, w) = record w { processing = m ∷ rest }

  abbrev pub settle_completed : Completed → List Completed → Result (Unit {0}) × World E → World E
  settle_completed m rest (ok _, w) = record w { completed = rest }
  settle_completed m rest (err _, w) = record w { completed = m ∷ rest }

  -- One delivery of the queue's first message.
  abbrev pub deliver_first_processing : List Processing → String → World E → World E
  deliver_first_processing [] payment w = w
  deliver_first_processing (m ∷ rest) payment w =
      settle_processing m rest (handle_order_processing m payment w)

  abbrev pub deliver_first_completed : List Completed → World E → World E
  deliver_first_completed [] w = w
  deliver_first_completed (m ∷ rest) w = settle_completed m rest (handle_order_completed m w)

  unfoldable pub deliver_processing : String → World E → World E
  unfolding handle_order_processing
  deliver_processing payment w = deliver_first_processing w.processing payment w

  unfoldable pub deliver_completed : World E → World E
  unfolding handle_order_completed
  deliver_completed w = deliver_first_completed w.completed w
