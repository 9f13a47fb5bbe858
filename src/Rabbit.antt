-- ===== src/Rabbit.antt =====
-- rabbitmq/rabbitmq.service.ts over the calls of amqplib. A message stands for its JSON text, and a
-- queue's messages are kept under its name in the world; what is only logged is left out.
pub mod Laws
pub mod Waiting
pub mod Publishing
use nestjs_order_api.Base.{ℕ, zero, suc, String, Bool, true, false}
use nestjs_order_api.Http.{failure, ok}
use nestjs_order_api.Prisma.{
  World, Action, Creation, Processing, Completed, Connections, pure, throw, ◌>>=◌, ◌>>◌, catch,
}

-- A message on its way to its queue.
pub data Letter : Type 0 where
  to_creation : Creation → Letter
  to_processing : Processing → Letter
  to_completed : Completed → Letter

-- The calls of amqplib and of the timer.
pub record Broker (E : Type 0) : Type 0 where
  pub connect : Action E (Unit {0})
  pub create_channel : Action E (Unit {0})
  pub assert_queue : String → Action E (Unit {0})
  pub send_to_queue : Letter → Action E Bool
  pub consume : String → Action E (Unit {0})
  pub close_channel : Action E (Unit {0})
  pub close_connection : Action E (Unit {0})
  pub delay : Action E (Unit {0})

abbrev pub creation_queue : String
creation_queue = "database-creation"

abbrev pub processing_queue : String
processing_queue = "order-processing"

abbrev pub completed_queue : String
completed_queue = "order-completed"

module _ {E : Type 0} where
  -- `this.connection = …` and `this.channel = …`
  abbrev pub keep_connection : Action E (Unit {0})
  keep_connection w = (ok tt, record w { rabbit = record (w.rabbit) { connection = true } })

  abbrev pub keep_channel : Action E (Unit {0})
  keep_channel w = (ok tt, record w { rabbit = record (w.rabbit) { channel = true } })

  abbrev pub when : Bool → Action E (Unit {0}) → Action E (Unit {0})
  when true m = m
  when false m = pure tt

module _ {E : Type 0} (b : Broker E) where
  unfoldable pub attempt_connection : Action E (Unit {0})
  attempt_connection = do
    b.connect
    keep_connection
    b.create_channel
    keep_channel
    b.assert_queue creation_queue
    b.assert_queue processing_queue
    b.assert_queue completed_queue

  -- The steps of `onModuleInit` are those of `attemptConnection`; an error is only logged.
  unfoldable pub on_module_init : Action E (Unit {0})
  unfolding attempt_connection
  on_module_init = catch attempt_connection (λ e. pure tt)

  unfoldable pub on_module_destroy : Action E (Unit {0})
  on_module_destroy w =
      catch
        (do
          when w.rabbit.channel b.close_channel
          λ v. when v.rabbit.connection b.close_connection v)
        (λ e. pure tt) w

  -- `if (!this.connection) { try { await this.attemptConnection(); } catch { … } }`
  unfoldable pub reconnect : Bool → Action E (Unit {0})
  unfolding attempt_connection
  reconnect true = pure tt
  reconnect false = catch attempt_connection (λ e. pure tt)

  -- The loop of `waitForConnection`, with the rounds that are left.
  unfoldable pub wait_rounds : ℕ → Action E (Unit {0})
  unfolding reconnect
  wait_rounds zero w =
      throw (failure "Failed to establish RabbitMQ connection after maximum retries") w
  wait_rounds (suc n) w = elim w.rabbit.channel [
    | true ↦ (ok tt, w)
    | false ↦ (do reconnect w.rabbit.connection; b.delay; wait_rounds n) w
  ]

  unfoldable pub wait_for_connection : Action E (Unit {0})
  unfolding wait_rounds
  wait_for_connection = wait_rounds 10

  -- An error is logged and thrown on. Whether `sendToQueue` found room is only logged.
  unfoldable pub publish_database_creation_message : Creation → Action E (Unit {0})
  unfolding wait_for_connection
  publish_database_creation_message m = do
    wait_for_connection
    b.send_to_queue (to_creation m)
    pure tt

  unfoldable pub publish_order_processing_message : Processing → Action E (Unit {0})
  unfolding wait_for_connection
  publish_order_processing_message m = do
    wait_for_connection
    b.assert_queue processing_queue
    b.send_to_queue (to_processing m)
    pure tt

  unfoldable pub publish_order_completed_message : Completed → Action E (Unit {0})
  unfolding wait_for_connection
  publish_order_completed_message m = do
    wait_for_connection
    b.assert_queue completed_queue
    b.send_to_queue (to_completed m)
    pure tt

  -- The three `consume` functions, up to the callback that they register.
  unfoldable pub consume_database_creation_messages : Action E (Unit {0})
  unfolding wait_for_connection
  consume_database_creation_messages = do wait_for_connection; b.consume creation_queue

  unfoldable pub consume_order_processing_messages : Action E (Unit {0})
  unfolding wait_for_connection
  consume_order_processing_messages = do
    wait_for_connection
    b.assert_queue processing_queue
    b.consume processing_queue

  unfoldable pub consume_order_completed_messages : Action E (Unit {0})
  unfolding wait_for_connection
  consume_order_completed_messages = do
    wait_for_connection
    b.assert_queue completed_queue
    b.consume completed_queue
