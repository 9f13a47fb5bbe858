-- ===== src/Order/Lifecycle.antt =====
-- order/order.service.ts: an order moves on. `checkoutOrder`, `paymentReceived`, `completeOrder`, and
-- the calls that hand an order to the queues.
use nestjs_order_api.Base.{
  String, Bool, true, false, not, List, [], ◌∷◌, pos, ltb_ℤ, show_ℕ, show_ℤ, ◌<>◌, ◌===◌,
}
use nestjs_order_api.Http.{bad_request, forbidden}
use nestjs_order_api.Schema.{pending, waiting_for_payment, paid, complete, OrderItem, OrderView}
use nestjs_order_api.Prisma.{Prisma, Action, pure, ◌>>=◌, ◌>>◌, throw_if, or_throw}
use nestjs_order_api.Prisma.Rows.{with_status}
use nestjs_order_api.Rabbit.{
  Broker, publish_order_processing_message, publish_order_completed_message,
}
use nestjs_order_api.Services.{no_order, no_product, guarded}
use nestjs_order_api.Order.Status.{status_eq}

abbrev pub is_empty : List OrderItem → Bool
is_empty [] = true
is_empty (_ ∷ _) = false

module _ {E : Type 0} (p : Prisma E) where
  -- The loop of `checkoutOrder`.
  unfoldable pub verify_stock : String → List OrderItem → Action E (Unit {0})
  verify_stock tenant [] = pure tt
  verify_stock tenant (item ∷ items) = do
    product ←
        or_throw (← guarded tenant (p.product_find_unique item.product_id))
          (no_product item.product_id)
    throw_if (ltb_ℤ product.stock (pos item.quantity)) (
        bad_request (
          "Insufficient stock for product "
          <> product.name
          <> ". Available: "
          <> show_ℤ product.stock
          <> ", Required: "
          <> show_ℕ item.quantity))
    verify_stock tenant items

  unfoldable pub checkout_order : String → String → String → Action E OrderView
  unfolding verify_stock guarded
  checkout_order id user tenant = do
    (order, items) ← or_throw (← p.order_find_unique_items id) (no_order id)
    throw_if (not (order.user_id === user))
        (forbidden "You do not have permission to checkout this order")
    throw_if (not (status_eq order.status pending)) (bad_request "Order is not in pending status")
    throw_if (is_empty items) (bad_request "Cannot checkout an order with no items")
    verify_stock tenant items
    guarded tenant (p.order_update_view id (with_status waiting_for_payment))

  -- The loop of `paymentReceived`.
  unfoldable pub deduct_stock : String → List OrderItem → Action E (Unit {0})
  deduct_stock tenant [] = pure tt
  deduct_stock tenant (item ∷ items) = do
    guarded tenant (p.product_decrement item.product_id item.quantity)
    deduct_stock tenant items

  unfoldable pub payment_received : String → String → String → Action E OrderView
  unfolding deduct_stock guarded
  payment_received id user tenant = do
    (order, items) ← or_throw (← p.order_find_unique_items id) (no_order id)
    throw_if (not (order.user_id === user))
        (forbidden "You do not have permission to update this order")
    throw_if (not (status_eq order.status waiting_for_payment))
        (bad_request "Order is not waiting for payment")
    deduct_stock tenant items
    guarded tenant (p.order_update_view id (with_status paid))

  unfoldable pub complete_order : String → String → String → Action E OrderView
  unfolding guarded
  complete_order id user tenant = do
    order ← or_throw (← p.order_find_unique id) (no_order id)
    throw_if (not (order.user_id === user))
        (forbidden "You do not have permission to complete this order")
    throw_if (not (status_eq order.status paid))
        (bad_request "Order must be paid before it can be completed")
    guarded tenant (p.order_update_view id (with_status complete))

  module _ (b : Broker E) where
    unfoldable pub enqueue_order_processing : String → String → String → Action E (Unit {0})
    enqueue_order_processing id user tenant =
        publish_order_processing_message b
          (record { order_id = id; user_id = user; tenant_code = tenant })

    -- The answer `{ queued: true }`.
    unfoldable pub enqueue_order_completed : String → String → String → String → Action E Bool
    enqueue_order_completed id user tenant transaction = do
      order ← or_throw (← p.order_find_unique id) (no_order id)
      throw_if (not (order.user_id === user))
          (forbidden "You do not have permission to complete this order")
      publish_order_completed_message b (record {
        order_id = id;
        user_id = user;
        tenant_code = tenant;
        transaction_id = transaction;
      })
      pure true
