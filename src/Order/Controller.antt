-- ===== src/Order/Controller.antt =====
-- order/order.controller.ts: the handlers, past the guards and interceptors. The user is the
-- authenticated one.
pub mod Handlers
use nestjs_order_api.Base.{String, List, [], ◌∷◌}
use nestjs_order_api.Http.{bad_request}
use nestjs_order_api.Schema.{OrderView}
use nestjs_order_api.Prisma.{Prisma, Action, pure, throw, ◌>>=◌, ◌>>◌}
use nestjs_order_api.Rabbit.{Broker}
use nestjs_order_api.Order.Cart.{AddItemDto, create_order, add_item_to_order, find_one}
use nestjs_order_api.Order.Lifecycle.{enqueue_order_processing}

module _ {E : Type 0} (p : Prisma E) (b : Broker E) where
  -- The loop of `create`. An item of the body is `{ product_id, qty }`, and is passed on under the
  -- names of `AddItemDto`.
  unfoldable pub add_items : String → String → String → List AddItemDto → Action E (Unit {0})
  add_items id user tenant [] = pure tt
  add_items id user tenant (item ∷ items) = do
    add_item_to_order p id user item tenant
    add_items id user tenant items

  unfoldable pub create : String → String → List AddItemDto → Action E OrderView
  unfolding add_items
  create user tenant [] = throw (bad_request "items is required and must be a non-empty array")
  create user tenant (item ∷ items) = do
    order ← create_order p user tenant
    add_items order.id user tenant (item ∷ items)
    enqueue_order_processing p b order.id user tenant
    find_one p order.id user
