-- ===== src/Order/Cart.antt =====
-- order/order.service.ts: an order is created and filled. `createOrder`, `addItemToOrder`,
-- `recalculateOrderTotal` and `findOne`.
use mathlib.Core.List.{foldl}
use nestjs_order_api.Base.{
  ℕ, ◌+◌, ◌*◌, String, not, Option, none, some, List, pos, ltb_ℤ, show_ℤ, ◌<>◌, ◌===◌,
}
use nestjs_order_api.Http.{bad_request, forbidden}
use nestjs_order_api.Schema.{Product, pending, Order, OrderItem, OrderView}
use nestjs_order_api.Prisma.{Prisma, Action, pure, ◌>>=◌, ◌>>◌, throw_if, or_throw}
use nestjs_order_api.Prisma.Rows.{with_total}
use nestjs_order_api.Services.{no_order, no_product, guarded}
use nestjs_order_api.Order.Status.{status_eq}

pub record AddItemDto : Type 0 where
  pub product_id : String
  pub quantity : ℕ

-- Prices are in cents, so `Number(item.price) * item.quantity` and its sum are exact here.
abbrev pub add_line : ℕ → OrderItem → ℕ
add_line sum item = sum + item.price * item.quantity

unfoldable pub order_total : List OrderItem → ℕ
order_total items = foldl add_line 0 items

module _ {E : Type 0} (p : Prisma E) where
  unfoldable pub create_order : String → String → Action E Order
  create_order user tenant =
      guarded tenant (p.order_create (record { user_id = user; status = pending; total = 0 }))

  unfoldable pub recalculate_order_total : String → Action E (Unit {0})
  recalculate_order_total order = do
    items ← p.item_find_many order
    p.order_update order (with_total (order_total items))
    pure tt

  -- The new quantity of the line that the order has, or a new line.
  unfoldable pub put_line :
      String
      → AddItemDto
      → String
      → Product
      → Option OrderItem
      → Action E (OrderItem × Option Product)
  put_line order dto tenant product (some existing) =
      guarded tenant (p.item_update existing.id (existing.quantity + dto.quantity))
  put_line order dto tenant product none = guarded tenant (
      p.item_create (record {
        order_id = order;
        product_id = dto.product_id;
        quantity = dto.quantity;
        price = product.price;
      }))

  -- The line, and the order's total after it.
  unfoldable pub write_line :
      String
      → AddItemDto
      → String
      → Product
      → Option OrderItem
      → Action E (OrderItem × Option Product)
  unfolding put_line recalculate_order_total guarded
  write_line order dto tenant product existing = do
    item ← put_line order dto tenant product existing
    recalculate_order_total order
    pure item

  unfoldable pub add_item_to_order :
      String → String → AddItemDto → String → Action E (OrderItem × Option Product)
  unfolding guarded
  add_item_to_order id user dto tenant = do
    order ← or_throw (← p.order_find_unique id) (no_order id)
    throw_if (not (order.user_id === user))
        (forbidden "You do not have permission to modify this order")
    throw_if (not (status_eq order.status pending))
        (bad_request "Cannot add items to an order that is not pending")
    product ←
        or_throw (← guarded tenant (p.product_find_unique dto.product_id))
          (no_product dto.product_id)
    throw_if (ltb_ℤ product.stock (pos dto.quantity))
        (bad_request ("Insufficient stock. Available: " <> show_ℤ product.stock))
    existing ← p.item_find_first id dto.product_id
    write_line id dto tenant product existing

  unfoldable pub find_one : String → String → Action E OrderView
  find_one id user = do or_throw (← p.order_find_first id user) (no_order id)
