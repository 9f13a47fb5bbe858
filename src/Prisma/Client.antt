-- ===== src/Prisma/Client.antt =====
-- The calls of @prisma/client that the services make, as a parameter. What is documented of them is in Prisma/Laws.antt.
use nestjs_order_api.Base.{ℕ, String, Option, List}
use nestjs_order_api.Schema.{Product, Order, OrderItem, OrderView}
use nestjs_order_api.Prisma.Monad.{Action}
use nestjs_order_api.Prisma.Rows.{NewOrder, OrderData, NewItem, NewProduct, ProductData}

-- The delegates `order`, `orderItem` and `product` of a Prisma client for one tenant's database.
-- A call with `include` is a call of its own.
pub record Prisma (E : Type 0) : Type 0 where
  pub order_create : NewOrder → Action E Order
  pub order_find_unique : String → Action E (Option Order)
  pub order_find_unique_items : String → Action E (Option (Order × List OrderItem))
  pub order_find_first : String → String → Action E (Option OrderView)
  pub order_find_many : String → Action E (List OrderView)
  pub order_update : String → OrderData → Action E Order
  pub order_update_view : String → OrderData → Action E OrderView
  pub item_find_first : String → String → Action E (Option OrderItem)
  pub item_find_many : String → Action E (List OrderItem)
  pub item_create : NewItem → Action E (OrderItem × Option Product)
  pub item_update : String → ℕ → Action E (OrderItem × Option Product)
  pub product_create : NewProduct → Action E Product
  pub product_count : Action E ℕ
  pub product_find_many : ℕ → ℕ → Action E (List Product)
  pub product_find_unique : String → Action E (Option Product)
  pub product_update : String → ProductData → Action E Product
  pub product_decrement : String → ℕ → Action E Product
  pub product_delete : String → Action E Product
