-- ===== src/Schema.antt =====
-- The rows of a tenant's database: prisma/schema.prisma. Prices and totals are DECIMAL(10, 2)
-- columns, and stand here in cents; `updatedAt` is written by Prisma and read by nothing.
use nestjs_order_api.Base.{ℕ, ℤ, String, Option, List}

pub record Product : Type 0 where
  pub id : String
  pub name : String
  pub description : Option String
  pub price : ℕ
  pub stock : ℤ
  pub created_at : ℕ

pub data OrderStatus : Type 0 where
  pending waiting_for_payment paid complete cancelled : OrderStatus

pub record Order : Type 0 where
  pub id : String
  pub user_id : String
  pub status : OrderStatus
  pub total : ℕ
  pub payment_id : Option String
  pub transaction_id : Option String
  pub created_at : ℕ

pub record OrderItem : Type 0 where
  pub id : String
  pub order_id : String
  pub product_id : String
  pub quantity : ℕ
  pub price : ℕ

pub record Tables : Type 0 where
  pub products : List Product
  pub orders : List Order
  pub items : List OrderItem

-- What `include` and `select` add to a row.
pub record ProductSummary : Type 0 where
  pub id : String
  pub name : String
  pub description : Option String
  pub price : ℕ

pub record ItemView : Type 0 where
  pub item : OrderItem
  pub product : Option ProductSummary

pub record OrderView : Type 0 where
  pub order : Order
  pub items : List ItemView

pub OrderStatus-discrete : Discrete OrderStatus
OrderStatus-discrete = hlevel
