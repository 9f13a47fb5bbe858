-- ===== src/Prisma/Rows.antt =====
-- The `data` arguments of the calls, and what @prisma/client documents the calls to do with the
-- tables. An absent field of an update leaves the column alone.
use nestjs_order_api.Base.{
  ℕ, pos, ◌-ℤ◌, String, Bool, ◌&&◌, Option, none, some, List, [], ◌∷◌, map, or_else, select, ◌===◌,
}
use nestjs_order_api.Base.Keyed.{find}
use nestjs_order_api.Schema.{
  Product, OrderStatus, Order, OrderItem, Tables, ProductSummary, ItemView, OrderView,
}

pub record NewOrder : Type 0 where
  pub user_id : String
  pub status : OrderStatus
  pub total : ℕ

pub record OrderData : Type 0 where
  pub status : Option OrderStatus
  pub total : Option ℕ
  pub payment_id : Option String
  pub transaction_id : Option String

pub record NewItem : Type 0 where
  pub order_id : String
  pub product_id : String
  pub quantity : ℕ
  pub price : ℕ

pub record NewProduct : Type 0 where
  pub name : String
  pub description : Option String
  pub price : ℕ
  pub stock : ℕ

-- An update may set the description to null, `some none`, or leave it, `none`.
pub record ProductData : Type 0 where
  pub name : Option String
  pub description : Option (Option String)
  pub price : Option ℕ
  pub stock : Option ℕ

abbrev pub with_status : OrderStatus → OrderData
with_status s = record { status = some s; total = none; payment_id = none; transaction_id = none }

abbrev pub with_total : ℕ → OrderData
with_total n = record { status = none; total = some n; payment_id = none; transaction_id = none }

abbrev pub order_key : Order → String
order_key o = o.id

abbrev pub item_key : OrderItem → String
item_key i = i.id

abbrev pub product_key : Product → String
product_key p = p.id

abbrev pub or_old : {A : Type 0} → Option A → Option A → Option A
or_old none old = old
or_old (some a) old = some a

abbrev pub patch_order : OrderData → Order → Order
patch_order d o = record o {
  status = or_else d.status o.status;
  total = or_else d.total o.total;
  payment_id = or_old d.payment_id o.payment_id;
  transaction_id = or_old d.transaction_id o.transaction_id;
}

abbrev pub patch_product : ProductData → Product → Product
patch_product d p = record p {
  name = or_else d.name p.name;
  description = or_else d.description p.description;
  price = or_else d.price p.price;
  stock = or_else (elim d.stock [ none ↦ none | some n ↦ some (pos n) ]) p.stock;
}

abbrev pub decrement : ℕ → Product → Product
decrement n p = record p { stock = p.stock -ℤ pos n }

abbrev pub of_order : String → OrderItem → Bool
of_order id i = i.order_id === id

abbrev pub of_line : String → String → OrderItem → Bool
of_line order product i = i.order_id === order && i.product_id === product

abbrev pub of_product : String → OrderItem → Bool
of_product id i = i.product_id === id

abbrev pub first : {A : Type 0} → List A → Option A
first [] = none
first (a ∷ _) = some a

abbrev pub summary : Product → ProductSummary
summary p = record { id = p.id; name = p.name; description = p.description; price = p.price }

abbrev pub view_item : Tables → OrderItem → ItemView
view_item t i = record {
  item = i;
  product = elim (find product_key i.product_id t.products) [
    | none ↦ none
    | some p ↦ some (summary p)
  ];
}

abbrev pub items_of : Tables → String → List OrderItem
items_of t id = select (of_order id) t.items

abbrev pub view_order : Tables → Order → OrderView
view_order t o = record { order = o; items = map (view_item t) (items_of t o.id) }
