-- ===== src/Prisma/Effects.antt =====
-- What the calls of @prisma/client do with the tables, by its documentation; the hypotheses of
-- Prisma/Laws.antt are stated with these functions. An update or a deletion of a row that is not there
-- fails, and so does a write that breaks a foreign key.
use nestjs_order_api.Base.{
  ℕ, pos, String, Bool, Option, none, some, [], ◌∷◌, ◌++◌, any, is_some, ◌&&◌, if◌then◌else◌,
}
use nestjs_order_api.Base.Keyed.{find, update, delete}
use nestjs_order_api.Http.{Result, ok, err, failure}
use nestjs_order_api.Schema.{Product, Order, OrderItem, Tables}
use nestjs_order_api.Prisma.Monad.{Action}
use nestjs_order_api.Prisma.Rows.{
  NewOrder, OrderData, NewItem, NewProduct, order_key, item_key, product_key, patch_order,
  of_product,
}

-- How the outside world answers: the error of the next call, if it fails; its next state; the id of
-- the next row; the clock; whether a channel's buffer has room; and the order in which a query takes
-- rows that its `orderBy` does not tell apart, by their ids, which the database leaves open.
pub record Oracle (E : Type 0) : Type 0 where
  pub fault : E → Option String
  pub next : E → E
  pub fresh_id : E → String
  pub now : E → ℕ
  pub flushed : E → Bool
  pub rank : E → String → ℕ

abbrev pub record_missing : String
record_missing =
    "An operation failed because it depends on one or more records that were required but not found."

abbrev pub foreign_key_violated : String
foreign_key_violated = "Foreign key constraint failed on the field"

-- A call that changes the tables, or fails and does not.
abbrev pub Effect : Type 0 → Type 0
Effect A = Tables → Result A × Tables

abbrev pub reads : {A : Type 0} → (Tables → A) → Effect A
reads f t = (ok (f t), t)

abbrev pub fails : {A : Type 0} → String → Effect A
fails m t = (err (failure m), t)

-- The world answers a call: with a failure of its own, or with the call's effect.
abbrev pub answered : {E A : Type 0} → Oracle E → (E → Effect A) → Action E A
answered o f w =
    let later = o.next w.env in
    elim (o.fault w.env) [
      | some m ↦ (err (failure m), record w { env = later })
      | none ↦ let (r, t) = f w.env w.tables in (r, record w { tables = t; env = later })
    ]

-- Rewrites the row with a key, which must be there.
abbrev pub rewrite_order : {A : Type 0} → String → OrderData → (Tables → Order → A) → Effect A
rewrite_order id d result t = elim (find order_key id t.orders) [
  | none ↦ (err (failure record_missing), t)
  | some old ↦
      let t' : Tables = record t { orders = update order_key id (patch_order d) t.orders } in
      (ok (result t' (patch_order d old)), t')
]

abbrev pub rewrite_product : String → (Product → Product) → Effect Product
rewrite_product id f t = elim (find product_key id t.products) [
  | none ↦ (err (failure record_missing), t)
  | some old ↦ (ok (f old), record t { products = update product_key id f t.products })
]

abbrev pub with_product : Tables → OrderItem → OrderItem × Option Product
with_product t i = (i, find product_key i.product_id t.products)

abbrev pub set_quantity : ℕ → OrderItem → OrderItem
set_quantity n i = record i { quantity = n }

abbrev pub rewrite_item : String → ℕ → Effect (OrderItem × Option Product)
rewrite_item id n t = elim (find item_key id t.items) [
  | none ↦ (err (failure record_missing), t)
  | some old ↦ (
    ok (with_product t (set_quantity n old)),
    record t { items = update item_key id (set_quantity n) t.items },
  )
]

abbrev pub new_order : String → ℕ → NewOrder → Order
new_order id now d = record {
  id = id;
  user_id = d.user_id;
  status = d.status;
  total = d.total;
  payment_id = none;
  transaction_id = none;
  created_at = now;
}

abbrev pub insert_order : String → ℕ → NewOrder → Effect Order
insert_order id now d t =
    (ok (new_order id now d), record t { orders = t.orders ++ new_order id now d ∷ [] })

abbrev pub new_item : String → NewItem → OrderItem
new_item id d = record {
  id = id;
  order_id = d.order_id;
  product_id = d.product_id;
  quantity = d.quantity;
  price = d.price;
}

abbrev pub insert_item : String → NewItem → Effect (OrderItem × Option Product)
insert_item id d t =
    if is_some (find order_key d.order_id t.orders)
      && is_some (find product_key d.product_id t.products)
    then (ok (with_product t (new_item id d)), record t { items = t.items ++ new_item id d ∷ [] })
    else (err (failure foreign_key_violated), t)

abbrev pub new_product : String → ℕ → NewProduct → Product
new_product id now d = record {
  id = id;
  name = d.name;
  description = d.description;
  price = d.price;
  stock = pos d.stock;
  created_at = now;
}

abbrev pub insert_product : String → ℕ → NewProduct → Effect Product
insert_product id now d t =
    (ok (new_product id now d), record t { products = t.products ++ new_product id now d ∷ [] })

-- An order item holds on to its product.
abbrev pub drop_product : String → Effect Product
drop_product id t = elim (find product_key id t.products) [
  | none ↦ (err (failure record_missing), t)
  | some old ↦
      if any (of_product id) t.items
      then (err (failure foreign_key_violated), t)
      else (ok old, record t { products = delete product_key id t.products })
]
