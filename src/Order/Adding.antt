-- ===== src/Order/Adding.antt =====
-- `addItemToOrder` (order/order.service.ts): the checks before a line is written, the line, and the
-- order's total after it.
use nestjs_order_api.Base.{
  ℕ, ◌+◌, String, Option, none, some, List, [], ◌∷◌, ◌++◌, pos, ◌≤ℤ◌, select, ◌≡◌, refl, inl, inr,
  arith, eq_iff, eq_refl, Option-cases,
}
use nestjs_order_api.Base.Keyed.{find, update, find-update}
use nestjs_order_api.Http.{Exn, ok, err}
use nestjs_order_api.Schema.{Product, Order, OrderItem, pending}
use nestjs_order_api.Prisma.{World, Prisma}
use nestjs_order_api.Prisma.Rows.{
  order_key, item_key, product_key, items_of, of_line, first, patch_order, with_total,
}
use nestjs_order_api.Prisma.Effects.{Oracle, new_item, set_quantity}
use nestjs_order_api.Prisma.Laws.{IsPrisma, IsPrisma-eq, documented}
use nestjs_order_api.Order.Cart.{AddItemDto, order_total, add_item_to_order, write_line}

-- The lines after `put_line`: the line that the order has for the product grows, or a line with the
-- product's price is appended.
abbrev pub lines_after :
    String → String → AddItemDto → ℕ → Option OrderItem → List OrderItem → List OrderItem
lines_after fresh order dto price (some old) items =
    update item_key old.id (set_quantity (old.quantity + dto.quantity)) items
lines_after fresh order dto price none items =
    items
    ++ new_item fresh (record {
      order_id = order;
      product_id = dto.product_id;
      quantity = dto.quantity;
      price = price;
    })
      ∷ []

pub record IsAdded {E : Type 0} (id user fresh : String) (dto : AddItemDto) (w w' : World E)
    : Type 0 where
  pub order : Order
  pub found : find order_key id w.tables.orders ≡ some order
  pub owned : order.user_id ≡ user
  pub was_pending : order.status ≡ pending
  pub product : Product
  pub sold : find product_key dto.product_id w.tables.products ≡ some product
  pub covered : pos dto.quantity ≤ℤ product.stock
  pub lines :
      w'.tables.items
      ≡ lines_after fresh id dto product.price
          (first (select (of_line id dto.product_id) w.tables.items))
          w.tables.items
  pub total :
      find order_key id w'.tables.orders
      ≡ some (record order { total = order_total (items_of w'.tables id) })
  pub rewritten :
      w'.tables.orders
      ≡ update order_key id
          (patch_order (with_total (order_total (items_of w'.tables id))))
          w.tables.orders
  pub same_products : w'.tables.products ≡ w.tables.products
  pub same_queues :
      (w'.processing ≡ w.processing) × (w'.completed ≡ w.completed) × (w'.creations ≡ w.creations)

module _ {E : Type 0} (o : Oracle E) where
  -- The third state of the outside world after this one: the one in which a line is written.
  abbrev pub at_write : World E → E
  at_write w = o.next (o.next (o.next w.env))

  -- What a write that succeeds has done.
  abbrev Wrote : String → AddItemDto → Product → Option OrderItem → World E → World E → Type 0
  Wrote id dto product existing w w' =
      (w'.tables.items
        ≡ lines_after (o.fresh_id w.env) id dto product.price existing w.tables.items)
      × (w'.tables.orders
          ≡ update order_key id (patch_order (with_total (order_total (items_of w'.tables id))))
              w.tables.orders)
      × (w'.tables.products ≡ w.tables.products)
      × (w'.processing ≡ w.processing)
      × (w'.completed ≡ w.completed)
      × (w'.creations ≡ w.creations)

  write_line-Wrote :
      (id tenant : String) (dto : AddItemDto) (product : Product) (existing : Option OrderItem)
      (w : World E) {v : OrderItem × Option Product} {w' : World E}
      → write_line (documented o) id dto tenant product existing w ≡ (ok v, w')
      → Wrote id dto product existing w w'
  unfolding write_line documented
  write_line-Wrote id tenant dto product (some old) w h = ground arith
  write_line-Wrote id tenant dto product none w h = ground arith

  pub add_item-IsAdded :
      (id user tenant : String) (dto : AddItemDto) (w : World E) {v : OrderItem × Option Product}
      {w' : World E}
      → add_item_to_order (documented o) id user dto tenant w ≡ (ok v, w')
      → IsAdded id user (o.fresh_id (at_write w)) dto w w'
  unfolding add_item_to_order documented
  add_item-IsAdded id user tenant dto w {v} {w'} h =
      elim (Option-cases (find order_key id w.tables.orders)) [
        | inl missing ↦ absurd (ground arith)
        | inr (order, e) ↦ elim (Option-cases (find product_key dto.product_id w.tables.products)) [
          | inl missing ↦ absurd (ground arith)
          | inr (product, s) ↦
              let updated =
                find-update order_key id id
                  (patch_order (with_total (order_total (items_of w'.tables id)))) (λ r. refl)
                  w.tables.orders in
              let existing = first (select (of_line id dto.product_id) w.tables.items) in
              let u : World E = record w { env = at_write w } in
              let wrote = write_line-Wrote id tenant dto product existing u {v = v} {w' = w'} in
              record {
                order = order;
                found = e;
                owned = ground (arith, eq_iff order.user_id user);
                was_pending = ground arith;
                product = product;
                sold = s;
                covered = ground arith;
                lines = ground (arith, wrote);
                total = ground (arith, wrote, updated, eq_refl id);
                rewritten = ground (arith, wrote);
                same_products = ground (arith, wrote);
                same_queues = ground (arith, wrote);
              }
        ]
      ]

  write_line_failed :
      (id tenant : String) (dto : AddItemDto) (product : Product) (existing : Option OrderItem)
      (w : World E) {e : Exn} {w' : World E}
      → write_line (documented o) id dto tenant product existing w ≡ (err e, w')
      → (w'.tables.orders ≡ w.tables.orders)
        × (w'.tables.products ≡ w.tables.products)
        × (w'.processing ≡ w.processing)
        × (w'.completed ≡ w.completed)
  unfolding write_line documented
  write_line_failed id tenant dto product (some old) w h = ground arith
  write_line_failed id tenant dto product none w h = ground arith

  add_item_failed :
      (id user tenant : String) (dto : AddItemDto) (w : World E) {e : Exn} {w' : World E}
      → add_item_to_order (documented o) id user dto tenant w ≡ (err e, w')
      → (w'.tables.orders ≡ w.tables.orders)
        × (w'.tables.products ≡ w.tables.products)
        × (w'.processing ≡ w.processing)
        × (w'.completed ≡ w.completed)
  unfolding add_item_to_order documented
  add_item_failed id user tenant dto w {e} {w'} h =
      let existing = first (select (of_line id dto.product_id) w.tables.items) in
      let u : World E = record w { env = at_write w } in
      elim (Option-cases (find product_key dto.product_id w.tables.products)) [
        | inl missing ↦ ground arith
        | inr (product, s) ↦
            ground (arith, write_line_failed id tenant dto product existing u {e = e} {w' = w'})
      ]

module _ {E : Type 0} (o : Oracle E) (p : Prisma E) (laws : IsPrisma o p) where
  -- A line is added only to the caller's own pending order, for a product that exists and whose stock
  -- covers the quantity asked for. The line that the order has for that product grows by the quantity,
  -- or a line with the product's present price is appended; then the order's total is the sum of price
  -- times quantity over its lines. No product and no queue changes.
  pub add_item_to_order_success :
      (id user tenant : String) (dto : AddItemDto) (w : World E) {v : OrderItem × Option Product}
      {w' : World E}
      → add_item_to_order p id user dto tenant w ≡ (ok v, w')
      → IsAdded id user (o.fresh_id (at_write o w)) dto w w'
  add_item_to_order_success id user tenant dto w h =
      add_item-IsAdded o id user tenant dto w (rw (IsPrisma-eq o p laws) at h)

  -- A call that throws, at whichever step, has changed no order and no product, and queued no
  -- message of an order.
  pub add_item_to_order_failure :
      (id user tenant : String) (dto : AddItemDto) (w : World E) {e : Exn} {w' : World E}
      → add_item_to_order p id user dto tenant w ≡ (err e, w')
      → (w'.tables.orders ≡ w.tables.orders)
        × (w'.tables.products ≡ w.tables.products)
        × (w'.processing ≡ w.processing)
        × (w'.completed ≡ w.completed)
  add_item_to_order_failure id user tenant dto w h =
      add_item_failed o id user tenant dto w (rw (IsPrisma-eq o p laws) at h)
