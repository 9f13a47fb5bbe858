-- ===== src/Order/Checkout.antt =====
-- About `checkoutOrder` (order/order.service.ts).
use nestjs_order_api.Base.{
  String, none, some, List, [], ◌∷◌, pos, ◌≤ℤ◌, All, ◌≡◌, ◌≢◌, refl, inl, inr, arith, eq_iff,
  Option-cases,
}
use nestjs_order_api.Base.Keyed.{find, update}
use nestjs_order_api.Http.{Exn, ok, err}
use nestjs_order_api.Schema.{
  Product, Order, OrderItem, OrderView, Tables, pending, waiting_for_payment,
}
use nestjs_order_api.Prisma.{World, Prisma}
use nestjs_order_api.Prisma.Rows.{
  order_key, product_key, items_of, view_order, patch_order, with_status,
}
use nestjs_order_api.Prisma.Effects.{Oracle}
use nestjs_order_api.Prisma.Laws.{IsPrisma, IsPrisma-eq, documented}
use nestjs_order_api.Prisma.Inversion.{
  Untouched, IsReading, IsAtomic, >>=-IsAtomic, rewrite_order-IsAtomic, reading, >>=-IsReading,
  reads-IsReading, or_throw-IsReading, throw_if-IsReading,
}
use nestjs_order_api.Services.{no_product, guarded, tenant_errors}
use nestjs_order_api.Services.Laws.{guarded-IsReading, guarded-IsAtomic}
use nestjs_order_api.Order.Lifecycle.{verify_stock, checkout_order}

-- The product of a line exists, and its stock covers the line.
pub record InStock (t : Tables) (item : OrderItem) : Type 0 where
  pub product : Product
  pub found : find product_key item.product_id t.products ≡ some product
  pub covered : pos item.quantity ≤ℤ product.stock

pub record IsCheckedOut {E : Type 0} (id user : String) (w : World E) (v : OrderView) (w' : World E)
    : Type 0 where
  pub order : Order
  pub found : find order_key id w.tables.orders ≡ some order
  pub owned : order.user_id ≡ user
  pub was_pending : order.status ≡ pending
  pub has_items : items_of w.tables id ≢ []
  pub in_stock : All (InStock w.tables) (items_of w.tables id)
  pub written : w'.tables ≡ record (w.tables) {
    orders = update order_key id (patch_order (with_status waiting_for_payment)) w.tables.orders;
  }
  pub answer : v ≡ view_order w'.tables (record order { status = waiting_for_payment })

module _ {E : Type 0} (o : Oracle E) where
  verify_stock-InStock :
      (tenant : String) (items : List OrderItem) (w : World E) {x : Unit {0}} {w' : World E}
      → verify_stock (documented o) tenant items w ≡ (ok x, w')
      → All (InStock w.tables) items × Untouched w w'
  unfolding verify_stock documented guarded
  verify_stock-InStock tenant [] w h = ground arith
  verify_stock-InStock tenant (i ∷ items) w {w' = w'} h =
      let v : World E = record w { env = o.next w.env } in
      let ih = verify_stock-InStock tenant items v {w' = w'} in
      elim (Option-cases (find product_key i.product_id w.tables.products)) [
        | inl missing ↦ absurd (ground arith)
        | inr (p, e) ↦ (
          ((record { product = p; found = e; covered = ground arith }), ground (arith, ih)),
          ground (arith, ih),
        )
      ]

  verify_stock-IsReading :
      (tenant : String) (items : List OrderItem)
      → IsReading (verify_stock (documented o) tenant items)
  unfolding verify_stock documented
  verify_stock-IsReading tenant [] = search reading
  verify_stock-IsReading tenant (i ∷ items) =
      >>=-IsReading _ _
        (guarded-IsReading tenant _
          (reads-IsReading o (λ t. find product_key i.product_id t.products)))
        λ found.
          >>=-IsReading _ _ (or_throw-IsReading found (no_product i.product_id))
            λ p. >>=-IsReading _ _ (throw_if-IsReading _ _) λ _. verify_stock-IsReading tenant items

  checkout_order-IsAtomic :
      (id user tenant : String) → IsAtomic (checkout_order (documented o) id user tenant)
  unfolding checkout_order documented
  checkout_order-IsAtomic id user tenant =
      search
        (reading, >>=-IsAtomic, guarded-IsAtomic, rewrite_order-IsAtomic, verify_stock-IsReading)
        depth 12

  checkout_order-IsCheckedOut :
      (id user tenant : String) (w : World E) {v : OrderView} {w' : World E}
      → checkout_order (documented o) id user tenant w ≡ (ok v, w')
      → IsCheckedOut id user w v w'
  unfolding checkout_order documented guarded tenant_errors
  checkout_order-IsCheckedOut id user tenant w {v} {w'} h =
      let u : World E = record w { env = o.next w.env } in
      let items = items_of w.tables id in
      let r = verify_stock (documented o) tenant items u in
      let checked = verify_stock-InStock tenant items u {x = tt} {w' = r.1} in
      elim (Option-cases (find order_key id w.tables.orders)) [
        | inl missing ↦ absurd (ground arith)
        | inr (order, e) ↦ record {
          order = order;
          found = e;
          owned = ground (arith, eq_iff order.user_id user);
          was_pending = ground arith;
          has_items = ground arith;
          in_stock = ground (arith, checked);
          written = ground (arith, checked);
          answer = ground (arith, checked);
        }
      ]

  -- A run with no failure of the outside world.
  module _ (reliable : (e : E) → o.fault e ≡ none) where
    verify_stock_passes :
        (tenant : String) (items : List OrderItem) (w : World E)
        → All (InStock w.tables) items
        → (w' : World E) × (verify_stock (documented o) tenant items w ≡ (ok tt, w'))
          × (w'.tables ≡ w.tables)
    unfolding verify_stock documented guarded tenant_errors
    verify_stock_passes tenant [] w h = (w, refl, refl)
    verify_stock_passes tenant (i ∷ items) w (s, h) =
        let (w', run, same) =
          verify_stock_passes tenant items (record w { env = o.next w.env }) h in
        (w', ground (arith, reliable w.env, s.found, s.covered, run), same)

    checkout_order_passes :
        (id user tenant : String) (w : World E) (order : Order)
        → find order_key id w.tables.orders ≡ some order
        → order.user_id ≡ user
        → order.status ≡ pending
        → items_of w.tables id ≢ []
        → All (InStock w.tables) (items_of w.tables id)
        → (v : OrderView) × (w' : World E) × (checkout_order (documented o) id user tenant w
            ≡ (ok v, w'))
    unfolding checkout_order documented guarded tenant_errors
    checkout_order_passes id user tenant w order e owned status some_items stocked =
        let (u, run, same) =
          verify_stock_passes tenant (items_of w.tables id) (record w { env = o.next w.env })
            stocked in
        let t' : Tables = record (w.tables) {
          orders =
              update order_key id (patch_order (with_status waiting_for_payment)) w.tables.orders;
        } in
        (
          view_order t' (record order { status = waiting_for_payment }),
          record u { tables = t'; env = o.next u.env },
          ground (arith, reliable w.env, reliable u.env, eq_iff order.user_id user),
        )

module _ {E : Type 0} (o : Oracle E) (p : Prisma E) (laws : IsPrisma o p) where
  -- A checkout that succeeds found the caller's own pending order with at least one line, and stock
  -- for each line; it moves that order to WAITING_FOR_PAYMENT, changes no other row, and answers with
  -- the order and its lines.
  pub checkout_order_success :
      (id user tenant : String) (w : World E) {v : OrderView} {w' : World E}
      → checkout_order p id user tenant w ≡ (ok v, w')
      → IsCheckedOut id user w v w'
  checkout_order_success id user tenant w h =
      checkout_order-IsCheckedOut o id user tenant w (rw (IsPrisma-eq o p laws) at h)

  -- A checkout that throws has changed no row and queued no message of an order.
  pub checkout_order_failure :
      (id user tenant : String) (w : World E) {e : Exn} {w' : World E}
      → checkout_order p id user tenant w ≡ (err e, w')
      → Untouched w w'
  checkout_order_failure id user tenant w h =
      (checkout_order-IsAtomic o id user tenant).restores w (rw (IsPrisma-eq o p laws) at h)

  -- If the outside world never fails, the caller's own pending order with at least one line, each
  -- covered by the stock, is checked out.
  pub checkout_order_available :
      ((e : E) → o.fault e ≡ none)
      → (id user tenant : String) (w : World E) (order : Order)
      → find order_key id w.tables.orders ≡ some order
      → order.user_id ≡ user
      → order.status ≡ pending
      → items_of w.tables id ≢ []
      → All (InStock w.tables) (items_of w.tables id)
      → (v : OrderView) × (w' : World E) × (checkout_order p id user tenant w ≡ (ok v, w'))
  checkout_order_available reliable id user tenant w order e owned status some_items stocked =
      rw (IsPrisma-eq o p laws)
        (checkout_order_passes o reliable id user tenant w order e owned status some_items stocked)
