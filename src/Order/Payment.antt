-- ===== src/Order/Payment.antt =====
-- `paymentReceived` (order/order.service.ts): what a payment does to the stock, and what it leaves
-- behind when it throws.
pub mod Stock
use nestjs_order_api.Base.{
  ℕ, ◌+◌, String, none, some, List, [], ◌∷◌, ◌-ℤ◌, ◌≡◌, refl, ap, inl, inr, arith, eq_iff,
  Option-cases, Bool-cases, ◌∙◌, if◌then◌else◌, ◌===◌,
}
use nestjs_order_api.Base.Keyed.{find, update, find-update}
use nestjs_order_api.Http.{Exn, ok, err, failure}
use nestjs_order_api.Schema.{Product, Order, OrderItem, OrderView, waiting_for_payment, paid}
use nestjs_order_api.Prisma.{World, Prisma}
use nestjs_order_api.Prisma.Rows.{
  order_key, product_key, items_of, view_order, patch_order, with_status, decrement,
}
use nestjs_order_api.Prisma.Effects.{Oracle}
use nestjs_order_api.Prisma.Laws.{IsPrisma, IsPrisma-eq, documented}
use nestjs_order_api.Services.{guarded, tenant_errors}
use nestjs_order_api.Services.Laws.{tenant_errors-eq}
use nestjs_order_api.Order.Lifecycle.{deduct_stock, payment_received}
use nestjs_order_api.Order.Payment.Stock.{
  demanded, deducted, decrement-decrement, find-deducted, deduct_stock-deducted,
  deduct_stock_others,
}

-- What a payment that succeeds has found and done.
pub record IsPaid {E : Type 0} (id user : String) (w : World E) (v : OrderView) (w' : World E)
    : Type 0 where
  pub order : Order
  pub found : find order_key id w.tables.orders ≡ some order
  pub owned : order.user_id ≡ user
  pub was_waiting : order.status ≡ waiting_for_payment
  pub marked :
      w'.tables.orders ≡ update order_key id (patch_order (with_status paid)) w.tables.orders
  pub deducts :
      (product : String) (r : Product)
      → find product_key product w.tables.products ≡ some r
      → find product_key product w'.tables.products
        ≡ some (decrement (demanded product (items_of w.tables id)) r)
  pub same_items : w'.tables.items ≡ w.tables.items
  pub answer : v ≡ view_order w'.tables (record order { status = paid })

module _ {E : Type 0} (o : Oracle E) where
  payment_received-IsPaid :
      (id user tenant : String) (w : World E) {v : OrderView} {w' : World E}
      → payment_received (documented o) id user tenant w ≡ (ok v, w')
      → IsPaid id user w v w'
  unfolding payment_received documented guarded tenant_errors
  payment_received-IsPaid id user tenant w {v} {w'} h =
      let items = items_of w.tables id in
      let u : World E = record w { env = o.next w.env } in
      let r = deduct_stock (documented o) tenant items u in
      let done = deduct_stock-deducted o tenant items u {x = tt} {w' = r.1} in
      elim (Option-cases (find order_key id w.tables.orders)) [
        | inl missing ↦ absurd (ground arith)
        | inr (order, e) ↦
            let products : w'.tables.products ≡ deducted items w.tables.products =
              ground (arith, done) in
            record {
              order = order;
              found = e;
              owned = ground (arith, eq_iff order.user_id user);
              was_waiting = ground arith;
              marked = ground (arith, done);
              deducts =
                  λ product q f. rw products (find-deducted product items w.tables.products q f);
              same_items = ground (arith, done);
              answer = ground (arith, done);
            }
      ]

  payment_received_failed :
      (id user tenant : String) (w : World E) {e : Exn} {w' : World E}
      → payment_received (documented o) id user tenant w ≡ (err e, w')
      → (w'.tables.orders ≡ w.tables.orders)
        × (w'.tables.items ≡ w.tables.items)
        × (w'.processing ≡ w.processing)
        × (w'.completed ≡ w.completed)
  unfolding payment_received documented guarded tenant_errors
  payment_received_failed id user tenant w {e} {w'} h =
      let u : World E = record w { env = o.next w.env } in
      ground (arith, deduct_stock_others o tenant (items_of w.tables id) u)

  payment_received_half :
      (id user tenant m : String) (w u' : World E) (order : Order)
      → find order_key id w.tables.orders ≡ some order
      → order.user_id ≡ user
      → order.status ≡ waiting_for_payment
      → o.fault w.env ≡ none
      → deduct_stock (documented o) tenant (items_of w.tables id) (record w { env = o.next w.env })
        ≡ (ok tt, u')
      → o.fault u'.env ≡ some m
      → (e : Exn) × (w' : World E) × (payment_received (documented o) id user tenant w
          ≡ (err e, w'))
        × (w'.tables
            ≡ record (w.tables) { products = deducted (items_of w.tables id) w.tables.products })
  unfolding payment_received documented guarded
  payment_received_half id user tenant m w u' order e owned status up run down =
      let done =
        deduct_stock-deducted o tenant (items_of w.tables id) (record w { env = o.next w.env })
          {x = tt} {w' = u'} run in
      let v : World E = record u' { env = o.next u'.env } in
      let (x, thrown) = tenant_errors-eq {A = OrderView} tenant (failure m) v in
      (x, v, ground (arith, eq_iff order.user_id user), ground (arith, done))

module _ {E : Type 0} (o : Oracle E) (p : Prisma E) (laws : IsPrisma o p) where
  -- A payment that succeeds found the caller's own order waiting for payment. It takes from the stock
  -- of every product the quantity of that product over the order's lines, marks the order PAID,
  -- leaves the lines alone, and answers with the order and its lines.
  pub payment_received_success :
      (id user tenant : String) (w : World E) {v : OrderView} {w' : World E}
      → payment_received p id user tenant w ≡ (ok v, w')
      → IsPaid id user w v w'
  payment_received_success id user tenant w h =
      payment_received-IsPaid o id user tenant w (rw (IsPrisma-eq o p laws) at h)

  -- A payment that throws, at whichever step, has changed no order and no line, and queued no message of an
  -- order.
  pub payment_received_failure :
      (id user tenant : String) (w : World E) {e : Exn} {w' : World E}
      → payment_received p id user tenant w ≡ (err e, w')
      → (w'.tables.orders ≡ w.tables.orders)
        × (w'.tables.items ≡ w.tables.items)
        × (w'.processing ≡ w.processing)
        × (w'.completed ≡ w.completed)
  payment_received_failure id user tenant w h =
      payment_received_failed o id user tenant w (rw (IsPrisma-eq o p laws) at h)

  -- The deductions are not undone: if the stock of the caller's waiting order has been deducted and
  -- then the update of the status fails, the call throws, and a second call that succeeds takes the
  -- quantities from the stock once more.
  pub payment_received_retry :
      (id user tenant m : String) (w u' : World E) (order : Order)
      → find order_key id w.tables.orders ≡ some order
      → order.user_id ≡ user
      → order.status ≡ waiting_for_payment
      → o.fault w.env ≡ none
      → deduct_stock p tenant (items_of w.tables id) (record w { env = o.next w.env }) ≡ (ok tt, u')
      → o.fault u'.env ≡ some m
      → (e : Exn) × (w1 : World E) × (payment_received p id user tenant w ≡ (err e, w1))
        × ((v : OrderView) (w2 : World E)
            → payment_received p id user tenant w1 ≡ (ok v, w2)
            → (product : String) (r : Product) → find product_key product w.tables.products ≡ some r
            → find product_key product w2.tables.products
              ≡ some (
                  decrement
                    (demanded product (items_of w.tables id)
                      + demanded product (items_of w.tables id))
                    r))
  payment_received_retry id user tenant m w u' order e owned status up run down =
      let (x, w1, thrown, left) =
        payment_received_half o id user tenant m w u' order e owned status up
          (rw (IsPrisma-eq o p laws) at run) down in
      (
        x,
        w1,
        rw (IsPrisma-eq o p laws) thrown,
        λ v w2 again product r f.
            let same : items_of w1.tables id ≡ items_of w.tables id =
              ap (λ t. items_of t id) left in
            let d = demanded product (items_of w.tables id) in
            let once : find product_key product w1.tables.products ≡ some (decrement d r) =
              rw left (find-deducted product (items_of w.tables id) w.tables.products r f) in
            let twice =
              (payment_received_success id user tenant w1 again).deducts product (decrement d r)
                once in
            twice
            ∙ ap (λ l. some (decrement (demanded product l) (decrement d r))) same
            ∙ ap some (decrement-decrement d d r),
      )
