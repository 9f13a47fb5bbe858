-- ===== src/Order/Fulfilment.antt =====
-- About an order from its message to its completion, where the outside world does not fail.
use nestjs_order_api.Base.{
  ℕ, true, String, none, some, List, [], ◌∷◌, All, ◌≡◌, ◌≢◌, refl, ap, ◌∙◌, arith, eq_iff, eq_refl,
}
use nestjs_order_api.Base.Keyed.{find, update, find-update}
use nestjs_order_api.Http.{ok}
use nestjs_order_api.Schema.{
  Product, Order, OrderItem, OrderView, waiting_for_payment, paid, complete,
}
use nestjs_order_api.Prisma.{World, Prisma, Processing, Completed}
use nestjs_order_api.Prisma.Rows.{
  order_key, product_key, items_of, view_order, patch_order, with_status, decrement,
}
use nestjs_order_api.Prisma.Effects.{Oracle}
use nestjs_order_api.Prisma.Laws.{IsPrisma, IsPrisma-eq, documented}
use nestjs_order_api.Services.{guarded, tenant_errors}
use nestjs_order_api.Rabbit.{Broker}
use nestjs_order_api.Rabbit.Laws.{IsBroker}
use nestjs_order_api.Rabbit.Waiting.{IsOpenable}
use nestjs_order_api.Order.Lifecycle.{deduct_stock, payment_received, enqueue_order_completed}
use nestjs_order_api.Order.Payment.Stock.{demanded, deducted, find-deducted, deduct_stock-deducted}
use nestjs_order_api.Consumer.{deliver_processing, deliver_completed}
use nestjs_order_api.Consumer.Delivery.{
  processed, enqueue_order_completed_available, deliver_completes,
}

-- The product of each line is there.
abbrev pub IsStocked : List Product → List OrderItem → Type 0
IsStocked products items = All (λ i. find product_key i.product_id products ≢ none) items

module _ {E : Type 0} (o : Oracle E) (reliable : (e : E) → o.fault e ≡ none) where
  IsStocked-update :
      (id : String) (n : ℕ) (products : List Product) (items : List OrderItem)
      → IsStocked products items
      → IsStocked (update product_key id (decrement n) products) items
  IsStocked-update id n products [] h = tt
  IsStocked-update id n products (i ∷ items) (h, hs) = (
    ground (arith, find-update product_key i.product_id id (decrement n) (λ q. refl) products),
    IsStocked-update id n products items hs,
  )

  deduct_stock_available :
      (tenant : String) (items : List OrderItem) (w : World E)
      → IsStocked w.tables.products items
      → (w' : World E) × (deduct_stock (documented o) tenant items w ≡ (ok tt, w'))
        × (w'.rabbit ≡ w.rabbit)
  unfolding deduct_stock documented guarded tenant_errors
  deduct_stock_available tenant [] w h = (w, refl, refl)
  deduct_stock_available tenant (i ∷ items) w (h, hs) =
      let v : World E = record w {
        tables = record (w.tables) {
          products = update product_key i.product_id (decrement i.quantity) w.tables.products;
        };
        env = o.next w.env;
      } in
      let (w', run, same) =
        deduct_stock_available tenant items v
          (IsStocked-update i.product_id i.quantity w.tables.products items hs) in
      (w', ground (arith, run, reliable w.env), ground (arith, same))

  payment_received_available :
      (id user tenant : String) (w : World E) (order : Order)
      → find order_key id w.tables.orders ≡ some order
      → order.user_id ≡ user
      → order.status ≡ waiting_for_payment
      → IsStocked w.tables.products (items_of w.tables id)
      → (v : OrderView) × (w' : World E) × (payment_received (documented o) id user tenant w
          ≡ (ok v, w'))
        × (w'.tables ≡ record (w.tables) {
          orders = update order_key id (patch_order (with_status paid)) w.tables.orders;
          products = deducted (items_of w.tables id) w.tables.products;
        })
        × (w'.completed ≡ w.completed)
        × (w'.rabbit ≡ w.rabbit)
  unfolding payment_received documented guarded tenant_errors
  payment_received_available id user tenant w order e owned waiting stocked =
      let items = items_of w.tables id in
      let u : World E = record w { env = o.next w.env } in
      let (u', run, same) = deduct_stock_available tenant items u stocked in
      let (tables, processing, completed) =
        deduct_stock-deducted o tenant items u {x = tt} {w' = u'} run in
      let t = record (w.tables) {
        orders = update order_key id (patch_order (with_status paid)) w.tables.orders;
        products = deducted items w.tables.products;
      } in
      let row =
        find-update order_key id id (patch_order (with_status paid)) (λ r. refl) w.tables.orders in
      let w' : World E = record u' { tables = t; env = o.next u'.env } in
      (
        view_order t (record order { status = paid }),
        w',
        ground (arith, run, tables, reliable w.env, reliable u'.env, eq_iff order.user_id user),
        refl,
        ground (arith, completed),
        ground (arith, same),
      )

  -- The delivery of the one message of order-processing.
  deliver_processes :
      (payment : String) (m : Processing) (w : World E) (order : Order)
      → find order_key m.order_id w.tables.orders ≡ some order
      → w.processing ≡ m ∷ []
      → let w' = deliver_processing (documented o) payment w in
        (w'.tables ≡ record (w.tables) {
          orders = update order_key m.order_id (patch_order (processed payment)) w.tables.orders;
        })
        × (w'.processing ≡ [])
        × (w'.completed ≡ w.completed)
        × (w'.rabbit ≡ w.rabbit)
  unfolding deliver_processing documented
  deliver_processes payment m w order e queue = ground (arith, reliable w.env)

-- The order as its payment and its completion leave it.
abbrev pub fulfilled : String → String → Order → Order
fulfilled payment transaction order = record order {
  status = complete;
  payment_id = some payment;
  transaction_id = some transaction;
}

module _ {E : Type 0} (o : Oracle E) (p : Prisma E) (laws : IsPrisma o p) (b : Broker E)
    (broker_laws : IsBroker o b) where
  paid_after_delivery :
      (reliable : (e : E) → o.fault e ≡ none) (payment : String) (m : Processing) (w : World E)
      (order : Order)
      → find order_key m.order_id w.tables.orders ≡ some order
      → order.user_id ≡ m.user_id
      → w.processing ≡ m ∷ []
      → IsStocked w.tables.products (items_of w.tables m.order_id)
      → let w1 = deliver_processing (documented o) payment w in
        (v : OrderView) × (w2 : World E) × (payment_received
            (documented o)
            m.order_id
            m.user_id
            m.tenant_code
            w1
          ≡ (ok v, w2))
        × (find order_key m.order_id w2.tables.orders
            ≡ some (record order { status = paid; payment_id = some payment }))
        × (w2.tables.products ≡ deducted (items_of w.tables m.order_id) w.tables.products)
        × (w2.completed ≡ w.completed)
        × (w2.rabbit ≡ w.rabbit)
  paid_after_delivery reliable payment m w order e owned queue stocked =
      let w1 = deliver_processing (documented o) payment w in
      let (tables, empty, completed, rabbit) =
        deliver_processes o reliable payment m w order e queue in
      let id = m.order_id in
      let waiting : Order = record order {
        status = waiting_for_payment;
        payment_id = some payment;
      } in
      let row =
        find-update order_key id id (patch_order (processed payment)) (λ r. refl) w.tables.orders in
      let there : find order_key id w1.tables.orders ≡ some waiting =
        ap (λ t. find order_key id t.orders) tables ∙ ground (arith, eq_refl id) in
      let items : items_of w1.tables id ≡ items_of w.tables id = ap (λ t. items_of t id) tables in
      let products : w1.tables.products ≡ w.tables.products = ap (λ t. t.products) tables in
      let (v, w2, run, after, completed2, rabbit2) =
        payment_received_available o reliable id m.user_id m.tenant_code w1 waiting there owned refl
          (rw (products, items) stocked) in
      let row2 =
        find-update order_key id id (patch_order (with_status paid)) (λ r. refl) w1.tables.orders in
      (
        v,
        w2,
        run,
        ap (λ t. find order_key id t.orders) after ∙ ground (arith, eq_refl id),
        ap (λ t. t.products) after ∙ rw (products, items) refl,
        completed2 ∙ completed,
        rabbit2 ∙ rabbit,
      )

  -- If the outside world never fails: for an order that is there, whose message is the only one in
  -- order-processing, whose lines' products are there, with no request for completion queued and the
  -- messaging service with a channel or no connection yet: after the delivery of the message its
  -- owner's payment succeeds, then their request for completion is queued, and after its delivery the
  -- order is COMPLETE under the payment and the transaction with owner and total as they were, and
  -- the stock of each product is less by the quantity of that product over the order's lines.
  pub fulfilment :
      ((e : E) → o.fault e ≡ none)
      → (payment transaction : String) (m : Processing) (w : World E) (order : Order)
      → find order_key m.order_id w.tables.orders ≡ some order
      → order.user_id ≡ m.user_id
      → w.processing ≡ m ∷ []
      → w.completed ≡ []
      → IsOpenable w
      → IsStocked w.tables.products (items_of w.tables m.order_id)
      → (v : OrderView) × (w2 : World E) × (w3 : World E) × (payment_received p m.order_id m.user_id
            m.tenant_code
            (deliver_processing p payment w)
          ≡ (ok v, w2))
        × (enqueue_order_completed p b m.order_id m.user_id m.tenant_code transaction w2
            ≡ (ok true, w3))
        × (find order_key m.order_id (deliver_completed p w3).tables.orders
            ≡ some (fulfilled payment transaction order))
        × ((product : String) (r : Product)
            → find product_key product w.tables.products ≡ some r
            → find product_key product (deliver_completed p w3).tables.products
              ≡ some (decrement (demanded product (items_of w.tables m.order_id)) r))
  fulfilment reliable payment transaction m w order e owned queue none_queued openable stocked =
      let (v, w2, run, there, products, completed, rabbit) =
        paid_after_delivery reliable payment m w order e owned queue stocked in
      let c : Completed = record {
        order_id = m.order_id;
        user_id = m.user_id;
        tenant_code = m.tenant_code;
        transaction_id = transaction;
      } in
      let paid_order : Order = record order { status = paid; payment_id = some payment } in
      let (w3, asked, posted) =
        enqueue_order_completed_available o b broker_laws reliable c w2 paid_order there owned
          (rw rabbit openable) in
      let (done, empty, same) =
        deliver_completes o reliable c w3 paid_order
          (ap (λ t. find order_key m.order_id t.orders) posted.0 ∙ there)
          (ground (arith, posted.2)) in
      (
        v,
        w2,
        w3,
        rw (IsPrisma-eq o p laws) run,
        rw (IsPrisma-eq o p laws) asked,
        rw (IsPrisma-eq o p laws) done,
        λ product r f. rw (IsPrisma-eq o p laws) (
            ap (find product_key product) (same ∙ ap (λ t. t.products) posted.0 ∙ products)
            ∙ find-deducted product (items_of w.tables m.order_id) w.tables.products r f),
      )
