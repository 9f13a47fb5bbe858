-- ===== src/Order/Payment/Stock.antt =====
-- The loop of `paymentReceived` (order/order.service.ts) over the lines of an order, and the stock after it.
use nestjs_order_api.Base.{
  ℕ, ◌+◌, String, some, List, [], ◌∷◌, ◌-ℤ◌, ◌≡◌, refl, ap, inl, inr, arith, Bool-cases, ◌∙◌,
  if◌then◌else◌, ◌===◌,
}
use nestjs_order_api.Base.Keyed.{find, update, find-update}
use nestjs_order_api.Http.{ok}
use nestjs_order_api.Schema.{Product, OrderItem}
use nestjs_order_api.Prisma.{World}
use nestjs_order_api.Prisma.Rows.{product_key, decrement}
use nestjs_order_api.Prisma.Effects.{Oracle}
use nestjs_order_api.Prisma.Laws.{documented}
use nestjs_order_api.Services.{guarded, tenant_errors}
use nestjs_order_api.Order.Lifecycle.{deduct_stock}

-- The quantity of one product over the lines of an order.
abbrev pub demanded : String → List OrderItem → ℕ
demanded product [] = 0
demanded product (i ∷ items) =
    (if i.product_id === product then i.quantity else 0) + demanded product items

-- The products after the lines have been taken from the stock, one by one.
abbrev pub deducted : List OrderItem → List Product → List Product
deducted [] products = products
deducted (i ∷ items) products =
    deducted items (update product_key i.product_id (decrement i.quantity) products)

decrement-zero : (p : Product) → decrement 0 p ≡ p
unfolding ◌-ℤ◌
decrement-zero p = ground arith

pub decrement-decrement :
    (m n : ℕ) (p : Product) → decrement n (decrement m p) ≡ decrement (m + n) p
unfolding ◌-ℤ◌
decrement-decrement m n p = ground arith

pub find-deducted :
    (product : String) (items : List OrderItem) (products : List Product) (r : Product)
    → find product_key product products ≡ some r
    → find product_key product (deducted items products)
      ≡ some (decrement (demanded product items) r)
find-deducted product [] products r e = rw (decrement-zero r) e
find-deducted product (i ∷ items) products r e = elim (Bool-cases (i.product_id === product)) [
  | inl same ↦
      let here : find product_key product
            (update product_key i.product_id (decrement i.quantity) products)
          ≡ some (decrement i.quantity r) =
        ground (
          arith,
          find-update product_key product i.product_id (decrement i.quantity) (λ q. refl) products,
        ) in
      rw same (
        find-deducted product items _ (decrement i.quantity r) here
        ∙ ap some (decrement-decrement i.quantity (demanded product items) r))
  | inr other ↦
      let there : find product_key product
            (update product_key i.product_id (decrement i.quantity) products)
          ≡ some r =
        ground (
          arith,
          find-update product_key product i.product_id (decrement i.quantity) (λ q. refl) products,
        ) in
      rw other
        (find-deducted product items _ r there ∙ ap (λ n. some (decrement n r)) (omega arith))
]

module _ {E : Type 0} (o : Oracle E) where
  pub deduct_stock-deducted :
      (tenant : String) (items : List OrderItem) (w : World E) {x : Unit {0}} {w' : World E}
      → deduct_stock (documented o) tenant items w ≡ (ok x, w')
      → (w'.tables ≡ record (w.tables) { products = deducted items w.tables.products })
        × (w'.processing ≡ w.processing)
        × (w'.completed ≡ w.completed)
  unfolding deduct_stock documented guarded tenant_errors
  deduct_stock-deducted tenant [] w h = ground arith
  deduct_stock-deducted tenant (i ∷ items) w {x} {w'} h =
      let v : World E = record w {
        tables = record (w.tables) {
          products = update product_key i.product_id (decrement i.quantity) w.tables.products;
        };
        env = o.next w.env;
      } in
      ground (arith, deduct_stock-deducted tenant items v {x = x} {w' = w'})

  -- However the loop ends, it has touched products only.
  pub deduct_stock_others :
      (tenant : String) (items : List OrderItem) (w : World E)
      → let w' = (deduct_stock (documented o) tenant items w).1 in
        (w'.tables.orders ≡ w.tables.orders)
        × (w'.tables.items ≡ w.tables.items)
        × (w'.processing ≡ w.processing)
        × (w'.completed ≡ w.completed)
  unfolding deduct_stock documented guarded tenant_errors
  deduct_stock_others tenant [] w = ground arith
  deduct_stock_others tenant (i ∷ items) w =
      let v : World E = record w {
        tables = record (w.tables) {
          products = update product_key i.product_id (decrement i.quantity) w.tables.products;
        };
        env = o.next w.env;
      } in
      ground (arith, deduct_stock_others tenant items v)
