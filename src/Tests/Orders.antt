-- ===== src/Tests/Orders.antt =====
-- Checkout and payment at concrete inputs.
use nestjs_order_api.Base.{ℕ, ◌+◌, String, some, [], ◌∷◌, ◌≡◌, refl, arith}
use nestjs_order_api.Base.Keyed.{find, update}
use nestjs_order_api.Http.{Exn, ok, err}
use nestjs_order_api.Schema.{Product, pending, waiting_for_payment, paid, OrderView, Tables}
use nestjs_order_api.Prisma.{World}
use nestjs_order_api.Prisma.Rows.{product_key, items_of, view_order, decrement}
use nestjs_order_api.Prisma.Laws.{documented}
use nestjs_order_api.Services.{guarded}
use nestjs_order_api.Order.Lifecycle.{verify_stock, checkout_order, deduct_stock, payment_received}
use nestjs_order_api.Order.Checkout.{IsCheckedOut, checkout_order_success, checkout_order_available}
use nestjs_order_api.Tests.{steady, breaking, documented-IsPrisma, tea, order_in, tables_in, world}
use nestjs_order_api.Base.{◌-ℤ◌}
use nestjs_order_api.Order.Payment.{IsPaid, payment_received_success, payment_received_retry}
use nestjs_order_api.Order.Payment.Stock.{demanded}

abbrev after_payment : Tables
after_payment = record (tables_in paid) { products = decrement 2 tea ∷ [] }

checkout_order_success_example :
    IsCheckedOut "o1" "ann"
      (world (tables_in pending) 0)
      (view_order (tables_in waiting_for_payment) (order_in waiting_for_payment))
      (world (tables_in waiting_for_payment) 3)
unfolding checkout_order verify_stock guarded documented find update
checkout_order_success_example =
    checkout_order_success steady (documented steady) (documented-IsPrisma steady) "o1" "ann" "shop"
      (world (tables_in pending) 0) refl

checkout_order_available_example :
    (v : OrderView) × (w' : World ℕ) × (checkout_order
        (documented steady)
        "o1"
        "ann"
        "shop"
        (world (tables_in pending) 0)
      ≡ (ok v, w'))
unfolding find
checkout_order_available_example =
    checkout_order_available steady (documented steady) (documented-IsPrisma steady) (λ e. refl)
      "o1" "ann" "shop" (world (tables_in pending) 0) (order_in pending) refl refl refl
      (λ e. ground arith) (record { product = tea; found = refl; covered = ground arith }, tt)

payment_received_success_example :
    IsPaid "o1" "ann"
      (world (tables_in waiting_for_payment) 0)
      (view_order after_payment (order_in paid))
      (world after_payment 3)
unfolding payment_received deduct_stock guarded documented find update ◌-ℤ◌
payment_received_success_example =
    payment_received_success steady (documented steady) (documented-IsPrisma steady) "o1" "ann"
      "shop" (world (tables_in waiting_for_payment) 0) refl

abbrev half_paid : Tables
half_paid = record (tables_in waiting_for_payment) { products = decrement 2 tea ∷ [] }

payment_received_retry_example :
    let pay = payment_received (documented breaking) "o1" "ann" "shop" in
    let w = world (tables_in waiting_for_payment) 0 in
    (e : Exn) × (w1 : World ℕ) × (pay w ≡ (err e, w1))
    × ((v : OrderView) (w2 : World ℕ)
        → pay w1 ≡ (ok v, w2)
        → (product : String) (r : Product) → find product_key product w.tables.products ≡ some r
        → find product_key product w2.tables.products
          ≡ some (
              decrement
                (demanded product (items_of w.tables "o1")
                  + demanded product (items_of w.tables "o1"))
                r))
unfolding deduct_stock guarded documented find update ◌-ℤ◌
payment_received_retry_example =
    payment_received_retry breaking (documented breaking) (documented-IsPrisma breaking) "o1" "ann"
      "shop" "down" (world (tables_in waiting_for_payment) 0) (world half_paid 2)
      (order_in waiting_for_payment) refl refl refl refl refl refl
