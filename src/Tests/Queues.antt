-- ===== src/Tests/Queues.antt =====
-- Deliveries at concrete inputs.
use nestjs_order_api.Base.{ℕ, some, [], ◌∷◌, ◌≡◌, refl}
use nestjs_order_api.Base.Keyed.{find}
use nestjs_order_api.Schema.{pending, paid, complete}
use nestjs_order_api.Prisma.{World, Processing, Completed}
use nestjs_order_api.Prisma.Rows.{order_key}
use nestjs_order_api.Prisma.Laws.{documented}
use nestjs_order_api.Tests.{steady, breaking, documented-IsPrisma, order_in, tables_in, world}
use nestjs_order_api.Base.{true, false, inl, inr}
use nestjs_order_api.Http.{Exn, ok, err}
use nestjs_order_api.Rabbit.{to_completed, on_module_init}
use nestjs_order_api.Rabbit.Laws.{documented_broker, documented-IsBroker}
use nestjs_order_api.Rabbit.Publishing.{publish}
use nestjs_order_api.Prisma.Rows.{product_key, items_of, decrement}
use nestjs_order_api.Schema.{OrderView, Product}
use nestjs_order_api.Base.{String, arith}
use nestjs_order_api.Order.Payment.Stock.{demanded}
use nestjs_order_api.Order.Fulfilment.{fulfilled, fulfilment}
use nestjs_order_api.Order.Lifecycle.{payment_received, enqueue_order_completed}
use nestjs_order_api.Consumer.{deliver_processing, deliver_completed}
use nestjs_order_api.Rabbit.Waiting.{IsQuiet}
use nestjs_order_api.Consumer.Start.{
  of_processing, of_completed, start_consumer, consumer_starts, half_open_never_starts,
}
use nestjs_order_api.Consumer.Delivery.{
  Delivered, Processed, deliver_completed_once, deliver_processing_once, complete_from_any_status,
}

abbrev request : Completed
request = record { order_id = "o1"; user_id = "ann"; tenant_code = "shop"; transaction_id = "t1" }

abbrev requested : World ℕ
requested = record (world (tables_in paid) 0) { completed = request ∷ [] }

deliver_completed_once_example :
    Delivered steady requested (deliver_completed (documented steady) requested) request []
deliver_completed_once_example =
    deliver_completed_once steady (documented steady) (documented-IsPrisma steady) requested request
      [] refl

abbrev notice : Processing
notice = record { order_id = "o1"; user_id = "ann"; tenant_code = "shop" }

abbrev noticed : World ℕ
noticed = record (world (tables_in pending) 0) { processing = notice ∷ [] }

deliver_processing_once_example :
    Processed steady noticed
      (deliver_processing (documented steady) "pay1" noticed)
      notice
      "pay1"
      []
deliver_processing_once_example =
    deliver_processing_once steady (documented steady) (documented-IsPrisma steady) "pay1" noticed
      notice [] refl

complete_from_any_status_example :
    (w1 : World ℕ) × (enqueue_order_completed
        (documented steady)
        (documented_broker steady)
        "o1"
        "ann"
        "shop"
        "t1"
        (world (tables_in pending) 0)
      ≡ (ok true, w1))
    × (find order_key "o1" (deliver_completed (documented steady) w1).tables.orders
        ≡ some (record (order_in pending) { status = complete; transaction_id = some "t1" }))
    × ((deliver_completed (documented steady) w1).completed ≡ [])
unfolding find
complete_from_any_status_example =
    complete_from_any_status steady (documented steady) (documented-IsPrisma steady)
      (documented_broker steady) (documented-IsBroker steady) (λ e. refl) request
      (world (tables_in pending) 0) (order_in pending) refl refl (inl refl) refl

-- A service that has just been started, and a world in which it gets no channel at first.
abbrev started : World ℕ
started = record (world (tables_in pending) 1) {
  rabbit = record { connection = false; channel = false };
}

consumer_starts_example :
    (w' : World ℕ) × (start_consumer (documented_broker steady) 1 of_processing started
      ≡ (ok true, w'))
    × IsQuiet started w'
consumer_starts_example =
    consumer_starts steady (documented_broker steady) (documented-IsBroker steady) (λ e. refl) 0
      of_processing started (inr refl)

half_open_never_starts_example :
    let v = (on_module_init (documented_broker breaking) started).1 in
    ((v' : World ℕ) × (start_consumer (documented_broker breaking) 3 of_completed v
        ≡ (ok false, v'))
      × (v'.rabbit ≡ v.rabbit))
    × ((e : Exn) × (v' : World ℕ) × (publish (documented_broker breaking) (to_completed request) v
          ≡ (err e, v'))
        × (v'.rabbit ≡ v.rabbit))
half_open_never_starts_example =
    half_open_never_starts breaking (documented_broker breaking) (documented-IsBroker breaking)
      "down" started (on_module_init (documented_broker breaking) started).1 refl refl refl refl 3
      of_completed (to_completed request)

-- Two teas of five are paid for.
fulfilment_example :
    (v : OrderView) × (w2 : World ℕ) × (w3 : World ℕ) × (payment_received
        (documented steady)
        "o1"
        "ann"
        "shop"
        (deliver_processing (documented steady) "pay1" noticed)
      ≡ (ok v, w2))
    × (enqueue_order_completed
          (documented steady)
          (documented_broker steady)
          "o1"
          "ann"
          "shop"
          "t1"
          w2
        ≡ (ok true, w3))
    × (find order_key "o1" (deliver_completed (documented steady) w3).tables.orders
        ≡ some (fulfilled "pay1" "t1" (order_in pending)))
    × ((product : String) (r : Product)
        → find product_key product (tables_in pending).products ≡ some r
        → find product_key product (deliver_completed (documented steady) w3).tables.products
          ≡ some (decrement (demanded product (items_of (tables_in pending) "o1")) r))
unfolding find
fulfilment_example =
    fulfilment steady (documented steady) (documented-IsPrisma steady) (documented_broker steady)
      (documented-IsBroker steady) (λ e. refl) "pay1" "t1" notice noticed (order_in pending) refl
      refl refl refl (inl refl) (ground arith, tt)
