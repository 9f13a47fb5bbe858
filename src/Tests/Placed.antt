-- ===== src/Tests/Placed.antt =====
-- Orders that are filled and placed, at concrete inputs.
use nestjs_order_api.Base.{ℕ, none, [], ◌∷◌, ◌≡◌, refl}
use nestjs_order_api.Base.Keyed.{find, update}
use nestjs_order_api.Schema.{pending, Order, Tables}
use nestjs_order_api.Prisma.{Processing}
use nestjs_order_api.Prisma.Rows.{view_order}
use nestjs_order_api.Prisma.Laws.{documented}
use nestjs_order_api.Services.{guarded}
use nestjs_order_api.Order.Cart.{
  AddItemDto, order_total, create_order, recalculate_order_total, put_line, write_line,
  add_item_to_order, find_one,
}
use nestjs_order_api.Order.Lifecycle.{enqueue_order_processing}
use nestjs_order_api.Tests.{steady, documented-IsPrisma, tea, order_in, line, tables_in, world}
use nestjs_order_api.Rabbit.{publish_order_processing_message}
use nestjs_order_api.Rabbit.Laws.{documented_broker, documented-IsBroker}
use nestjs_order_api.Order.Adding.{IsAdded, add_item_to_order_success, add_item_to_order_failure}
use nestjs_order_api.Order.Controller.{add_items, create}
use nestjs_order_api.Order.Placing.{IsPlaced, create_success}

abbrev cup : ℕ → AddItemDto
cup quantity = record { product_id = "tea"; quantity = quantity }

abbrev with_three : Tables
with_three = record (tables_in pending) {
  orders = record (order_in pending) { total = 750 } ∷ [];
  items = line 3 ∷ [];
}

add_item_to_order_success_example :
    IsAdded "o1" "ann" "new" (cup 1) (world (tables_in pending) 0) (world with_three 6)
unfolding add_item_to_order write_line put_line recalculate_order_total order_total guarded
    documented find update
add_item_to_order_success_example =
    add_item_to_order_success steady (documented steady) (documented-IsPrisma steady) "o1" "ann"
      "shop" (cup 1) (world (tables_in pending) 0) refl

add_item_to_order_failure_example :
    let w = world (tables_in pending) 0 in
    let w' = world (tables_in pending) 1 in
    (w'.tables.orders ≡ w.tables.orders)
    × (w'.tables.products ≡ w.tables.products)
    × (w'.processing ≡ w.processing)
    × (w'.completed ≡ w.completed)
unfolding add_item_to_order guarded documented find update
add_item_to_order_failure_example =
    add_item_to_order_failure steady (documented steady) (documented-IsPrisma steady) "o1" "bob"
      "shop" (cup 1) (world (tables_in pending) 0) refl

abbrev stocked : Tables
stocked = record { products = tea ∷ []; orders = []; items = [] }

abbrev placed_order : Order
placed_order = record {
  id = "new";
  user_id = "ann";
  status = pending;
  total = 500;
  payment_id = none;
  transaction_id = none;
  created_at = 0;
}

abbrev placed : Tables
placed = record {
  products = tea ∷ [];
  orders = placed_order ∷ [];
  items =
      record { id = "new"; order_id = "new"; product_id = "tea"; quantity = 2; price = 250 } ∷ [];
}

abbrev notice : Processing
notice = record { order_id = "new"; user_id = "ann"; tenant_code = "shop" }

create_success_example :
    IsPlaced "ann" "shop"
      (world stocked 0)
      (view_order placed placed_order)
      (record (world placed 10) { processing = notice ∷ [] })
unfolding create add_items create_order add_item_to_order write_line put_line
    recalculate_order_total order_total enqueue_order_processing publish_order_processing_message
    find_one guarded documented documented_broker find update
create_success_example =
    create_success steady (documented steady) (documented_broker steady)
      (documented-IsPrisma steady) (documented-IsBroker steady) "ann" "shop" (cup 2 ∷ [])
      (world stocked 0) refl refl
