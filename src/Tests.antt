-- ===== src/Tests.antt =====
-- Sample data for the theorems at concrete inputs: a tenant with one product and one order of one line.
-- The outside world counts its calls; ids and times are made of those numbers.
mod Orders
mod Placed
mod Queues
mod Pages
mod Shop
mod Access
mod Databases
mod Caching
mod Runs
mod Tenants
mod Users
use nestjs_order_api.Base.{
  ℕ, suc, ◌+◌, ◌-◌, ◌*◌, ◌≤◌, ◌<◌, min, String, true, false, Option, none, some, List, [], ◌∷◌,
  ◌++◌, length, take, drop, pos, ◌==◌, if◌then◌else◌, ◌≡◌, refl, inl, inr, arith,
}
use nestjs_order_api.Base.Keyed.{find, update}
use nestjs_order_api.Http.{Exn, Result, ok, err, forbidden}
use nestjs_order_api.Schema.{
  Product, OrderStatus, pending, waiting_for_payment, paid, complete, Order, OrderItem, OrderView,
  Tables,
}
use nestjs_order_api.Prisma.{World, Prisma, Processing, Completed}
use nestjs_order_api.Prisma.Rows.{order_key, product_key, items_of, view_order, decrement}
use nestjs_order_api.Prisma.Effects.{Oracle}
use nestjs_order_api.Prisma.Inversion.{Untouched}
use nestjs_order_api.Prisma.Laws.{IsPrisma, documented}
use nestjs_order_api.Services.{guarded, tenant_errors}
use nestjs_order_api.Order.Cart.{
  AddItemDto, order_total, create_order, recalculate_order_total, put_line, write_line,
  add_item_to_order, find_one,
}
use nestjs_order_api.Order.Lifecycle.{
  verify_stock, checkout_order, deduct_stock, payment_received, enqueue_order_processing,
}
use nestjs_order_api.Order.Checkout.{
  IsCheckedOut, checkout_order_success, checkout_order_failure, checkout_order_available,
}

-- Two outside worlds: one that never fails, and one that fails at its third call.
abbrev pub steady : Oracle ℕ
steady = record {
  fault = λ e. none;
  next = suc;
  fresh_id = λ e. "new";
  now = λ e. e;
  flushed = λ e. true;
  rank = λ e id. 0;
}

abbrev pub breaking : Oracle ℕ
breaking = record {
  fault = λ e. if e == 2 then some "down" else none;
  next = suc;
  fresh_id = λ e. "new";
  now = λ e. e;
  flushed = λ e. true;
  rank = λ e id. 0;
}

pub documented-IsPrisma : (o : Oracle ℕ) → IsPrisma o (documented o)
unfolding documented
documented-IsPrisma o = record {
  order_create_lem = λ d w. refl;
  order_find_unique_lem = λ id w. refl;
  order_find_unique_items_lem = λ id w. refl;
  order_find_first_lem = λ id user w. refl;
  order_find_many_lem = λ user w. refl;
  order_update_lem = λ id d w. refl;
  order_update_view_lem = λ id d w. refl;
  item_find_first_lem = λ order product w. refl;
  item_find_many_lem = λ order w. refl;
  item_create_lem = λ d w. refl;
  item_update_lem = λ id n w. refl;
  product_create_lem = λ d w. refl;
  product_count_lem = λ w. refl;
  product_find_many_lem = λ skip count w. refl;
  product_find_unique_lem = λ id w. refl;
  product_update_lem = λ id d w. refl;
  product_decrement_lem = λ id n w. refl;
  product_delete_lem = λ id w. refl;
}

abbrev pub tea : Product
tea = record {
  id = "tea";
  name = "Tea";
  description = none;
  price = 250;
  stock = pos 5;
  created_at = 1;
}

abbrev pub order_in : OrderStatus → Order
order_in status = record {
  id = "o1";
  user_id = "ann";
  status = status;
  total = 500;
  payment_id = none;
  transaction_id = none;
  created_at = 2;
}

abbrev pub line : ℕ → OrderItem
line quantity = record {
  id = "i1";
  order_id = "o1";
  product_id = "tea";
  quantity = quantity;
  price = 250;
}

abbrev pub tables_in : OrderStatus → Tables
tables_in status = record {
  products = tea ∷ [];
  orders = order_in status ∷ [];
  items = line 2 ∷ [];
}

abbrev pub world : Tables → ℕ → World ℕ
world t calls = record {
  tables = t;
  processing = [];
  completed = [];
  creations = [];
  rabbit = record { connection = true; channel = true };
  env = calls;
}
