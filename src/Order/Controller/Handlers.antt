-- ===== src/Order/Controller/Handlers.antt =====
-- order/order.controller.ts: the handlers beside `create`.
use nestjs_order_api.Base.{◌≤◌, String, Bool, true, Option, none, some, List, length, arith, ◌<◌}
use nestjs_order_api.Base.Chars.{codes, trim, is_nil}
use nestjs_order_api.Base.Sort.{newest_first}
use nestjs_order_api.Http.{Result, bad_request}
use nestjs_order_api.Schema.{OrderView}
use nestjs_order_api.Prisma.{Prisma, Action, ◌>>◌, throw_if}
use nestjs_order_api.Rabbit.{Broker}
use nestjs_order_api.Tenant.{TenantContext, Principal, admin_tenant}
use nestjs_order_api.Page.{Page, page_num, per_page_num}
use nestjs_order_api.Page.Slices.{query_bounds, cut_page_bounds}
use nestjs_order_api.Order.Cart
use nestjs_order_api.Order.Lifecycle
use nestjs_order_api.Order.Lifecycle.{enqueue_order_completed}
use nestjs_order_api.Order.Listing
use nestjs_order_api.Order.Listing.{TenantOrder, created_at, gather}

-- The tenant context that `findAll` leaves: that of an ADMIN is their own tenant.
unfoldable pub list_context : Option Principal → TenantContext → TenantContext
list_context user context = elim (admin_tenant user) [ none ↦ context | some code ↦ some code ]

-- The answer of `findAll`.
unfoldable pub list_orders :
    (String → Result (List OrderView))
    → List String
    → (page per_page : Option String) → Page TenantOrder
list_orders fetch tenants page per_page =
    Listing.find_all fetch tenants (page_num page) (per_page_num per_page)

-- `transaction_id` is a text; `none` stands for anything else.
abbrev pub is_blank : Option String → Bool
is_blank none = true
is_blank (some s) = is_nil (trim (codes s))

abbrev pub text_of : Option String → String
text_of none = ""
text_of (some s) = s

module _ {E : Type 0} (p : Prisma E) (b : Broker E) where
  unfoldable pub show_order : (id user : String) → Action E OrderView
  show_order id user = Cart.find_one p id user

  unfoldable pub receive_payment : (id user tenant : String) → Action E OrderView
  receive_payment id user tenant = Lifecycle.payment_received p id user tenant

  unfoldable pub request_completion : (id user tenant : String) → Option String → Action E Bool
  request_completion id user tenant transaction = do
    throw_if (is_blank transaction) (bad_request "transaction_id is required")
    enqueue_order_completed p b id user tenant (text_of transaction)

-- Whatever the texts of the query say and whichever databases answer: the page that is reported lies
-- between 1 and `total_pages`, holds at most 100 orders, and is empty only if there are no orders.
list_orders_bounds :
    (fetch : String → Result (List OrderView)) (tenants : List String)
    (page per_page : Option String)
    → let answer = list_orders fetch tenants page per_page in
      (1 ≤ answer.page)
      × (answer.page ≤ answer.total_pages)
      × (length answer.items ≤ 100)
      × (0 < length (newest_first created_at (gather fetch tenants)) → 0 < length answer.items)
unfolding list_orders Listing.find_all
list_orders_bounds fetch tenants page per_page =
    let (one, size, most) = query_bounds page per_page in
    let (low, high, fits, some_rows) =
      cut_page_bounds (newest_first created_at (gather fetch tenants)) (per_page_num per_page)
        (page_num page) (omega arith) (omega arith) in
    (low, high, omega arith, some_rows)
