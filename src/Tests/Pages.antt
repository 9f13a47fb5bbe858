-- ===== src/Tests/Pages.antt =====
-- Listings and rate limits at concrete inputs.
use nestjs_order_api.Base.{ℕ, min, String, none, List, [], ◌∷◌, if◌then◌else◌, ◌≡◌, arith}
use nestjs_order_api.Http.{Result, ok, err}
use nestjs_order_api.Schema.{Product, paid, OrderView}
use nestjs_order_api.Prisma.Rows.{view_order}
use nestjs_order_api.Tests.{order_in, tables_in}
use nestjs_order_api.Http.{failure}
use nestjs_order_api.Base.{true, ◌===◌}
use nestjs_order_api.Page.{Page}
use nestjs_order_api.Order.Listing
use nestjs_order_api.Product
use nestjs_order_api.RateLimit.{Required, Counters}
use nestjs_order_api.RateLimit.Window.{Arrival, passed, asked, window_passes}

abbrev three : List ℕ
three = 30 ∷ 20 ∷ 10 ∷ []

-- One tenant that answers and one that does not.
abbrev fetch : String → Result (List OrderView)
fetch tenant =
    if tenant === "shop"
    then ok (view_order (tables_in paid) (order_in paid) ∷ [])
    else err (failure "down")

abbrev tenants : List String
tenants = "shop" ∷ "bar" ∷ []

abbrev two_a_second : Required
two_a_second = record { window_ms = 1000; max = 2; key_by_user = true }

abbrev no_counters : Counters
no_counters key = none

abbrev burst : List Arrival
burst = ("ann", 10) ∷ ("bob", 20) ∷ ("ann", 30) ∷ []

window_passes_example :
    passed two_a_second "ann" no_counters (("ann", 5) ∷ burst)
    ≡ min 2 (asked two_a_second "ann" (("ann", 5) ∷ burst))
window_passes_example =
    window_passes two_a_second "ann" 5 no_counters burst tt
      (ground arith, (ground arith, (ground arith, tt)))
