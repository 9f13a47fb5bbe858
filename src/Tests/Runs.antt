-- ===== src/Tests/Runs.antt =====
-- Runs of events at concrete inputs.
use Prim.Native.Nat.{zero}
use Prim.Native.String.{count}
use text.Mathlib.TextLemmas.{length-cons}
use nestjs_order_api.Base.{
  List, [], ◌∷◌, ℕ, suc, String, none, some, true, ◌≡◌, ◌≢◌, refl, ap, ◌∙◌, arith, eq_iff,
}
use nestjs_order_api.Base.Keyed.{find}
use nestjs_order_api.Schema.{Order, pending, waiting_for_payment}
use nestjs_order_api.Prisma.{World, Prisma}
use nestjs_order_api.Prisma.Rows.{order_key}
use nestjs_order_api.Prisma.Rows.{items_of}
use nestjs_order_api.Prisma.Effects.{Oracle}
use nestjs_order_api.Prisma.Laws.{documented}
use nestjs_order_api.Rabbit.{Broker}
use nestjs_order_api.Rabbit.Laws.{documented_broker, documented-IsBroker}
use nestjs_order_api.Order.Machine.{
  Moves, creates, adds, pays, asks_completion, delivers_completed, handle, Reached, here, next,
}
use nestjs_order_api.Order.Machine.Bystanders.{IsUuid}
use nestjs_order_api.Order.Cart.{order_total}
use nestjs_order_api.Order.Machine.Sums.{IsSummed, Reached-IsSummed}
use nestjs_order_api.Order.Machine.Handlers.{Call, posts_order, posts_payment, takes_processing}
use nestjs_order_api.Order.Machine.Consistency.{IsTidy, lines_for_good}
use nestjs_order_api.Order.Machine.Runs.{Reached-Moves, placed_for_good}
use nestjs_order_api.Tests.{steady, documented-IsPrisma, order_in, tables_in, world}

abbrev client : Prisma ℕ
client = documented steady

abbrev broker : Broker ℕ
broker = documented_broker steady

-- The request for completion is made before the payment and delivered after it.
abbrev waiting : World ℕ
waiting = world (tables_in waiting_for_payment) 0

abbrev finished : World ℕ
finished = handle client broker delivers_completed (
    handle client broker (pays "o1" "ann" "shop")
      (handle client broker (asks_completion "o1" "ann" "shop" "t1") waiting))

finished-Reached : Reached client broker waiting finished
finished-Reached =
    next (next (next here (asks_completion "o1" "ann" "shop" "t1")) (pays "o1" "ann" "shop"))
      delivers_completed

Reached-Moves_example :
    (s : Order) × (find order_key "o1" finished.tables.orders ≡ some s)
    × Moves (order_in waiting_for_payment) s
unfolding find
Reached-Moves_example =
    Reached-Moves steady client (documented-IsPrisma steady) broker (documented-IsBroker steady)
      finished-Reached "o1" (order_in waiting_for_payment) refl

placed_for_good_example :
    (s : Order) × (find order_key "o1" finished.tables.orders ≡ some s)
    × (s.status ≢ pending)
    × (s.total ≡ 500)
    × (s.user_id ≡ "ann")
unfolding find
placed_for_good_example =
    placed_for_good steady client (documented-IsPrisma steady) broker (documented-IsBroker steady)
      finished-Reached "o1" (order_in waiting_for_payment) refl (ground arith)

-- An outside world whose ids are texts of a length that grows with each call.
abbrev ticks : ℕ → String
ticks zero = ""
ticks (suc n) = String.◌∷◌ "i" (ticks n)

abbrev growing : Oracle ℕ
growing = record {
  fault = λ e. none;
  next = suc;
  fresh_id = ticks;
  now = λ e. e;
  flushed = λ e. true;
  rank = λ e id. 0;
}

count-ticks : (n : ℕ) → count (ticks n) ≡ n
count-ticks zero = refl
count-ticks (suc n) = length-cons "i" (ticks n) ∙ ap suc (count-ticks n)

abbrev growing-IsUuid : IsUuid growing
growing-IsUuid = record {
  serial = count;
  clock = λ e. e;
  fresh_lem = count-ticks;
  next_lem = λ e. omega arith;
}

abbrev placed : World ℕ
placed = world (tables_in waiting_for_payment) 9

-- Another order is made and gets a line while the first one is paid.
abbrev paid_later : World ℕ
paid_later = handle (documented growing) (documented_broker growing) (pays "o1" "ann" "shop") (
    handle (documented growing) (documented_broker growing)
      (adds "iiiiiiiii" "bob" "shop" record { product_id = "tea"; quantity = 1 })
      (handle (documented growing) (documented_broker growing) (creates "bob" "shop") placed))

paid_later-Reached : Reached (documented growing) (documented_broker growing) placed paid_later
paid_later-Reached =
    next
      (next (next here (creates "bob" "shop"))
        (adds "iiiiiiiii" "bob" "shop" record { product_id = "tea"; quantity = 1 }))
      (pays "o1" "ann" "shop")

count-i1 : count "i1" ≡ 2
count-i1 = length-cons "i" "1" ∙ ap suc (length-cons "1" "")

placed-IsTidy : IsTidy growing growing-IsUuid placed
placed-IsTidy = ((tt, tt), (omega (arith, count-i1), tt))

lines_for_good_example : items_of paid_later.tables "o1" ≡ items_of placed.tables "o1"
unfolding find
lines_for_good_example =
    lines_for_good growing growing-IsUuid (documented growing) (documented-IsPrisma growing)
      (documented_broker growing) (documented-IsBroker growing) paid_later-Reached placed-IsTidy
      "o1" (order_in waiting_for_payment) refl (ground arith)

placed-IsSummed : IsSummed placed
unfolding find order_total
placed-IsSummed = ((ground arith, tt), λ id r found. ground (arith, eq_iff "o1" id))

Reached-IsSummed_example : IsSummed paid_later
Reached-IsSummed_example =
    Reached-IsSummed growing growing-IsUuid (λ e. refl) (documented growing)
      (documented-IsPrisma growing) (documented_broker growing) (documented-IsBroker growing)
      paid_later-Reached placed-IsTidy placed-IsSummed

-- A customer orders two teas and pays before the order is placed, which is refused; then the message is
-- taken, and the payment goes through.
abbrev calls : List Call
calls =
    posts_order "bob" "shop" (record { product_id = "tea"; quantity = 2 } ∷ [])
    ∷ posts_payment "iiiiiiiii" "bob" "shop"
    ∷ takes_processing "pay"
    ∷ posts_payment "iiiiiiiii" "bob" "shop"
    ∷ []
