-- ===== src/Order/Machine/Keys.antt =====
-- About rows with ids of their own: what an update of one of them leaves alone.
use nestjs_order_api.Base.{
  ℕ, String, Bool, true, false, some, List, [], ◌∷◌, ◌++◌, map, All, ◌≡◌, refl, ap, arith,
  Bool-cases, inl, inr, select, eq_iff, eq_refl, ◌===◌,
}
use nestjs_order_api.Schema.{OrderItem}
use nestjs_order_api.Base.Keyed.{update}
use nestjs_order_api.Prisma.Rows.{item_key, first}
use nestjs_order_api.Prisma.Effects.{set_quantity}

-- No text stands twice in a list.
abbrev pub Distinct : List String → Type 0
Distinct [] = Unit {0}
Distinct (k ∷ ks) = All (λ j. (j === k) ≡ false) ks × Distinct ks

pub All-append_one :
    (P : String → Type 0) (ks : List String) (k : String) → All P ks → P k → All P (ks ++ k ∷ [])
All-append_one P [] k h p = (p, tt)
All-append_one P (j ∷ ks) k (h, hs) p = (h, All-append_one P ks k hs p)

pub Distinct-append :
    (ks : List String) (k : String)
    → Distinct ks
    → All (λ j. (j === k) ≡ false) ks
    → Distinct (ks ++ k ∷ [])
Distinct-append [] k h n = (tt, tt)
Distinct-append (j ∷ ks) k (h, hs) (n, ns) =
    (All-append_one _ ks k h (ground (arith, eq_iff j k, eq_iff k j)), Distinct-append ks k hs ns)

pub keys-append :
    (items : List OrderItem) (i : OrderItem)
    → map item_key (items ++ i ∷ []) ≡ map item_key items ++ i.id ∷ []
keys-append [] i = refl
keys-append (j ∷ items) i = ap (λ l. j.id ∷ l) (keys-append items i)

pub keys-update :
    (k : String) (n : ℕ) (items : List OrderItem)
    → map item_key (update item_key k (set_quantity n) items) ≡ map item_key items
unfolding update
keys-update k n [] = refl
keys-update k n (i ∷ items) = ground (arith, keys-update k n items)

pub select-append :
    (f : OrderItem → Bool) (items : List OrderItem) (i : OrderItem)
    → f i ≡ false
    → select f (items ++ i ∷ []) ≡ select f items
select-append f [] i e = rw e refl
select-append f (j ∷ items) i e = ground (arith, select-append f items i e)

-- The first row that fits is one of the rows, and fits.
pub first-select :
    (f : OrderItem → Bool) (k : String) (items : List OrderItem) (old : OrderItem)
    → All (λ j. (j === k) ≡ false) (map item_key items)
    → first (select f items) ≡ some old
    → ((old.id === k) ≡ false) × (f old ≡ true)
first-select f k [] old h e = absurd (ground arith)
first-select f k (i ∷ items) old (h, hs) e = elim (Bool-cases (f i)) [
  | inl fits ↦ ground arith
  | inr other ↦ first-select f k items old hs (ground arith)
]

-- The other orders do not see a line that grows.
pub select-update :
    (f g : OrderItem → Bool) (n : ℕ) (items : List OrderItem) (old : OrderItem)
    → ((i : OrderItem) → g (set_quantity n i) ≡ g i)
    → Distinct (map item_key items)
    → first (select f items) ≡ some old
    → g old ≡ false
    → select g (update item_key old.id (set_quantity n) items) ≡ select g items
unfolding update
select-update f g n [] old same d e other = refl
select-update f g n (i ∷ items) old same (h, hs) e other = elim (Bool-cases (f i)) [
  | inl fits ↦ ground (arith, eq_refl i.id, same i)
  | inr passes ↦
      let found : first (select f items) ≡ some old = ground arith in
      let (apart, _) = first-select f i.id items old h found in
      ground (
        arith,
        eq_iff i.id old.id,
        eq_iff old.id i.id,
        select-update f g n items old same hs found other,
      )
]

pub first_fits :
    (f : OrderItem → Bool) (items : List OrderItem) (old : OrderItem)
    → first (select f items) ≡ some old
    → f old ≡ true
first_fits f [] old e = absurd (ground arith)
first_fits f (i ∷ items) old e = elim (Bool-cases (f i)) [
  | inl fits ↦ ground arith
  | inr passes ↦ first_fits f items old (ground arith)
]
