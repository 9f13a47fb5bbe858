-- ===== src/Base/Sort/Laws.antt =====
-- The sort keeps the rows, and puts them in order.
use Prim.Native.Nat.{ℕ, suc, ◌≤◌}
use mathlib.Core.Path.{◌≡◌, refl, ap, ◌∙◌}
use mathlib.Core.Logic.{inl, inr}
use mathlib.Core.List.{List, [], ◌∷◌, Perm}
use mathlib.Core.List.Perm
use native.Mathlib.Omega.{arith}
use nestjs_order_api.Base.Tests.{leb, Bool-cases}
use nestjs_order_api.Base.Lists.{length, All}
use nestjs_order_api.Base.Sort.{insert_newest, newest_first}

module _ {R : Type 0} (at : R → ℕ) where
  length-insert_newest : (r : R) (rs : List R) → length (insert_newest at r rs) ≡ suc (length rs)
  unfolding insert_newest
  length-insert_newest r [] = refl
  length-insert_newest r (s ∷ rs) = ground (arith, length-insert_newest r rs)

  pub length-newest_first : (rs : List R) → length (newest_first at rs) ≡ length rs
  unfolding newest_first
  length-newest_first [] = refl
  length-newest_first (r ∷ rs) =
      length-insert_newest r (newest_first at rs) ∙ ap suc (length-newest_first rs)

  insert_newest-perm : (r : R) (rs : List R) → Perm (insert_newest at r rs) (r ∷ rs)
  unfolding insert_newest
  insert_newest-perm r [] = Perm.refl _
  insert_newest-perm r (s ∷ rs) = elim (Bool-cases (leb (at s) (at r))) [
    | inl newer ↦ rw newer (Perm.refl _)
    | inr older ↦ rw older (Perm.trans (Perm.cons s (insert_newest-perm r rs)) (Perm.swap r s rs))
  ]

  pub newest_first-perm : (rs : List R) → Perm (newest_first at rs) rs
  unfolding newest_first
  newest_first-perm [] = Perm.refl _
  newest_first-perm (r ∷ rs) =
      Perm.trans (insert_newest-perm r (newest_first at rs)) (Perm.cons r (newest_first-perm rs))

  -- Each row is followed only by rows that are no newer.
  abbrev pub IsNewestFirst : List R → Type 0
  IsNewestFirst [] = Unit
  IsNewestFirst (r ∷ rs) = All (λ s. at s ≤ at r) rs × IsNewestFirst rs

  All-insert_newest :
      (n : ℕ) (r : R) (rs : List R)
      → at r ≤ n
      → All (λ s. at s ≤ n) rs
      → All (λ s. at s ≤ n) (insert_newest at r rs)
  unfolding insert_newest
  All-insert_newest n r [] h k = (h, tt)
  All-insert_newest n r (s ∷ rs) h (p, k) = ground (arith, All-insert_newest n r rs h k)

  All-weaken : (m n : ℕ) (rs : List R) → m ≤ n → All (λ s. at s ≤ m) rs → All (λ s. at s ≤ n) rs
  All-weaken m n [] h k = tt
  All-weaken m n (r ∷ rs) h (p, k) = (omega arith, All-weaken m n rs h k)

  insert_newest-IsNewestFirst :
      (r : R) (rs : List R) → IsNewestFirst rs → IsNewestFirst (insert_newest at r rs)
  unfolding insert_newest
  insert_newest-IsNewestFirst r [] h = (tt, tt)
  insert_newest-IsNewestFirst r (s ∷ rs) (k, h) = elim (Bool-cases (leb (at s) (at r))) [
    | inl newer ↦
        let le : at s ≤ at r = ground arith in
        rw newer ((le, All-weaken (at s) (at r) rs le k), (k, h))
    | inr older ↦
        rw older
          (All-insert_newest (at s) r rs (ground arith) k, insert_newest-IsNewestFirst r rs h)
  ]

  pub newest_first-IsNewestFirst : (rs : List R) → IsNewestFirst (newest_first at rs)
  unfolding newest_first
  newest_first-IsNewestFirst [] = tt
  newest_first-IsNewestFirst (r ∷ rs) =
      insert_newest-IsNewestFirst r (newest_first at rs) (newest_first-IsNewestFirst rs)
