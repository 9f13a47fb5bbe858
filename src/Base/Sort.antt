-- ===== src/Base/Sort.antt =====
-- `xs.sort((a, b) => at(b) - at(a))`: the stable sort by a key, largest first.
pub mod Laws
use Prim.Native.Nat.{ℕ}
use mathlib.Core.List.{List, [], ◌∷◌}
use nestjs_order_api.Base.Tests.{leb, if◌then◌else◌}

module _ {R : Type 0} (at : R → ℕ) where
  unfoldable pub insert_newest : R → List R → List R
  insert_newest r [] = r ∷ []
  insert_newest r (s ∷ rs) = if leb (at s) (at r) then r ∷ s ∷ rs else s ∷ insert_newest r rs

  unfoldable pub newest_first : List R → List R
  unfolding insert_newest
  newest_first [] = []
  newest_first (r ∷ rs) = insert_newest r (newest_first rs)
