-- ===== src/Base/Keyed.antt =====
-- A database table: a list of rows, each with a key. The first row with the key is the one meant.
use Prim.Native.String.{String}
use mathlib.Core.Path.{◌≡◌, refl}
use native.Mathlib.Omega.{arith}
use text.Mathlib.TextEquality.{eq_iff}
use mathlib.Core.Option
use mathlib.Core.Option.{Option, none, some}
use mathlib.Core.List.{List, [], ◌∷◌, ◌++◌}
use nestjs_order_api.Base.Text.{◌===◌}
use nestjs_order_api.Base.Tests.{if◌then◌else◌}

module _ {R : Type 0} (key : R → String) where
  unfoldable pub find : String → List R → Option R
  find k [] = none
  find k (r ∷ rs) = if key r === k then some r else find k rs

  unfoldable pub update : String → (R → R) → List R → List R
  update k f [] = []
  update k f (r ∷ rs) = if key r === k then f r ∷ rs else r ∷ update k f rs

  unfoldable pub delete : String → List R → List R
  delete k [] = []
  delete k (r ∷ rs) = if key r === k then rs else r ∷ delete k rs

  -- A change that keeps the keys is seen at its key, and nowhere else.
  pub find-update :
      (j k : String) (f : R → R)
      → ((r : R) → key (f r) ≡ key r)
      → (rs : List R)
      → find j (update k f rs) ≡ (if k === j then Option.map f (find j rs) else find j rs)
  unfolding find update
  find-update j k f keep [] = ground arith
  find-update j k f keep (r ∷ rs) = ground (
    arith,
    keep r,
    eq_iff (key r) k,
    eq_iff (key r) j,
    eq_iff k j,
    eq_iff (key (f r)) j,
    find-update j k f keep rs,
  )

  pub find-append :
      (k : String) (rs : List R) (r : R)
      → find k rs ≡ none
      → find k (rs ++ r ∷ []) ≡ (if key r === k then some r else none)
  unfolding find
  find-append k [] r h = refl
  find-append k (s ∷ rs) r h = ground (arith, find-append k rs r)

  pub find-append_some :
      (k : String) (rs : List R) (r s : R) → find k rs ≡ some s → find k (rs ++ r ∷ []) ≡ some s
  unfolding find
  find-append_some k [] r s h = absurd (ground arith)
  find-append_some k (t ∷ rs) r s h = ground (arith, find-append_some k rs r s)
