-- ===== src/Cache/Texts.antt =====
-- Texts with a common beginning, as the keys of common/services/cache.service.ts are.
use Prim.Native.String.{count}
use text.Mathlib.Text.{starts_with}
use text.Mathlib.TextEquality.{starts_with_iff}
use text.Mathlib.TextLemmas.{append_assoc, append_cancel_left, append_inj}
use nestjs_order_api.Base.{
  String, Bool-cases, inl, inr, false, ◌<>◌, ◌===◌, ◌≡◌, sym, ◌∙◌, arith, eq_iff,
}

-- A text that goes on in another way does not begin with the longer text.
pub starts_with-append :
    (a x y : String) → starts_with x y ≡ false → starts_with (a <> x) (a <> y) ≡ false
starts_with-append a x y other = elim (Bool-cases (starts_with (a <> x) (a <> y))) [
  | inr differs ↦ differs
  | inl begins ↦
      let (u, e) = (starts_with_iff (a <> x) (a <> y)).0 begins in
      let inner =
        (starts_with_iff x y).1
          (u, append_cancel_left a (y <> u) x (sym (append_assoc a y u) ∙ e)) in
      absurd (ground (arith, inner))
]

-- Texts that differ after a common beginning, or at it.
pub append_differs : (a x y : String) → (x === y) ≡ false → (a <> x === a <> y) ≡ false
append_differs a x y other =
    ground (arith, eq_iff x y, eq_iff (a <> x) (a <> y), append_cancel_left a x y)

pub first_differs :
    (a b x y : String) → count a ≡ count b → (a === b) ≡ false → (a <> x === b <> y) ≡ false
first_differs a b x y size other = elim (Bool-cases (a <> x === b <> y)) [
  | inr differs ↦ differs
  | inl same ↦
      absurd (ground (arith, eq_iff a b, (append_inj ((eq_iff (a <> x) (b <> y)).0 same) size).0))
]
