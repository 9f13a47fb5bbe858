-- ===== src/Base/Text.antt =====
-- Texts: concatenation, `includes`, and the decimal digits that a template string prints.
use Prim.Native.Nat.{ℕ, zero, suc, ◌/◌, ◌%◌}
use Prim.Native.String
use Prim.Native.String.{String}
use mathlib.Core.Bool.{Bool}
use text.Mathlib.Text.{find?}
use text.Mathlib.Text
use nestjs_order_api.Base.Tests.{◌==◌, if◌then◌else◌, is_some}
use nestjs_order_api.Base.Int.{ℤ, pos, negsuc}

infixr 66 ◌<>◌
abbrev pub ◌<>◌ : String → String → String
s <> t = String.◌++◌ s t

-- `===` on strings.
infix 50 ◌===◌
abbrev pub ◌===◌ : String → String → Bool
s === t = Text.◌==◌ s t

-- `s.includes(t)`.
abbrev pub includes : String → String → Bool
includes s t = is_some (find? s t)

digit : ℕ → String
digit d =
    if d == 0
    then "0"
    else if d == 1
    then "1"
    else if d == 2
    then "2"
    else if d == 3
    then "3"
    else if d == 4
    then "4"
    else if d == 5
    then "5"
    else if d == 6
    then "6"
    else if d == 7
    then "7"
    else if d == 8
    then "8"
    else "9"

-- The digits of n in front of a text; n + 1 rounds are enough.
digits_from : ℕ → ℕ → String → String
digits_from zero n rest = rest
digits_from (suc fuel) n rest =
    let here = digit (n % 10) <> rest in
    let more = digits_from fuel (n / 10) here in if n / 10 == 0 then here else more

unfoldable pub show_ℕ : ℕ → String
unfolding digit digits_from
show_ℕ n = digits_from (suc n) n ""

unfoldable pub show_ℤ : ℤ → String
unfolding show_ℕ
show_ℤ (pos n) = show_ℕ n
show_ℤ (negsuc n) = "-" <> show_ℕ (suc n)
