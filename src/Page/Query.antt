-- ===== src/Page/Query.antt =====
-- `parseInt(s, 10)` and the defaults of the query parameters `page` and `per_page`.
use nestjs_order_api.Base.Chars.{codes, skip_spaces}
use nestjs_order_api.Base.{
  ℕ, ◌+◌, ◌-◌, ◌*◌, min, max, String, Bool, ◌&&◌, Option, none, some, List, [], ◌∷◌, ℤ, pos, negsuc,
  leb, ◌==◌, if◌then◌else◌, or_else,
}

abbrev is_digit : ℕ → Bool
is_digit c = leb b'0' c && leb c b'9'

-- The number that a run of digits spells after `acc`; `none` if there has been no digit.
digits_after : Option ℕ → List ℕ → Option ℕ
digits_after acc [] = acc
digits_after acc (c ∷ s) =
    let more = digits_after (some (or_else acc 0 * 10 + (c - b'0'))) s in
    if is_digit c then more else acc

abbrev negated : ℕ → ℤ
negated n = if n == 0 then pos 0 else negsuc (n - 1)

abbrev opposite : Option ℕ → Option ℤ
opposite none = none
opposite (some n) = some (negated n)

abbrev as_int : Option ℕ → Option ℤ
as_int none = none
as_int (some n) = some (pos n)

after_sign : List ℕ → Option ℤ
unfolding digits_after
after_sign [] = none
after_sign (c ∷ s) =
    if c == b'-'
    then opposite (digits_after none s)
    else as_int (digits_after none (if c == b'+' then s else c ∷ s))

-- `none` is NaN. The numbers are exact here, where JavaScript rounds beyond 2 ^ 53.
unfoldable pub parse_int : String → Option ℤ
unfolding after_sign skip_spaces
parse_int s = after_sign (skip_spaces (codes s))

-- `parseInt(x ?? d, 10) || d`: a text that is no number, and zero, give the default.
unfoldable pub number_or : Option String → ℕ → ℤ
unfolding parse_int
number_or none d = pos d
number_or (some s) d = elim (parse_int s) [
  | none ↦ pos d
  | some n ↦ elim n [ pos k ↦ if k == 0 then pos d else pos k | negsuc k ↦ negsuc k ]
]

abbrev at_least_one : ℤ → ℕ
at_least_one (pos n) = max 1 n
at_least_one (negsuc n) = 1

-- `Math.max(1, parseInt(page ?? '1', 10) || 1)`
unfoldable pub page_num : Option String → ℕ
unfolding number_or
page_num page = at_least_one (number_or page 1)

abbrev at_most : ℕ → ℤ → ℤ
at_most m (pos n) = pos (min m n)
at_most m (negsuc n) = negsuc n

-- `Math.max(1, Math.min(100, parseInt(perPage ?? '10', 10) || 10))`
unfoldable pub per_page_num : Option String → ℕ
unfolding number_or
per_page_num per_page = at_least_one (at_most 100 (number_or per_page 10))
