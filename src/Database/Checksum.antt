-- ===== src/Database/Checksum.antt =====
-- `calculateChecksum` (rabbitmq/database-creation.consumer.ts). The characters are UTF-16 code units.
pub mod Word
use mathlib.Core.List.{foldl}
use nestjs_order_api.Base.{
  ℕ, zero, suc, ◌+◌, ◌-◌, ◌*◌, ◌/◌, ◌%◌, ◌≤◌, ◌<◌, min, ℤ, pos, negsuc, pos_part, neg_part, sub_ℕ,
  ◌-ℤ◌, Bool, List, [], ◌∷◌, ◌++◌, length, ltb, ◌==◌, if◌then◌else◌, ◌≡◌, refl, ap, ◌∙◌, arith,
  length-append,
}

-- ToInt32: the number modulo 2 ^ 32, as a signed word.
abbrev signed : ℕ → ℤ
signed w = if ltb w 0x8000_0000 then pos w else negsuc (0x1_0000_0000 - w - 1)

unfoldable pub to_int32 : ℤ → ℤ
to_int32 (pos n) = signed (n % 0x1_0000_0000)
to_int32 (negsuc n) = signed (0x1_0000_0000 - 1 - n % 0x1_0000_0000)

-- `hash << 5` before it is cut to a word, and `x + char`.
abbrev pub times_32 : ℤ → ℤ
times_32 (pos n) = pos (32 * n)
times_32 (negsuc n) = negsuc (32 * n + 31)

abbrev pub add_char : ℤ → ℕ → ℤ
add_char x c = sub_ℕ (pos_part x + c) (neg_part x)

-- `hash = ((hash << 5) - hash) + char; hash = hash & hash;`
unfoldable pub hash_step : ℤ → ℕ → ℤ
unfolding to_int32 ◌-ℤ◌
hash_step hash c = to_int32 (add_char (to_int32 (times_32 hash) -ℤ hash) c)

unfoldable pub hash_of : List ℕ → ℤ
unfolding hash_step
hash_of s = foldl hash_step (pos 0) s

abbrev pub abs : ℤ → ℕ
abs (pos n) = n
abs (negsuc n) = suc n

abbrev pub hex_digit : ℕ → ℕ
hex_digit d = if ltb d 10 then d + b'0' else d - 10 + b'a'

-- `toString(16)` in front of a text, for a number of at most `fuel` digits.
unfoldable pub hex_onto : ℕ → ℕ → List ℕ → List ℕ
hex_onto zero n rest = rest
hex_onto (suc fuel) n rest =
    let here = hex_digit (n % 16) ∷ rest in
    let more = hex_onto fuel (n / 16) here in if n / 16 == 0 then here else more

abbrev pub zeros : ℕ → List ℕ
zeros zero = []
zeros (suc n) = b'0' ∷ zeros n

abbrev pub pad_start : ℕ → List ℕ → List ℕ
pad_start n s = zeros (n - length s) ++ s

-- Eight digits are enough for the absolute value of a word.
unfoldable pub calculate_checksum : List ℕ → List ℕ
unfolding hash_of hex_onto
calculate_checksum s = pad_start 8 (hex_onto 8 (abs (hash_of s)) [])

-- The word's bits, as an unsigned number.
abbrev pub bits : ℤ → ℕ
bits (pos n) = n % 0x1_0000_0000
bits (negsuc n) = 0x1_0000_0000 - 1 - n % 0x1_0000_0000
