-- ===== src/Database/Checksum/Word.antt =====
-- About the checksum: the word that it stands for, and its eight digits.
use mathlib.Core.List.{foldl}
use nestjs_order_api.Base.{
  ℕ, zero, suc, ◌+◌, ◌-◌, ◌*◌, ◌/◌, ◌%◌, ◌≤◌, ◌<◌, ℤ, pos, negsuc, ◌-ℤ◌, List, [], ◌∷◌, ◌++◌,
  length, ltb, ◌==◌, if◌then◌else◌, ◌≡◌, refl, ap, ◌∙◌, arith, length-append, Bool-cases, inl, inr,
}
use nestjs_order_api.Database.Checksum.{
  to_int32, times_32, add_char, hash_step, hash_of, abs, hex_digit, hex_onto, zeros,
  calculate_checksum, bits,
}

-- The hash by unsigned arithmetic: a polynomial in 31.
abbrev pub poly_step : ℕ → ℕ → ℕ
poly_step h c = (31 * h + c) % 0x1_0000_0000

unfoldable pub poly_hash : List ℕ → ℕ
poly_hash s = foldl poly_step 0 s

bits-hash_step : (h : ℤ) (c : ℕ) → bits (hash_step h c) ≡ poly_step (bits h) c
unfolding hash_step to_int32 ◌-ℤ◌
bits-hash_step (pos n) c = ground arith
bits-hash_step (negsuc n) c = ground arith

bits-foldl : (h : ℤ) (s : List ℕ) → bits (foldl hash_step h s) ≡ foldl poly_step (bits h) s
bits-foldl h [] = refl
bits-foldl h (c ∷ s) =
    bits-foldl (hash_step h c) s ∙ ap (λ b. foldl poly_step b s) (bits-hash_step h c)

-- The signed shifts, subtractions and cuts of the loop compute, in 32 bits, the polynomial hash
-- h = 31 * h + c modulo 2 ^ 32.
bits-hash_of : (s : List ℕ) → bits (hash_of s) ≡ poly_hash s
unfolding hash_of poly_hash
bits-hash_of s = bits-foldl (pos 0) s

-- The value of a hexadecimal digit, and of a text of them after `acc`.
abbrev pub digit_value : ℕ → ℕ
digit_value d = if ltb d b'a' then d - b'0' else d - b'a' + 10

abbrev pub read_hex : ℕ → List ℕ → ℕ
read_hex acc [] = acc
read_hex acc (d ∷ s) = read_hex (acc * 16 + digit_value d) s

digit_value-hex_digit : (d : ℕ) → d < 16 → digit_value (hex_digit d) ≡ d
digit_value-hex_digit d h = ground arith

power : ℕ → ℕ
power zero = 1
power (suc k) = 16 * power k

read_hex-hex_onto :
    (fuel n : ℕ) (rest : List ℕ)
    → n < power fuel
    → read_hex 0 (hex_onto fuel n rest) ≡ read_hex n rest
unfolding hex_onto power
read_hex-hex_onto zero n rest h = let e : n ≡ 0 = omega arith in rw e
read_hex-hex_onto (suc fuel) n rest h =
    let digit : digit_value (hex_digit (n % 16)) ≡ n % 16 =
      digit_value-hex_digit (n % 16) (omega arith) in
    let whole : (n / 16) * 16 + n % 16 ≡ n = omega arith in
    elim (Bool-cases (n / 16 == 0)) [
      | inl last ↦
          let small : n % 16 ≡ n = ground arith in
          let value : 0 * 16 + digit_value (hex_digit (n % 16)) ≡ n = omega arith in
          rw last (ap (λ d. read_hex d rest) value)
      | inr more ↦ rw more (
          read_hex-hex_onto fuel (n / 16) (hex_digit (n % 16) ∷ rest) (omega arith)
          ∙ ap (λ d. read_hex ((n / 16) * 16 + d) rest) digit
          ∙ ap (λ d. read_hex d rest) whole)
    ]

length-hex_onto : (fuel n : ℕ) (rest : List ℕ) → length (hex_onto fuel n rest) ≤ fuel + length rest
unfolding hex_onto
length-hex_onto zero n rest = omega arith
length-hex_onto (suc fuel) n rest =
    ground (arith, length-hex_onto fuel (n / 16) (hex_digit (n % 16) ∷ rest))

length-zeros : (n : ℕ) → length (zeros n) ≡ n
length-zeros zero = refl
length-zeros (suc n) = ap suc (length-zeros n)

read_hex-zeros : (n : ℕ) (s : List ℕ) → read_hex 0 (zeros n ++ s) ≡ read_hex 0 s
read_hex-zeros zero s = refl
read_hex-zeros (suc n) s = read_hex-zeros n s

abs-to_int32 : (x : ℤ) → abs (to_int32 x) ≤ 0x8000_0000
unfolding to_int32
abs-to_int32 (pos n) = ground arith
abs-to_int32 (negsuc n) = ground arith

abs-hash_step : (h : ℤ) (c : ℕ) → abs (hash_step h c) ≤ 0x8000_0000
unfolding hash_step
abs-hash_step h c = abs-to_int32 (add_char (to_int32 (times_32 h) -ℤ h) c)

abs-foldl : (h : ℤ) (s : List ℕ) → abs h ≤ 0x8000_0000 → abs (foldl hash_step h s) ≤ 0x8000_0000
abs-foldl h [] b = b
abs-foldl h (c ∷ s) b = abs-foldl (hash_step h c) s (abs-hash_step h c)

-- A checksum has eight characters, and they spell the absolute value of the hash in base 16: no
-- digit is lost, not even for -2 ^ 31, whose absolute value is no signed word. The hash, which the loop
-- makes by signed shifts, subtractions and cuts, is in 32 bits the polynomial h = 31 * h + c modulo
-- 2 ^ 32.
pub checksum_digits :
    (s : List ℕ)
    → (length (calculate_checksum s) ≡ 8)
      × (read_hex 0 (calculate_checksum s) ≡ abs (hash_of s))
      × (bits (hash_of s) ≡ poly_hash s)
unfolding calculate_checksum hash_of power
checksum_digits s =
    let n = abs (hash_of s) in
    let word : n ≤ 0x8000_0000 = abs-foldl (pos 0) s (omega arith) in
    let text = hex_onto 8 n [] in
    let short = length-hex_onto 8 n [] in
    (
      omega
          (arith, length-append {0} (zeros (8 - length text)) text, length-zeros (8 - length text)),
      read_hex-zeros (8 - length text) text ∙ read_hex-hex_onto 8 n [] (omega arith),
      bits-hash_of s,
    )
