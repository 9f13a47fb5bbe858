-- ===== src/Database/Identifier.antt =====
-- `escapeIdentifier` (rabbitmq/database-creation.consumer.ts), and its inverse.
use mathlib.Core.List.{append_assoc}
use nestjs_order_api.Base.Chars.{starts_with}
use nestjs_order_api.Base.{
  ℕ, false, Option, none, some, List, [], ◌∷◌, ◌++◌, ◌==◌, if◌then◌else◌, ◌≡◌, refl, sym, ap, ◌∙◌,
  arith, Bool-cases, inl, inr,
}

-- `identifier.replace(/"/g, '""')`
unfoldable pub double_quotes : List ℕ → List ℕ
double_quotes [] = []
double_quotes (c ∷ s) = if c == b'"' then b'"' ∷ b'"' ∷ double_quotes s else c ∷ double_quotes s

unfoldable pub escape_identifier : List ℕ → List ℕ
unfolding double_quotes
escape_identifier s = b'"' ∷ double_quotes s ++ b'"' ∷ []

abbrev pub prefixed : ℕ → Option (List ℕ × List ℕ) → Option (List ℕ × List ℕ)
prefixed c none = none
prefixed c (some (name, rest)) = some (c ∷ name, rest)

-- The name that a text begins with inside its quotes, and what follows: two quotes stand for one, and
-- a single quote ends the name.
unfoldable pub read_name : List ℕ → Option (List ℕ × List ℕ)
read_name [] = none
read_name (c ∷ []) = if c == b'"' then some ([], []) else none
read_name (c ∷ d ∷ s) =
    let doubled = read_name s in
    let plain = read_name (d ∷ s) in
    if c == b'"'
    then (if d == b'"' then prefixed b'"' doubled else some ([], d ∷ s))
    else prefixed c plain

unfoldable pub unescape : List ℕ → Option (List ℕ × List ℕ)
unfolding read_name
unescape [] = none
unescape (c ∷ s) = let name = read_name s in if c == b'"' then name else none

read_name_plain :
    (c : ℕ) (s : List ℕ) → (c == b'"') ≡ false → read_name (c ∷ s) ≡ prefixed c (read_name s)
unfolding read_name
read_name_plain c [] e = rw e
read_name_plain c (d ∷ s) e = rw e

read_name_end :
    (rest : List ℕ)
    → starts_with (b'"' ∷ []) rest ≡ false
    → read_name (b'"' ∷ rest) ≡ some ([], rest)
unfolding read_name starts_with
read_name_end [] h = refl
read_name_end (c ∷ rest) h = ground arith

read_name-double_quotes :
    (s rest : List ℕ)
    → starts_with (b'"' ∷ []) rest ≡ false
    → read_name (double_quotes s ++ b'"' ∷ rest) ≡ some (s, rest)
unfolding double_quotes read_name
read_name-double_quotes [] rest h = read_name_end rest h
read_name-double_quotes (c ∷ s) rest h = elim (Bool-cases (c == b'"')) [
  | inl e ↦ ground (arith, read_name-double_quotes s rest h)
  | inr e ↦ rw e (read_name_plain c _ e ∙ ap (prefixed c) (read_name-double_quotes s rest h))
]

unescape-escape_identifier :
    (name rest : List ℕ)
    → starts_with (b'"' ∷ []) rest ≡ false
    → unescape (escape_identifier name ++ rest) ≡ some (name, rest)
unfolding unescape escape_identifier
unescape-escape_identifier name rest h =
    rw (append_assoc (double_quotes name) (b'"' ∷ []) rest) (read_name-double_quotes name rest h)

some_inj : {a b : List ℕ × List ℕ} → some a ≡ some b → (a.0 ≡ b.0) × (a.1 ≡ b.1)
some_inj e = (ground arith, ground arith)

-- An escaped name determines the name and where it ends, whatever quotes the name holds: if two
-- statements that go on with escaped names are the same text, so are the names and what follows them.
-- What follows must not begin with a quote.
pub escape_identifier-inj :
    (a b rest_a rest_b : List ℕ)
    → starts_with (b'"' ∷ []) rest_a ≡ false
    → starts_with (b'"' ∷ []) rest_b ≡ false
    → escape_identifier a ++ rest_a ≡ escape_identifier b ++ rest_b
    → (a ≡ b) × (rest_a ≡ rest_b)
escape_identifier-inj a b rest_a rest_b h g e = some_inj (
    sym (unescape-escape_identifier a rest_a h)
    ∙ ap unescape e
    ∙ unescape-escape_identifier b rest_b g)
