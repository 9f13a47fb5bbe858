-- ===== src/Database/Statements/Cuts.antt =====
-- About the cutting of a migration into statements.
use mathlib.Core.List.{append_assoc, append-nil}
use nestjs_order_api.Base.{
  ℕ, true, false, none, some, Option, List, [], ◌∷◌, ◌++◌, map, ◌≡◌, refl, sym, ap, ◌∙◌, arith, All,
}
use nestjs_order_api.Base.Chars.{trim, ends_with}
use nestjs_order_api.Database.Statements.{
  Quote, is_quote, scan_char, scan_line, is_comment, Splitter, take_line, split_line, split_lines,
  start,
}

-- The text of some lines.
abbrev pub unlines : List (List ℕ) → List ℕ
unlines [] = []
unlines (line ∷ lines) = (line ++ b'\n' ∷ []) ++ unlines lines

abbrev pub concat : List (List ℕ) → List ℕ
concat [] = []
concat (t ∷ ts) = t ++ concat ts

concat-append : (ts : List (List ℕ)) (t : List ℕ) → concat (ts ++ t ∷ []) ≡ concat ts ++ t
concat-append [] t = append-nil t
concat-append (u ∷ ts) t =
    ap (λ x. u ++ x) (concat-append ts t) ∙ sym (append_assoc u (concat ts) t)

-- All the text that the loop holds.
abbrev pub held : Splitter → List ℕ
held s = concat s.cut ++ s.statement

held-take_line :
    (s : Splitter) (line : List ℕ) → held (take_line s line) ≡ held s ++ (line ++ b'\n' ∷ [])
held-take_line s line = ground (
  arith,
  concat-append s.cut (s.statement ++ (line ++ b'\n' ∷ [])),
  append_assoc (concat s.cut) s.statement (line ++ b'\n' ∷ []),
  append_assoc s.statement line (b'\n' ∷ []),
  append-nil (concat (take_line s line).cut),
)

held-split_lines :
    (s : Splitter) (lines : List (List ℕ))
    → All (λ line. is_comment line ≡ false) lines
    → held (split_lines s lines) ≡ held s ++ unlines lines
unfolding split_lines
held-split_lines s [] h = sym (append-nil (held s))
held-split_lines s (line ∷ lines) (h, hs) =
    let step : split_line s line ≡ take_line s line = ground arith in
    ap (λ t. held (split_lines t lines)) step
    ∙ held-split_lines (take_line s line) lines hs
    ∙ ap (λ t. t ++ unlines lines) (held-take_line s line)
    ∙ append_assoc (held s) (line ++ b'\n' ∷ []) (unlines lines)

-- Where no line begins with a comment, the cuts lose and add nothing: the statements that are cut off,
-- one after the other, and what is left over are the lines of the migration, wherever quotes open and
-- semicolons stand.
split_lines_lossless :
    (lines : List (List ℕ))
    → All (λ line. is_comment line ≡ false) lines
    → concat (split_lines start lines).cut ++ (split_lines start lines).statement ≡ unlines lines
split_lines_lossless lines h = held-split_lines start lines h

-- A line that opens and closes no quote and does not begin with a comment.
abbrev pub IsPlain : List ℕ → Type 0
IsPlain line = All (λ c. is_quote c ≡ false) line × (is_comment line ≡ false)

-- The lines of one statement: the last one, and no other, ends with a semicolon.
abbrev pub IsBlock : List (List ℕ) → Type 0
IsBlock [] = ⊥
IsBlock (line ∷ []) = IsPlain line × (ends_with b';' (trim line) ≡ true)
IsBlock (line ∷ next ∷ lines) =
    IsPlain line × (ends_with b';' (trim line) ≡ false) × IsBlock (next ∷ lines)

scan_line_plain :
    (q : Quote) (previous : Option ℕ) (line : List ℕ)
    → q.inside ≡ false
    → All (λ c. is_quote c ≡ false) line
    → scan_line q previous line ≡ q
unfolding scan_line
scan_line_plain q previous [] out h = refl
scan_line_plain q previous (c ∷ line) out (h, hs) =
    let step : scan_char q previous c ≡ q = ground arith in
    ap (λ r. scan_line r (some c) line) step ∙ scan_line_plain q (some c) line out hs

split_lines-append :
    (s : Splitter) (xs ys : List (List ℕ))
    → split_lines s (xs ++ ys) ≡ split_lines (split_lines s xs) ys
unfolding split_lines
split_lines-append s [] ys = refl
split_lines-append s (x ∷ xs) ys = split_lines-append (split_line s x) xs ys

-- A block goes to one cut.
split_lines-IsBlock :
    (s : Splitter) (block : List (List ℕ))
    → s.quote.inside ≡ false
    → IsBlock block
    → split_lines s block ≡ record {
      statement = [];
      quote = s.quote;
      cut = s.cut ++ (s.statement ++ unlines block) ∷ [];
    }
unfolding split_lines
split_lines-IsBlock s [] out h = absurd h
split_lines-IsBlock s (line ∷ []) out ((plain, code), ends) =
    let statement = s.statement ++ (line ++ b'\n' ∷ []) in
    let u : Splitter = record { statement = []; quote = s.quote; cut = s.cut ++ statement ∷ [] } in
    let step : split_line s line ≡ u =
      ground (arith, scan_line_plain s.quote none line out plain) in
    step
    ∙ ap
        (λ (x : List ℕ). record {
          statement = [];
          quote = s.quote;
          cut = s.cut ++ (s.statement ++ x) ∷ [];
        })
        (sym (append-nil (line ++ b'\n' ∷ [])))
split_lines-IsBlock s (line ∷ next ∷ lines) out ((plain, code), open_, rest) =
    let statement = s.statement ++ (line ++ b'\n' ∷ []) in
    let t : Splitter = record s { statement = statement } in
    let step : split_line s line ≡ t =
      ground (arith, scan_line_plain s.quote none line out plain) in
    ap (λ u. split_lines u (next ∷ lines)) step
    ∙ split_lines-IsBlock t (next ∷ lines) out rest
    ∙ ap (λ (x : List ℕ). record { statement = []; quote = s.quote; cut = s.cut ++ x ∷ [] })
        (append_assoc s.statement (line ++ b'\n' ∷ []) (unlines (next ∷ lines)))

-- The lines of some blocks, one block after the other.
abbrev pub flatten : List (List (List ℕ)) → List (List ℕ)
flatten [] = []
flatten (block ∷ blocks) = block ++ flatten blocks

split_lines-flatten :
    (s : Splitter) (blocks : List (List (List ℕ)))
    → s.quote.inside ≡ false
    → s.statement ≡ []
    → All IsBlock blocks
    → split_lines s (flatten blocks)
      ≡ record { statement = []; quote = s.quote; cut = s.cut ++ map unlines blocks }
unfolding split_lines
split_lines-flatten s [] out empty h = ground (arith, append-nil s.cut)
split_lines-flatten s (block ∷ blocks) out empty (h, hs) =
    let t : Splitter = record {
      statement = [];
      quote = s.quote;
      cut = s.cut ++ unlines block ∷ [];
    } in
    let whole : s.statement ++ unlines block ≡ unlines block = ap (λ x. x ++ unlines block) empty in
    let step : split_lines s block ≡ t =
      split_lines-IsBlock s block out h
      ∙ ap (λ (x : List ℕ). record { statement = []; quote = s.quote; cut = s.cut ++ x ∷ [] })
          whole in
    split_lines-append s block (flatten blocks)
    ∙ ap (λ u. split_lines u (flatten blocks)) step
    ∙ split_lines-flatten t blocks out refl hs
    ∙ ap (λ (x : List (List ℕ)). record { statement = []; quote = s.quote; cut = x })
        (append_assoc s.cut (unlines block ∷ []) (map unlines blocks))

-- Statements that are written out on lines of their own, with no quotes, no lines that begin with a
-- comment, and a semicolon at the end of their last line only, are cut apart again as they were, and
-- nothing is left over.
pub split_lines-blocks :
    (blocks : List (List (List ℕ)))
    → All IsBlock blocks
    → ((split_lines start (flatten blocks)).cut ≡ map unlines blocks)
      × ((split_lines start (flatten blocks)).statement ≡ [])
split_lines-blocks blocks h =
    let whole = split_lines-flatten start blocks refl refl h in
    (ap (λ s. s.cut) whole, ap (λ s. s.statement) whole)
