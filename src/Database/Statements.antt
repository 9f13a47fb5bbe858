-- ===== src/Database/Statements.antt =====
-- How the consumer of rabbitmq/database-creation.consumer.ts cuts a migration into statements, and
-- which of these it leaves out. Texts are lists of code points.
pub mod Cuts
use nestjs_order_api.Base.{
  ℕ, zero, suc, ◌+◌, Bool, true, false, not, ◌&&◌, ◌||◌, Option, none, some, List, [], ◌∷◌, ◌++◌,
  ◌==◌, select, length, map, if◌then◌else◌,
}
use nestjs_order_api.Base.Chars.{
  codes, is_nil, trim, starts_with, ends_with, contains, upper, split_on,
}

-- `inString` and `stringChar`
pub record Quote : Type 0 where
  pub inside : Bool
  pub mark : ℕ

abbrev pub is_quote : ℕ → Bool
is_quote c = c == b'"' || c == b'\''

-- `line[i - 1] !== '\\'`
abbrev pub unescaped : Option ℕ → Bool
unescaped none = true
unescaped (some p) = not (p == b'\\')

abbrev pub scan_char : Quote → Option ℕ → ℕ → Quote
scan_char q previous c =
    if not q.inside && is_quote c
    then record { inside = true; mark = c }
    else if q.inside && c == q.mark && unescaped previous
    then record q { inside = false }
    else q

unfoldable pub scan_line : Quote → Option ℕ → List ℕ → Quote
scan_line q previous [] = q
scan_line q previous (c ∷ s) = scan_line (scan_char q previous c) (some c) s

-- `--`
abbrev pub comment : List ℕ
comment = b'-' ∷ b'-' ∷ []

abbrev pub is_comment : List ℕ → Bool
is_comment line = starts_with comment (trim line)

-- The variables of the loop, and the statements that are cut off so far, with all their white space.
pub record Splitter : Type 0 where
  pub statement : List ℕ
  pub quote : Quote
  pub cut : List (List ℕ)

abbrev pub take_line : Splitter → List ℕ → Splitter
take_line s line =
    let quote = scan_line s.quote none line in
    let statement = s.statement ++ (line ++ b'\n' ∷ []) in
    if not quote.inside && ends_with b';' (trim line)
    then record { statement = []; quote = quote; cut = s.cut ++ statement ∷ [] }
    else record { statement = statement; quote = quote; cut = s.cut }

-- One round of the loop over the lines.
abbrev pub split_line : Splitter → List ℕ → Splitter
split_line s line = if is_comment line && is_nil (trim s.statement) then s else take_line s line

unfoldable pub split_lines : Splitter → List (List ℕ) → Splitter
split_lines s [] = s
split_lines s (line ∷ lines) = split_lines (split_line s line) lines

abbrev pub start : Splitter
start = record { statement = []; quote = record { inside = false; mark = 0 }; cut = [] }

-- A statement counts if it is not empty and does not begin with a comment.
abbrev pub counts : List ℕ → Bool
counts statement = not (is_nil statement) && not (starts_with comment statement)

-- The statements of a migration, the last one with or without its semicolon.
unfoldable pub statements : List ℕ → List (List ℕ)
unfolding split_lines scan_line
statements sql =
    let s = split_lines start (split_on b'\n' sql) in
    select counts (map trim (s.cut ++ s.statement ∷ []))

-- `shouldSkipStatement`
unfoldable pub should_skip : List ℕ → Bool
should_skip statement =
    let s = map upper statement in
    contains (codes "CREATE TABLE \"USERS\"") s
    || contains (codes "CREATE TABLE 'USERS'") s
    || contains (codes "CREATE TABLE USERS") s
    || contains (codes "ALTER TABLE \"USERS\"") s
    || contains (codes "ALTER TABLE 'USERS'") s
    || contains (codes "ALTER TABLE USERS") s
    || contains (codes "CREATE UNIQUE INDEX") s
      && (contains (codes "\"USERS\"") s
          || contains (codes "'USERS'") s
          || contains (codes "USERS") s)
    || contains (codes "REFERENCES \"USERS\"") s
    || contains (codes "REFERENCES 'USERS'") s
    || contains (codes "REFERENCES USERS") s
    || contains (codes "ADD CONSTRAINT") s
      && (contains (codes "\"USERS\"") s
          || contains (codes "'USERS'") s
          || contains (codes "USERS") s)

-- The statements that are executed.
unfoldable pub executed : List ℕ → List (List ℕ)
unfolding statements should_skip
executed sql = select (λ s. not (should_skip s)) (statements sql)

-- The number that is recorded as `applied_steps_count`.
unfoldable pub statement_count : List ℕ → ℕ
statement_count sql = length (select (λ s. counts (trim s)) (split_on b';' sql))
