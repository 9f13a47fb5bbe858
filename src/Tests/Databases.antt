-- ===== src/Tests/Databases.antt =====
-- Statements, identifiers, checksums and the migrations of tenants at concrete inputs.
use nestjs_order_api.Base.{ℕ, false, none, some, List, [], ◌∷◌, map, length, ◌≡◌, ◌⊎◌, refl}
use nestjs_order_api.Base.Chars.{codes, trim, starts_with, ends_with}
use nestjs_order_api.Http.{Exn, Result, ok, err, failure}
use nestjs_order_api.Schema.{pending}
use nestjs_order_api.Prisma.{World, Creation, pure}
use nestjs_order_api.Database.Identifier.{escape_identifier-inj}
use nestjs_order_api.Database.Checksum.{hash_of, bits, abs, calculate_checksum}
use nestjs_order_api.Database.Checksum.Word.{poly_hash, read_hex, checksum_digits}
use nestjs_order_api.Database.Statements.{start, split_lines}
use nestjs_order_api.Database.Statements.Cuts.{unlines, flatten, split_lines-blocks}
use nestjs_order_api.Database.Commands.{Command, run, Postgres, Migration}
use nestjs_order_api.Database.Creation.{deliver_creation}
use nestjs_order_api.Database.Creation.Outcome.{deliver_creation_outcome}
use nestjs_order_api.Tests.{tables_in, world}

-- A tenant code with a quote in it.
abbrev nasty : List ℕ
nasty = codes "tenant_a\"; DROP"

escape_identifier-inj_example : (nasty ≡ nasty) × (codes ";" ≡ codes ";")
unfolding starts_with
escape_identifier-inj_example =
    escape_identifier-inj nasty nasty (codes ";") (codes ";") refl refl refl

checksum_digits_example :
    (length (calculate_checksum (codes "CREATE TABLE")) ≡ 8)
    × (read_hex 0 (calculate_checksum (codes "CREATE TABLE"))
        ≡ abs (hash_of (codes "CREATE TABLE")))
    × (bits (hash_of (codes "CREATE TABLE")) ≡ poly_hash (codes "CREATE TABLE"))
checksum_digits_example = checksum_digits (codes "CREATE TABLE")

abbrev two_statements : List (List (List ℕ))
two_statements = (codes "A" ∷ codes "B;" ∷ []) ∷ (codes "C;" ∷ []) ∷ []

split_lines-blocks_example :
    ((split_lines start (flatten two_statements)).cut ≡ map unlines two_statements)
    × ((split_lines start (flatten two_statements)).statement ≡ [])
unfolding starts_with ends_with trim
split_lines-blocks_example = split_lines-blocks two_statements (
  (((refl, tt), refl), refl, (((refl, (refl, tt)), refl), refl)),
  ((((refl, (refl, tt)), refl), refl), tt),
)

-- A PostgreSQL whose statements fail with an error that is given.
abbrev existing : Exn
existing = failure "relation already exists"

abbrev ran : Command → World ℕ → Result (Unit {0}) × World ℕ
ran (run s) w = (err existing, w)
ran _ w = (ok tt, w)

abbrev postgres : Postgres ℕ
postgres = record {
  connect = λ t. pure tt;
  execute = λ t c. ran c;
  is_recorded = λ t name. pure false;
  disconnect = λ t. pure tt;
  random_uuid = pure [];
  mark_created = λ id. pure tt;
  tenants = pure ("shop" ∷ []);
}

abbrev migrations : List Migration
migrations =
    record { name = codes "2"; sql = none }
    ∷ record { name = codes "1"; sql = some (codes "A") }
    ∷ []

abbrev asked : Creation
asked = record { user_id = "ann"; tenant_code = "Shop" }

abbrev waiting : World ℕ
waiting = record (world (tables_in pending) 0) { creations = asked ∷ [] }

deliver_creation_outcome_example :
    ((w1 w2 : World ℕ) × (postgres.mark_created "ann" w1 ≡ (ok tt, w2))
      × (deliver_creation postgres [] migrations waiting ≡ record w2 { creations = [] }))
    ⊎ ((deliver_creation postgres [] migrations waiting).creations ≡ asked ∷ [])
deliver_creation_outcome_example =
    deliver_creation_outcome postgres [] migrations waiting asked [] refl
