-- ===== src/Database/TenantMigration.antt =====
-- prisma/tenant-migration.service.ts: `migrateAllTenants`. The directory of migrations is an argument,
-- and so is how a tenant's code gives its database.
pub mod Results
use nestjs_order_api.Base.{
  ℕ, String, Bool, true, false, not, ◌&&◌, ◌||◌, Option, none, some, List, [], ◌∷◌, ◌++◌, map,
  length, select, ◌==◌, any, if◌then◌else◌,
}
use nestjs_order_api.Base.Chars.{is_nil, trim, starts_with, split_on}
use nestjs_order_api.Http.{Exn, message}
use nestjs_order_api.Prisma.{Action, pure, ◌>>=◌, ◌>>◌, catch}
use nestjs_order_api.Database.Statements.{comment}
use nestjs_order_api.Database.Commands.{
  Target, create_migrations_table, run, record_migration, Postgres, Migration, by_name,
}
use nestjs_order_api.Database.Creation.{run_statements}

-- `.` in a regular expression stops at these.
abbrev is_break : ℕ → Bool
is_break c = c == 10 || c == 13 || c == 0x2028 || c == 0x2029

-- `line.replace(/--.*$/, '')`
unfoldable pub strip_comment : List ℕ → List ℕ
strip_comment [] = []
strip_comment (c ∷ s) =
    let rest = strip_comment s in
    if starts_with comment (c ∷ s) && not (any is_break (c ∷ s)) then [] else c ∷ rest

-- `.join('\n')`
abbrev pub join_lines : List (List ℕ) → List ℕ
join_lines [] = []
join_lines (line ∷ []) = line
join_lines (line ∷ next ∷ lines) = line ++ b'\n' ∷ join_lines (next ∷ lines)

unfoldable pub plain_statements : List ℕ → List (List ℕ)
unfolding strip_comment
plain_statements sql =
    select (λ s. not (is_nil s))
      (map trim (split_on b';' (join_lines (map strip_comment (split_on b'\n' sql)))))

pub data MigrationStatus : Type 0 where
  applied already_applied : MigrationStatus
  failed : String → MigrationStatus

pub record MigrationResult : Type 0 where
  pub tenant_code : String
  pub migration : List ℕ
  pub status : MigrationStatus

module _ {E : Type 0} (d : Postgres E) (target_of : String → Target) where
  -- The body of the `try`: the statements, and the record that they were run.
  unfoldable pub run_migration : Target → List ℕ → List ℕ → Action E MigrationStatus
  unfolding plain_statements
  run_migration t name sql = do
    run_statements d t (map (λ s. s ++ b';' ∷ []) (plain_statements sql))
    d.execute t (record_migration name (length (plain_statements sql)))
    pure applied

  abbrev pub attempt : Bool → Action E MigrationStatus → Action E MigrationStatus
  attempt true m = pure already_applied
  attempt false m = catch m (λ e. pure (failed (message e)))

  -- A directory without the file is passed over; `rest` are the rounds that are left.
  abbrev pub with_file :
      String
      → List ℕ
      → Option (List ℕ)
      → Action E (List MigrationResult)
      → Action E (List MigrationResult)
  with_file code name none rest = rest
  with_file code name (some sql) rest = do
    recorded ← d.is_recorded (target_of code) name
    status ← attempt recorded (run_migration (target_of code) name sql)
    results ← rest
    pure (record { tenant_code = code; migration = name; status = status } ∷ results)

  unfoldable pub migrate_tenant_files : String → List Migration → Action E (List MigrationResult)
  unfolding run_migration
  migrate_tenant_files code [] = pure []
  migrate_tenant_files code (m ∷ ms) = with_file code m.name m.sql (migrate_tenant_files code ms)

  unfoldable pub migrate_tenant : List Migration → String → Action E (List MigrationResult)
  unfolding migrate_tenant_files by_name
  migrate_tenant migrations code = do
    d.connect (target_of code)
    d.execute (target_of code) create_migrations_table
    results ← migrate_tenant_files code (by_name migrations)
    d.disconnect (target_of code)
    pure results

  unfoldable pub migrate_tenants : List Migration → List String → Action E (List MigrationResult)
  unfolding migrate_tenant
  migrate_tenants migrations [] = pure []
  migrate_tenants migrations (code ∷ codes) = do
    results ← migrate_tenant migrations code
    more ← migrate_tenants migrations codes
    pure (results ++ more)

  -- The `results` of the answer.
  unfoldable pub migrate_all_tenants : List Migration → Action E (List MigrationResult)
  unfolding migrate_tenants
  migrate_all_tenants migrations = do codes ← d.tenants; migrate_tenants migrations codes
