-- ===== src/Database/Commands.antt =====
-- What the two migration services ask of PostgreSQL, through Prisma's raw calls, and of the file system.
use nestjs_order_api.Base.{
  ℕ, String, Bool, true, false, List, [], ◌∷◌, Option, ltb, ◌==◌, ◌&&◌, ◌||◌, if◌then◌else◌,
}
use nestjs_order_api.Prisma.{Action}
use nestjs_order_api.Database.Identifier.{escape_identifier}

-- Whose connection: the client for the database `postgres`, the service's own client, or the client of
-- the database of a tenant.
pub data Target : Type 0 where
  admin own : Target
  database : List ℕ → Target

-- The statements, by their templates and what is put into these.
pub data Command : Type 0 where
  create_database drop_database : List ℕ → Command
  create_migrations_table : Command
  start_migration : (id checksum name : List ℕ) → Command
  run : List ℕ → Command
  finish_migration : (id : List ℕ) → ℕ → Command
  roll_back_migration : List ℕ → Command
  record_migration : (name : List ℕ) → ℕ → Command

-- The identifier is escaped when the statement is written.
abbrev pub create_of : List ℕ → Command
create_of name = create_database (escape_identifier name)

abbrev pub drop_of : List ℕ → Command
drop_of name = drop_database (escape_identifier name)

pub record Postgres (E : Type 0) : Type 0 where
  pub connect : Target → Action E (Unit {0})
  pub execute : Target → Command → Action E (Unit {0})
  -- Whether a migration of that name is recorded.
  pub is_recorded : Target → List ℕ → Action E Bool
  pub disconnect : Target → Action E (Unit {0})
  pub random_uuid : Action E (List ℕ)
  -- The default database: `isDatabaseCreated` of a user, and the codes of the tenants that have it.
  pub mark_created : String → Action E (Unit {0})
  pub tenants : Action E (List String)

-- A directory of prisma/tenant_migrations and its migration.sql, if there is one.
pub record Migration : Type 0 where
  pub name : List ℕ
  pub sql : Option (List ℕ)

-- `.sort()`: the order of texts by their characters.
abbrev pub name_le : List ℕ → List ℕ → Bool
name_le [] t = true
name_le (c ∷ s) [] = false
name_le (c ∷ s) (d ∷ t) = ltb c d || c == d && name_le s t

unfoldable pub insert_name : Migration → List Migration → List Migration
insert_name m [] = m ∷ []
insert_name m (n ∷ ns) = if name_le m.name n.name then m ∷ n ∷ ns else n ∷ insert_name m ns

unfoldable pub by_name : List Migration → List Migration
unfolding insert_name
by_name [] = []
by_name (m ∷ ms) = insert_name m (by_name ms)
