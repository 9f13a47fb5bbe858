-- ===== src/Database/Creation.antt =====
-- rabbitmq/database-creation.consumer.ts: `handleDatabaseCreation`, `createAndMigrateTenantDatabase`
-- and the delivery of a message, which is in rabbitmq/rabbitmq.service.ts. The directory of migrations
-- is an argument.
pub mod Outcome
use nestjs_order_api.Base.{
  ℕ, ◌+◌, String, Bool, true, false, not, ◌&&◌, Option, none, some, List, [], ◌∷◌, ◌++◌, map, leb,
  includes, ◌<>◌, if◌then◌else◌,
}
use nestjs_order_api.Base.Chars.{codes}
use nestjs_order_api.Http.{Exn, Result, ok, err, failure, message}
use nestjs_order_api.Prisma.{World, Action, Creation, pure, throw, ◌>>=◌, ◌>>◌, catch}
use nestjs_order_api.Database.Statements.{executed, statement_count}
use nestjs_order_api.Database.Checksum.{calculate_checksum}
use nestjs_order_api.Database.Commands.{
  Target, admin, own, database, Command, create_of, drop_of, create_migrations_table,
  start_migration, run, finish_migration, roll_back_migration, Postgres, Migration, by_name,
}

-- `toLowerCase` on ASCII letters.
abbrev pub lower : ℕ → ℕ
lower c = if leb b'A' c && leb c b'Z' then c + 32 else c

-- `${this.databasePrefix}${tenantCode.toLowerCase()}`
abbrev pub database_name : List ℕ → String → List ℕ
database_name prefix tenant = prefix ++ map lower (codes tenant)

module _ {E : Type 0} where
  -- `try { m } finally { f }`
  abbrev pub after : Result (Unit {0}) × World E → Action E (Unit {0}) → Result (Unit {0}) × World E
  after (ok a, w) f = f w
  after (err e, w) f = (f >> throw e) w

module _ {E : Type 0} (d : Postgres E) where
  abbrev pub disconnect_admin : Target → Action E (Unit {0})
  disconnect_admin own = pure tt
  disconnect_admin t = d.disconnect t

  abbrev pub admin_client : Action E Target
  admin_client = catch (do d.connect admin; pure admin) (λ e. pure own)

  -- Step 1.
  unfoldable pub create_database_step : List ℕ → Action E (Unit {0})
  create_database_step name = do
    client ← admin_client
    λ w. after (d.execute client (create_of name) w) (disconnect_admin client)

  unfoldable pub run_statements : Target → List (List ℕ) → Action E (Unit {0})
  run_statements t [] = pure tt
  run_statements t (s ∷ ss) = do d.execute t (run s); run_statements t ss

  unfoldable pub apply_migration : Target → List ℕ → List ℕ → Action E (Unit {0})
  unfolding run_statements
  apply_migration t name sql = do
    id ← d.random_uuid
    d.execute t (start_migration id (calculate_checksum sql) name)
    catch
        (do
          run_statements t (executed sql)
          d.execute t (finish_migration id (statement_count sql)))
        (λ e. do d.execute t (roll_back_migration id); throw e)

  abbrev pub unless_recorded : Bool → Action E (Unit {0}) → Action E (Unit {0})
  unless_recorded true m = pure tt
  unless_recorded false m = m

  unfoldable pub migrate_file : Target → List ℕ → Option (List ℕ) → Action E (Unit {0})
  unfolding apply_migration
  migrate_file t name none = pure tt
  migrate_file t name (some sql) = do
    recorded ← d.is_recorded t name
    unless_recorded recorded (apply_migration t name sql)

  unfoldable pub migrate_files : Target → List Migration → Action E (Unit {0})
  unfolding migrate_file
  migrate_files t [] = pure tt
  migrate_files t (m ∷ ms) = do migrate_file t m.name m.sql; migrate_files t ms

  -- Steps 2 to 4.
  unfoldable pub migrate_database : List Migration → List ℕ → Action E (Unit {0})
  unfolding migrate_files by_name
  migrate_database migrations name = do
    d.connect (database name)
    d.execute (database name) create_migrations_table
    migrate_files (database name) (by_name migrations)
    d.disconnect (database name)

  -- A database that cannot be migrated is dropped again; that this fails is only logged.
  unfoldable pub migrate_or_drop : List Migration → List ℕ → Action E (Unit {0})
  unfolding migrate_database
  migrate_or_drop migrations name =
      catch (migrate_database migrations name)
        (λ e. do catch (d.execute own (drop_of name)) (λ f. pure tt); throw e)

  abbrev pub creation_error : Exn → Action E (Unit {0})
  creation_error e =
      if includes (message e) "already exists"
      then pure tt
      else throw (failure ("Failed to create and migrate tenant database: " <> message e))

  unfoldable pub create_and_migrate_tenant_database :
      List ℕ → List Migration → String → Action E (Unit {0})
  unfolding create_database_step migrate_or_drop
  create_and_migrate_tenant_database prefix migrations tenant =
      let name = database_name prefix tenant in
      catch (do create_database_step name; migrate_or_drop migrations name) creation_error

  unfoldable pub handle_database_creation : List ℕ → List Migration → Creation → Action E (Unit {0})
  unfolding create_and_migrate_tenant_database
  handle_database_creation prefix migrations m = do
    create_and_migrate_tenant_database prefix migrations m.tenant_code
    d.mark_created m.user_id

  abbrev pub settle_creation : Creation → List Creation → Result (Unit {0}) × World E → World E
  settle_creation m rest (ok _, w) = record w { creations = rest }
  settle_creation m rest (err _, w) = record w { creations = m ∷ rest }

  abbrev pub deliver_first_creation : List ℕ → List Migration → List Creation → World E → World E
  deliver_first_creation prefix migrations [] w = w
  deliver_first_creation prefix migrations (m ∷ rest) w =
      settle_creation m rest (handle_database_creation prefix migrations m w)

  -- One delivery of the first message of database-creation.
  unfoldable pub deliver_creation : List ℕ → List Migration → World E → World E
  unfolding handle_database_creation
  deliver_creation prefix migrations w = deliver_first_creation prefix migrations w.creations w
