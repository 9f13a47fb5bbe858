-- ===== src/Database/TenantMigration/Results.antt =====
-- About the results of `migrateAllTenants`.
use nestjs_order_api.Base.{
  ℕ, String, Option, none, some, List, [], ◌∷◌, ◌++◌, map, ◌≡◌, refl, sym, ap, ◌∙◌, arith,
}
use nestjs_order_api.Http.{ok}
use nestjs_order_api.Prisma.{World, Action}
use nestjs_order_api.Prisma.Inversion.{>>=-eq-ok}
use nestjs_order_api.Database.Commands.{
  create_migrations_table, Target, Postgres, Migration, by_name,
}
use nestjs_order_api.Database.TenantMigration.{
  MigrationResult, run_migration, attempt, with_file, migrate_tenant_files, migrate_tenant,
  migrate_tenants, migrate_all_tenants,
}

-- Which migration of which tenant a result is about.
abbrev about : MigrationResult → String × List ℕ
about r = (r.tenant_code, r.migration)

-- One for every migration that has a file.
abbrev due_file :
    String → List ℕ → Option (List ℕ) → List (String × List ℕ) → List (String × List ℕ)
due_file code name none rest = rest
due_file code name (some sql) rest = (code, name) ∷ rest

abbrev due : String → List Migration → List (String × List ℕ)
due code [] = []
due code (m ∷ ms) = due_file code m.name m.sql (due code ms)

abbrev all_due : List Migration → List String → List (String × List ℕ)
all_due migrations [] = []
all_due migrations (code ∷ codes) = due code (by_name migrations) ++ all_due migrations codes

map-append : (rs ss : List MigrationResult) → map about (rs ++ ss) ≡ map about rs ++ map about ss
map-append [] ss = refl
map-append (r ∷ rs) ss = ap (λ l. about r ∷ l) (map-append rs ss)

module _ {E : Type 0} (d : Postgres E) (target_of : String → Target) where
  with_file-due :
      (code : String) (name : List ℕ) (sql : Option (List ℕ))
      (rest : Action E (List MigrationResult)) (due_rest : List (String × List ℕ)) (w : World E)
      {rs : List MigrationResult} {w' : World E}
      → ((u : World E) (ss : List MigrationResult) (u' : World E)
          → rest u ≡ (ok ss, u')
          → map about ss ≡ due_rest)
      → with_file d target_of code name sql rest w ≡ (ok rs, w')
      → map about rs ≡ due_file code name sql due_rest
  with_file-due code name none rest due_rest w {rs} {w'} ih h = ih w rs w' h
  with_file-due code name (some sql) rest due_rest w {rs} {w'} ih h =
      let (recorded, w1, r1, h1) = >>=-eq-ok (d.is_recorded (target_of code) name) _ w h in
      let (status, w2, r2, h2) =
        >>=-eq-ok
          (attempt d target_of recorded (run_migration d target_of (target_of code) name sql)) _ w1
          h1 in
      let (results, w3, r3, h3) = >>=-eq-ok rest _ w2 h2 in
      let whole : record { tenant_code = code; migration = name; status = status } ∷ results ≡ rs =
        ground arith in
      ap (map about) (sym whole) ∙ ap (λ l. (code, name) ∷ l) (ih w2 results w3 r3)

  migrate_tenant_files-due :
      (code : String) (ms : List Migration) (w : World E) (rs : List MigrationResult) (w' : World E)
      → migrate_tenant_files d target_of code ms w ≡ (ok rs, w')
      → map about rs ≡ due code ms
  unfolding migrate_tenant_files
  migrate_tenant_files-due code [] w rs w' h =
      let none_left : [] ≡ rs = ground arith in ap (map about) (sym none_left)
  migrate_tenant_files-due code (m ∷ ms) w rs w' h =
      with_file-due code m.name m.sql (migrate_tenant_files d target_of code ms) (due code ms) w
        (migrate_tenant_files-due code ms) h

  migrate_tenant-due :
      (migrations : List Migration) (code : String) (w : World E) {rs : List MigrationResult}
      {w' : World E}
      → migrate_tenant d target_of migrations code w ≡ (ok rs, w')
      → map about rs ≡ due code (by_name migrations)
  unfolding migrate_tenant
  migrate_tenant-due migrations code w {rs} {w'} h =
      let (x1, w1, r1, h1) = >>=-eq-ok (d.connect (target_of code)) _ w h in
      let (x2, w2, r2, h2) =
        >>=-eq-ok (d.execute (target_of code) create_migrations_table) _ w1 h1 in
      let (results, w3, r3, h3) =
        >>=-eq-ok (migrate_tenant_files d target_of code (by_name migrations)) _ w2 h2 in
      let (x4, w4, r4, h4) = >>=-eq-ok (d.disconnect (target_of code)) _ w3 h3 in
      let whole : results ≡ rs = ground arith in
      ap (map about) (sym whole)
      ∙ migrate_tenant_files-due code (by_name migrations) w2 results w3 r3

  migrate_tenants-due :
      (migrations : List Migration) (codes : List String) (w : World E) {rs : List MigrationResult}
      {w' : World E}
      → migrate_tenants d target_of migrations codes w ≡ (ok rs, w')
      → map about rs ≡ all_due migrations codes
  unfolding migrate_tenants
  migrate_tenants-due migrations [] w {rs} h =
      let none_left : [] ≡ rs = ground arith in ap (map about) (sym none_left)
  migrate_tenants-due migrations (code ∷ codes) w {rs} h =
      let (results, w1, r1, h1) = >>=-eq-ok (migrate_tenant d target_of migrations code) _ w h in
      let (more, w2, r2, h2) = >>=-eq-ok (migrate_tenants d target_of migrations codes) _ w1 h1 in
      let whole : results ++ more ≡ rs = ground arith in
      ap (map about) (sym whole)
      ∙ map-append results more
      ∙ ap (λ l. l ++ map about more) (migrate_tenant-due migrations code w r1)
      ∙ ap (λ l. due code (by_name migrations) ++ l) (migrate_tenants-due migrations codes w1 r2)

  -- When `migrateAllTenants` answers, its results are about each tenant and each migration that has a
  -- file, tenant by tenant, in the order that `by_name` gives the migrations; none is left out, whatever
  -- its status.
  migrate_all_tenants-all_due :
      (migrations : List Migration) (w : World E) {rs : List MigrationResult} {w' : World E}
      → migrate_all_tenants d target_of migrations w ≡ (ok rs, w')
      → (codes : List String) × (w1 : World E) × (d.tenants w ≡ (ok codes, w1))
        × (map about rs ≡ all_due migrations codes)
  unfolding migrate_all_tenants
  migrate_all_tenants-all_due migrations w h =
      let (codes, w1, r1, h1) = >>=-eq-ok d.tenants _ w h in
      (codes, w1, r1, migrate_tenants-due migrations codes w1 h1)
