-- ===== src/Database/Creation/Outcome.antt =====
-- About `handleDatabaseCreation`.
use mathlib.Core.Path.{subst}
use nestjs_order_api.Base.{ℕ, true, List, ◌∷◌, ◌⊎◌, inl, inr, includes, ◌≡◌, refl, sym, ap, arith}
use nestjs_order_api.Http.{Exn, Result, ok, err, message}
use nestjs_order_api.Prisma.{World, Creation}
use nestjs_order_api.Prisma.Inversion.{>>=-eq-ok}
use nestjs_order_api.Database.Commands.{own, drop_of, Postgres, Migration}
use nestjs_order_api.Database.Creation.{
  database_name, create_database_step, migrate_database, migrate_or_drop,
  create_and_migrate_tenant_database, handle_database_creation, settle_creation,
  deliver_first_creation, deliver_creation,
}

module _ {E : Type 0} (d : Postgres E) (prefix : List ℕ) (migrations : List Migration) where
  -- If the new database cannot be migrated, the next call drops it, and the error is the migration's.
  pub migrate_or_drop_failure :
      (name : List ℕ) (w : World E) {e : Exn} {w' : World E}
      → migrate_database d migrations name w ≡ (err e, w')
      → migrate_or_drop d migrations name w ≡ (err e, (d.execute own (drop_of name) w').1)
  unfolding migrate_or_drop
  migrate_or_drop_failure name w {e} {w'} h = ground arith

  -- If a migration of the new database fails with a message that contains "already exists", as a
  -- statement does that creates what is there, then the database is asked to be dropped and, whatever
  -- comes of that, the user is marked as having a database.
  dropped_and_marked :
      (m : Creation) (w w1 w2 : World E) (e : Exn)
      → create_database_step d (database_name prefix m.tenant_code) w ≡ (ok tt, w1)
      → migrate_database d migrations (database_name prefix m.tenant_code) w1 ≡ (err e, w2)
      → includes (message e) "already exists" ≡ true
      → handle_database_creation d prefix migrations m w
        ≡ d.mark_created m.user_id
            (d.execute own (drop_of (database_name prefix m.tenant_code)) w2).1
  unfolding handle_database_creation create_and_migrate_tenant_database
  dropped_and_marked m w w1 w2 e made broken same =
      ground (arith, migrate_or_drop_failure (database_name prefix m.tenant_code) w1 broken)

  settled :
      (m : Creation) (rest : List Creation) (w : World E) (r : Result (Unit {0}) × World E)
      → handle_database_creation d prefix migrations m w ≡ r
      → ((w1 w2 : World E) × (d.mark_created m.user_id w1 ≡ (ok tt, w2))
          × (settle_creation d m rest r ≡ record w2 { creations = rest }))
        ⊎ ((settle_creation d m rest r).creations ≡ m ∷ rest)
  unfolding handle_database_creation
  settled m rest w (ok tt, w2) h =
      let (x, w1, made, marked) =
        >>=-eq-ok (create_and_migrate_tenant_database d prefix migrations m.tenant_code) _ w h in
      inl (w1, w2, marked, refl)
  settled m rest w (err e, w2) h = inr refl

  -- One delivery from database-creation: the message is taken off the queue only after its user has
  -- been marked as having a database; otherwise it is first in the queue again.
  pub deliver_creation_outcome :
      (w : World E) (m : Creation) (rest : List Creation)
      → w.creations ≡ m ∷ rest
      → ((w1 w2 : World E) × (d.mark_created m.user_id w1 ≡ (ok tt, w2))
          × (deliver_creation d prefix migrations w ≡ record w2 { creations = rest }))
        ⊎ ((deliver_creation d prefix migrations w).creations ≡ m ∷ rest)
  unfolding deliver_creation
  deliver_creation_outcome w m rest e =
      let run = handle_database_creation d prefix migrations m w in
      let first : deliver_creation d prefix migrations w ≡ settle_creation d m rest run =
        ap (λ l. deliver_first_creation d prefix migrations l w) e in
      subst
        (λ u.
          ((w1 w2 : World E) × (d.mark_created m.user_id w1 ≡ (ok tt, w2))
            × (u ≡ record w2 { creations = rest }))
          ⊎ (u.creations ≡ m ∷ rest))
        (sym first) (settled m rest w run refl)
