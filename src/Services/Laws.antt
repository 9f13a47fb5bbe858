-- ===== src/Services/Laws.antt =====
-- The `catch` clause of the services: a success passes, and the handler touches nothing.
use nestjs_order_api.Base.{String, ◌≡◌, refl, inl, inr, arith, Bool-cases, includes}
use nestjs_order_api.Http.{Exn, Result, ok, err, message}
use nestjs_order_api.Prisma.{World, Action, recover}
use nestjs_order_api.Prisma.Inversion.{Untouched, IsReading, IsAtomic}
use nestjs_order_api.Services.{no_tenant, tenant_errors, guarded}

module _ {E : Type 0} {A : Type 0} (tenant : String) where
  -- The handler throws, and the world stays as it was.
  pub tenant_errors-eq :
      (e : Exn) (w : World E) → (e' : Exn) × (tenant_errors {A = A} tenant e w ≡ (err e', w))
  unfolding tenant_errors
  tenant_errors-eq e w = elim (Bool-cases (includes (message e) "does not exist")) [
    | inl found ↦ (no_tenant tenant, rw found)
    | inr other ↦ (e, rw other)
  ]

  recover-eq-ok :
      (r : Result A × World E) {a : A} {w' : World E}
      → recover r (tenant_errors tenant) ≡ (ok a, w')
      → r ≡ (ok a, w')
  recover-eq-ok (ok a, w) h = h
  recover-eq-ok (err e, w) h = absurd (ground (arith, (tenant_errors-eq e w).1))

  recover-Untouched :
      (w : World E) (r : Result A × World E)
      → Untouched w r.1
      → Untouched w (recover r (tenant_errors tenant)).1
  recover-Untouched w (ok a, v) h = h
  recover-Untouched w (err e, v) h = rw (tenant_errors-eq e v).1 h

  recover_restores :
      (w : World E) (r : Result A × World E)
      → ((e : Exn) → r.0 ≡ err e → Untouched w r.1)
      → {e : Exn} {w' : World E} → recover r (tenant_errors tenant) ≡ (err e, w')
      → Untouched w w'
  recover_restores w (ok a, v) h q = absurd (ground arith)
  recover_restores w (err e, v) h q = ground (arith, h e refl, (tenant_errors-eq e v).1)

  -- A success stands.
  pub guarded-eq-ok :
      (m : Action E A) (w : World E) {a : A} {w' : World E}
      → guarded tenant m w ≡ (ok a, w')
      → m w ≡ (ok a, w')
  unfolding guarded
  guarded-eq-ok m w h = recover-eq-ok (m w) h

  pub guarded-IsReading : (m : Action E A) → IsReading m → IsReading (guarded tenant m)
  unfolding guarded
  guarded-IsReading m r = record { same = λ w. recover-Untouched w (m w) (r.same w) }

  pub guarded-IsAtomic : (m : Action E A) → IsAtomic m → IsAtomic (guarded tenant m)
  unfolding guarded
  guarded-IsAtomic m r = record {
    restores = λ w h.
        recover_restores w (m w) (λ e q. r.restores w {e = e} {w' = (m w).1} (ground arith)) h;
  }
