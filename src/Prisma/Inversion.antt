-- ===== src/Prisma/Inversion.antt =====
-- What a successful run says of its steps, and which runs leave the world's rows and queues alone.
use nestjs_order_api.Base.{String, Bool, true, false, Option, none, some, ◌≡◌, refl, ◌∙◌, arith}
use nestjs_order_api.Http.{Exn, Result, ok, err}
use nestjs_order_api.Schema.{Tables, Order}
use nestjs_order_api.Prisma.Rows.{OrderData}
use nestjs_order_api.Prisma.Monad.{World, Action, proceed, pure, ◌>>=◌, throw_if, or_throw}
use nestjs_order_api.Prisma.Effects.{Oracle, Effect, answered, reads, rewrite_order}

module _ {E : Type 0} where
  bind_cases :
      {A B : Type 0} (r : Result A × World E) (f : A → Action E B) {b : B} {w' : World E}
      → proceed r f ≡ (ok b, w')
      → (a : A) × (v : World E) × (r ≡ (ok a, v)) × (f a v ≡ (ok b, w'))
  bind_cases (ok a, v) f h = (a, v, refl, h)
  bind_cases (err e, v) f h = absurd (ground arith)

  -- A step that succeeds, and the rest from where it left the world.
  pub >>=-eq-ok :
      {A B : Type 0} (m : Action E A) (f : A → Action E B) (w : World E) {b : B} {w' : World E}
      → (m >>= f) w ≡ (ok b, w')
      → (a : A) × (v : World E) × (m w ≡ (ok a, v)) × (f a v ≡ (ok b, w'))
  >>=-eq-ok m f w h = bind_cases (m w) f h

  pub or_throw-eq-ok :
      {A : Type 0} (a : Option A) (e : Exn) (w : World E) {x : A} {w' : World E}
      → or_throw a e w ≡ (ok x, w')
      → (a ≡ some x) × (w' ≡ w)
  or_throw-eq-ok none e w h = ground arith
  or_throw-eq-ok (some a) e w h = ground arith

  pub throw_if-eq-ok :
      (c : Bool) (e : Exn) (w : World E) {x : Unit {0}} {w' : World E}
      → throw_if c e w ≡ (ok x, w')
      → (c ≡ false) × (w' ≡ w)
  throw_if-eq-ok true e w h = ground arith
  throw_if-eq-ok false e w h = ground arith

  pub answered-eq-ok :
      {A : Type 0} (o : Oracle E) (f : E → Effect A) (w : World E) {a : A} {w' : World E}
      → answered o f w ≡ (ok a, w')
      → (f w.env w.tables ≡ (ok a, w'.tables))
        × (w'.processing ≡ w.processing)
        × (w'.completed ≡ w.completed)
  answered-eq-ok o f w h = ground arith

-- The rows and the queues are the same.
abbrev pub Untouched : {E : Type 0} → World E → World E → Type 0
Untouched w w' =
    (w'.tables ≡ w.tables) × (w'.processing ≡ w.processing) × (w'.completed ≡ w.completed)

module _ {E : Type 0} where
  pub Untouched-trans : (u v w : World E) → Untouched u v → Untouched v w → Untouched u w
  Untouched-trans u v w (a, b, c) (a', b', c') = (a' ∙ a, b' ∙ b, c' ∙ c)

  -- An action that only reads.
  pub record IsReading {A : Type 0} (m : Action E A) : Type 0 where
    pub same : (w : World E) → Untouched w (m w).1

  -- An action that changes nothing if it throws.
  pub record IsAtomic {A : Type 0} (m : Action E A) : Type 0 where
    pub restores : (w : World E) {e : Exn} {w' : World E} → m w ≡ (err e, w') → Untouched w w'

  pub reads-IsReading :
      {A : Type 0} (o : Oracle E) (f : Tables → A) → IsReading (answered o (λ _. reads f))
  reads-IsReading o f = record { same = λ w. ground arith }

  pub throw_if-IsReading : (c : Bool) (e : Exn) → IsReading (throw_if c e)
  throw_if-IsReading c e = record { same = λ w. (refl, refl, refl) }

  pub or_throw-IsReading : {A : Type 0} (a : Option A) (e : Exn) → IsReading (or_throw {A = A} a e)
  or_throw-IsReading none e = record { same = λ w. (refl, refl, refl) }
  or_throw-IsReading (some a) e = record { same = λ w. (refl, refl, refl) }

  pub pure-IsReading : {A : Type 0} (a : A) → IsReading {A = A} (pure a)
  pure-IsReading a = record { same = λ w. (refl, refl, refl) }

  read_then :
      {A B : Type 0} (f : A → Action E B)
      → ((a : A) → IsReading (f a))
      → (w : World E) (r : Result A × World E) → Untouched w r.1
      → Untouched w (proceed r f).1
  read_then f k w (ok a, v) h = Untouched-trans w v (f a v).1 h ((k a).same v)
  read_then f k w (err e, v) h = h

  pub >>=-IsReading :
      {A B : Type 0} (m : Action E A) (f : A → Action E B)
      → IsReading m
      → ((a : A) → IsReading (f a))
      → IsReading (m >>= f)
  >>=-IsReading m f r k = record { same = λ w. read_then f k w (m w) (r.same w) }

  atomic_then :
      {A B : Type 0} (f : A → Action E B)
      → ((a : A) → IsAtomic (f a))
      → (w : World E) (r : Result A × World E) → Untouched w r.1
      → {e : Exn} {w' : World E} → proceed r f ≡ (err e, w')
      → Untouched w w'
  atomic_then f k w (ok a, v) u {w' = w'} h = Untouched-trans w v w' u ((k a).restores v h)
  atomic_then f k w (err e, v) u h = ground arith

  -- What fails after reading only has changed nothing.
  pub >>=-IsAtomic :
      {A B : Type 0} (m : Action E A) (f : A → Action E B)
      → IsReading m
      → ((a : A) → IsAtomic (f a))
      → IsAtomic (m >>= f)
  >>=-IsAtomic m f r k = record { restores = λ w h. atomic_then f k w (m w) (r.same w) h }

  -- A write that fails leaves the tables alone.
  pub answered-IsAtomic :
      {A : Type 0} (o : Oracle E) (f : E → Effect A)
      → ((e : E) (t : Tables) (x : Exn) (t' : Tables) → f e t ≡ (err x, t') → t' ≡ t)
      → IsAtomic (answered o f)
  answered-IsAtomic o f keep = record {
    restores = λ w {e} {w'} h. ground (arith, keep w.env w.tables e w'.tables);
  }

  pub rewrite_order-IsAtomic :
      {A : Type 0} (o : Oracle E) (id : String) (d : OrderData) (result : Tables → Order → A)
      → IsAtomic (answered o (λ _. rewrite_order id d result))
  rewrite_order-IsAtomic o id d result =
      answered-IsAtomic o (λ _. rewrite_order id d result) (λ e t x t' h. ground arith)

pub ruleset reading =
    (reads-IsReading, throw_if-IsReading, or_throw-IsReading, pure-IsReading, >>=-IsReading)
