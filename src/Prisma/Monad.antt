-- ===== src/Prisma/Monad.antt =====
-- Handlers as actions: they read and write the world, and return or throw. What was written before a
-- throw stays written.
use nestjs_order_api.Base.{String, Bool, Option, none, some, List, if◌then◌else◌}
use nestjs_order_api.Http.{Exn, Result, ok, err}
use nestjs_order_api.Schema.{Tables}

-- The messages of the queues order-processing and order-completed.
pub record Processing : Type 0 where
  pub order_id : String
  pub user_id : String
  pub tenant_code : String

pub record Completed : Type 0 where
  pub order_id : String
  pub user_id : String
  pub tenant_code : String
  pub transaction_id : String

-- The message of the queue database-creation.
pub record Creation : Type 0 where
  pub user_id : String
  pub tenant_code : String

-- Whether `RabbitMQService` has its `connection` and its `channel`.
pub record Connections : Type 0 where
  pub connection : Bool
  pub channel : Bool

-- The tenant's tables, the three queues, what the messaging service holds, and all else (`env`): connections, clock, random ids.
pub record World (E : Type 0) : Type 0 where
  pub tables : Tables
  pub processing : List Processing
  pub completed : List Completed
  pub creations : List Creation
  pub rabbit : Connections
  pub env : E

abbrev pub Action : Type 0 → Type 0 → Type 0
Action E A = World E → Result A × World E

module _ {E : Type 0} where
  abbrev pub pure {ℓ} : {A : Type ℓ} → A → World E → Result A × World E
  pure a w = (ok a, w)

  abbrev pub throw : {A : Type 0} → Exn → Action E A
  throw e w = (err e, w)

  -- What follows a step, by how the step ended.
  abbrev pub proceed : {A B : Type 0} → Result A × World E → (A → Action E B) → Result B × World E
  proceed (ok a, w) f = f a w
  proceed (err e, w) f = (err e, w)

  infixl 5 ◌>>=◌ ◌>>◌
  abbrev pub ◌>>=◌ : {A B : Type 0} → Action E A → (A → Action E B) → Action E B
  ◌>>=◌ m f w = proceed (m w) f

  abbrev pub ◌>>◌ : {A B : Type 0} → Action E A → Action E B → Action E B
  m >> k = m >>= λ _. k

  -- `if (c) throw e;`
  abbrev pub throw_if : Bool → Exn → Action E (Unit {0})
  throw_if c e w = (if c then err e else ok tt, w)

  -- `if (!a) throw e;`, with the value after it.
  abbrev pub or_throw : {A : Type 0} → Option A → Exn → Action E A
  or_throw none e w = (err e, w)
  or_throw (some a) e w = (ok a, w)

  abbrev pub recover : {A : Type 0} → Result A × World E → (Exn → Action E A) → Result A × World E
  recover (ok a, w) h = (ok a, w)
  recover (err e, w) h = h e w

  -- `try { m } catch (e) { h(e) }`
  abbrev pub catch : {A : Type 0} → Action E A → (Exn → Action E A) → Action E A
  catch m h w = recover (m w) h
