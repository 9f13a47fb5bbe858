-- ===== src/Order/Machine/Bystanders.antt =====
-- Actions that leave the lines of orders alone, and the clock of the ids that the database gives.
use nestjs_order_api.Base.{ℕ, ◌≤◌, ◌<◌, String, Bool, Option, none, some, ◌≡◌, refl, ◌∙◌, arith}
use nestjs_order_api.Http.{Exn, Result, ok, err}
use nestjs_order_api.Schema.{Tables, Order, Product}
use nestjs_order_api.Prisma.{
  World, Action, pure, throw, ◌>>=◌, throw_if, or_throw, catch, recover, proceed,
}
use nestjs_order_api.Prisma.Rows.{NewOrder, OrderData, NewProduct}
use nestjs_order_api.Prisma.Effects.{
  Oracle, Effect, answered, reads, rewrite_order, rewrite_product, insert_order, insert_product,
  drop_product,
}
use nestjs_order_api.Prisma.Laws.{product_page}
use nestjs_order_api.Services.{guarded, tenant_errors}
use nestjs_order_api.Services.Laws.{tenant_errors-eq}

-- What is documented of UUIDs: an id that the database gives is new. Ids have a time, and the time of
-- the outside world moves on with each call.
pub record IsUuid {E : Type 0} (o : Oracle E) : Type 0 where
  pub serial : String → ℕ
  pub clock : E → ℕ
  pub fresh_lem : (e : E) → serial (o.fresh_id e) ≡ clock e
  pub next_lem : (e : E) → clock e < clock (o.next e)

module _ {E : Type 0} (o : Oracle E) (ids : IsUuid o) where
  abbrev pub Kept : World E → World E → Type 0
  Kept w w' = (w'.tables.items ≡ w.tables.items) × (ids.clock w.env ≤ ids.clock w'.env)

  pub record IsBystander {A : Type 0} (m : Action E A) : Type 0 where
    pub keeps : (w : World E) → Kept w (m w).1

  pub Kept-trans : (u v w : World E) → Kept u v → Kept v w → Kept u w
  Kept-trans u v w (a, b) (c, d) = (c ∙ a, omega arith)

  answered-IsBystander :
      {A : Type 0} (f : E → Effect A)
      → ((e : E) (t : Tables) → (f e t).1.items ≡ t.items)
      → IsBystander (answered o f)
  answered-IsBystander f same = record {
    keeps = λ w. ground (arith, same w.env w.tables, ids.next_lem w.env);
  }

  pub reads-IsBystander : {A : Type 0} (f : Tables → A) → IsBystander (answered o (λ _. reads f))
  reads-IsBystander f = answered-IsBystander (λ _. reads f) (λ e t. refl)

  pub lists-IsBystander :
      (skip count : ℕ) → IsBystander (answered o (λ e. reads (product_page (o.rank e) skip count)))
  lists-IsBystander skip count =
      answered-IsBystander (λ e. reads (product_page (o.rank e) skip count)) (λ e t. refl)

  pub rewrite_order-IsBystander :
      {A : Type 0} (id : String) (d : OrderData) (result : Tables → Order → A)
      → IsBystander (answered o (λ _. rewrite_order id d result))
  rewrite_order-IsBystander id d result =
      answered-IsBystander (λ _. rewrite_order id d result) (λ e t. ground arith)

  pub rewrite_product-IsBystander :
      (id : String) (f : Product → Product) → IsBystander (answered o (λ _. rewrite_product id f))
  rewrite_product-IsBystander id f =
      answered-IsBystander (λ _. rewrite_product id f) (λ e t. ground arith)

  pub insert_order-IsBystander :
      (d : NewOrder) → IsBystander (answered o (λ e. insert_order (o.fresh_id e) (o.now e) d))
  insert_order-IsBystander d =
      answered-IsBystander (λ e. insert_order (o.fresh_id e) (o.now e) d) (λ e t. refl)

  pub insert_product-IsBystander :
      (d : NewProduct) → IsBystander (answered o (λ e. insert_product (o.fresh_id e) (o.now e) d))
  insert_product-IsBystander d =
      answered-IsBystander (λ e. insert_product (o.fresh_id e) (o.now e) d) (λ e t. refl)

  pub drop_product-IsBystander : (id : String) → IsBystander (answered o (λ _. drop_product id))
  drop_product-IsBystander id = answered-IsBystander (λ _. drop_product id) (λ e t. ground arith)

  pub pure-IsBystander : {A : Type 0} (a : A) → IsBystander {A = A} (pure a)
  pure-IsBystander a = record { keeps = λ w. (refl, omega arith) }

  pub throw-IsBystander : {A : Type 0} (e : Exn) → IsBystander {A = A} (throw e)
  throw-IsBystander e = record { keeps = λ w. (refl, omega arith) }

  pub throw_if-IsBystander : (c : Bool) (e : Exn) → IsBystander (throw_if c e)
  throw_if-IsBystander c e = record { keeps = λ w. (refl, omega arith) }

  pub or_throw-IsBystander :
      {A : Type 0} (a : Option A) (e : Exn) → IsBystander (or_throw {A = A} a e)
  or_throw-IsBystander none e = record { keeps = λ w. (refl, omega arith) }
  or_throw-IsBystander (some a) e = record { keeps = λ w. (refl, omega arith) }

  keeps_then :
      {A B : Type 0} (f : A → Action E B)
      → ((a : A) → IsBystander (f a))
      → (w : World E) (r : Result A × World E) → Kept w r.1
      → Kept w (proceed r f).1
  keeps_then f k w (ok a, v) h = Kept-trans w v (f a v).1 h ((k a).keeps v)
  keeps_then f k w (err e, v) h = h

  pub >>=-IsBystander :
      {A B : Type 0} (m : Action E A) (f : A → Action E B)
      → IsBystander m
      → ((a : A) → IsBystander (f a))
      → IsBystander (m >>= f)
  >>=-IsBystander m f r k = record { keeps = λ w. keeps_then f k w (m w) (r.keeps w) }

  keeps_after :
      {A : Type 0} (h : Exn → Action E A)
      → ((e : Exn) → IsBystander (h e))
      → (w : World E) (r : Result A × World E) → Kept w r.1
      → Kept w (recover r h).1
  keeps_after h k w (ok a, v) kept = kept
  keeps_after h k w (err e, v) kept = Kept-trans w v (h e v).1 kept ((k e).keeps v)

  pub catch-IsBystander :
      {A : Type 0} (m : Action E A) (h : Exn → Action E A)
      → IsBystander m
      → ((e : Exn) → IsBystander (h e))
      → IsBystander (catch m h)
  catch-IsBystander m h r k = record { keeps = λ w. keeps_after h k w (m w) (r.keeps w) }

  tenant_errors-IsBystander :
      {A : Type 0} (tenant : String) (e : Exn) → IsBystander (tenant_errors {A = A} tenant e)
  tenant_errors-IsBystander {A} tenant e = record {
    keeps = λ w. rw (tenant_errors-eq {A = A} tenant e w).1 (refl, omega arith);
  }

  pub guarded-IsBystander :
      {A : Type 0} (tenant : String) (m : Action E A)
      → IsBystander m
      → IsBystander (guarded tenant m)
  unfolding guarded
  guarded-IsBystander tenant m r =
      catch-IsBystander m (tenant_errors tenant) r (tenant_errors-IsBystander tenant)

pub ruleset leaving = (
  reads-IsBystander, lists-IsBystander, rewrite_order-IsBystander, rewrite_product-IsBystander,
  insert_order-IsBystander, insert_product-IsBystander, drop_product-IsBystander, pure-IsBystander,
  throw-IsBystander, throw_if-IsBystander, or_throw-IsBystander, >>=-IsBystander, catch-IsBystander,
  guarded-IsBystander,
)
