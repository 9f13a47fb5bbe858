-- ===== src/Tests/Caching.antt =====
-- The cache over a Redis that holds two listings, at concrete inputs.
use mathlib.Core.Path.{subst}
use text.Mathlib.Text.{starts_with}
use text.Mathlib.TextLemmas.{cons-append}
use nestjs_order_api.Base.{
  String, Bool, true, false, any, select, Option, none, some, List, [], ◌∷◌, All, ◌<>◌, ◌===◌, ◌≡◌,
  ◌⊎◌, refl, sym, ap, ◌∙◌, arith, if◌then◌else◌, Bool-cases, inl, inr, eq_iff, eq_refl,
}
use nestjs_order_api.Http.{ok}
use nestjs_order_api.Schema.{pending}
use nestjs_order_api.Prisma.{World, pure}
use nestjs_order_api.Cache.{Redis, Json}
use nestjs_order_api.Cache.Interceptor.{CachedRequest, cached_call}
use nestjs_order_api.Cache.Store.{IsStore, IsUp}
use nestjs_order_api.Cache.Stale.{of_user, create_forgets}
use nestjs_order_api.Logging.{field}
use nestjs_order_api.Tests.{tables_in}

-- The rest of the world is what Redis holds.
abbrev Held : Type 0
Held = List (String × String)

drop_last : String → String
drop_last String.[] = String.[]
drop_last (String.◌∷◌ c String.[]) = String.[]
drop_last (String.◌∷◌ c (String.◌∷◌ d s)) = String.◌∷◌ c (drop_last (String.◌∷◌ d s))

drop_last-append : (p : String) → drop_last (p <> "*") ≡ p
unfolding drop_last
drop_last-append String.[] = refl
drop_last-append (String.◌∷◌ c String.[]) = rw (cons-append c String.[] "*") refl
drop_last-append (String.◌∷◌ c (String.◌∷◌ d s)) =
    let rest = drop_last-append (String.◌∷◌ d s) in
    rw (cons-append c (String.◌∷◌ d s) "*", cons-append d s "*")
      (ap (String.◌∷◌ c) (ap drop_last (sym (cons-append d s "*")) ∙ rest))

selected : (f : String → Bool) (ks : List String) → All (λ k. f k ≡ true) (select f ks)
selected f [] = tt
selected f (k ∷ ks) = elim (Bool-cases (f k)) [
  | inl kept ↦ rw kept (kept, selected f ks)
  | inr dropped ↦ rw dropped (selected f ks)
]

spared :
    (ks : List String) (k : String)
    → All (λ j. (j === k) ≡ false) ks
    → any (λ j. j === k) ks ≡ false
spared [] k h = refl
spared (j ∷ ks) k (h, hs) = rw (h, spared ks k hs) refl

-- The entries that are left without some keys.
without : List String → Held → Held
without ks [] = []
without ks ((k, v) ∷ es) =
    let rest = without ks es in if any (λ j. j === k) ks then rest else (k, v) ∷ rest

key_list : Held → List String
key_list [] = []
key_list ((k, v) ∷ es) = k ∷ key_list es

abbrev memory : Redis Held
memory = record {
  get = λ k w. (ok (field k w.env), w);
  setex = λ k ttl v w. (ok tt, record w { env = (k, v) ∷ w.env });
  del = λ ks w. (ok tt, record w { env = without ks w.env });
  keys = λ pattern w. (ok (select (λ k. starts_with k (drop_last pattern)) (key_list w.env)), w);
  ping = pure "PONG";
}

abbrev held : World Held → String → Option String
held w k = field k w.env

field-without :
    (ks : List String) (k : String) (es : Held)
    → field k (without ks es) ≡ (if any (λ j. j === k) ks then none else field k es)
unfolding field without
field-without ks k [] = ground arith
field-without ks k ((j, v) ∷ es) = elim (Bool-cases (j === k)) [
  | inl e ↦ rw ((eq_iff j k).0 e) (ground (arith, eq_refl k, field-without ks k es))
  | inr e ↦ ground (arith, field-without ks k es)
]

-- A key that passes a test and is held is among the selected ones.
selected_complete :
    (f : String → Bool) (k : String)
    → f k ≡ true
    → (es : Held) → (field k es ≡ none) ⊎ (any (λ j. j === k) (select f (key_list es)) ≡ true)
unfolding field key_list
selected_complete f k h [] = inl refl
selected_complete f k h ((j, v) ∷ es) = elim (Bool-cases (j === k)) [
  | inl e ↦ inr (rw ((eq_iff j k).0 e) (ground (arith, eq_refl k, h)))
  | inr e ↦ elim (selected_complete f k h es) [
    | inl gone ↦ inl (ground (arith, gone))
    | inr listed ↦ inr (ground (arith, listed))
  ]
]

memory-IsStore : IsStore memory held
memory-IsStore = record {
  get_lem = λ k w. (w, refl);
  keys_lem = λ pattern w. refl;
  keys_match = λ p w {ks} {w'} literal h.
      let found : select (λ k. starts_with k (drop_last (p <> "*"))) (key_list w.env) ≡ ks =
        ground arith in
      subst (λ (l : List String). All (λ k. starts_with k p ≡ true) l) found
        (subst
          (λ q. All (λ k. starts_with k p ≡ true) (select (λ k. starts_with k q) (key_list w.env)))
          (sym (drop_last-append p)) (selected (λ k. starts_with k p) (key_list w.env)));
  del_lem = λ ks w k h. field-without ks k w.env ∙ rw (spared ks k h) refl;
  keys_complete = λ p w {ks} {w'} literal h k mine.
      let found : select (λ j. starts_with j (drop_last (p <> "*"))) (key_list w.env) ≡ ks =
        ground arith in
      subst (λ l. (field k w.env ≡ none) ⊎ (any (λ j. j === k) l ≡ true)) found
        (subst
          (λ q.
            (field k w.env ≡ none)
            ⊎ (any (λ j. j === k) (select (λ j. starts_with j q) (key_list w.env)) ≡ true))
          (sym (drop_last-append p)) (selected_complete (λ j. starts_with j p) k mine w.env));
  del_removes = λ ks w k {w'} h listed.
      let after : without ks w.env ≡ w'.env = ground arith in
      ap (field k) (sym after) ∙ field-without ks k w.env ∙ rw listed refl;
}

memory-IsUp : IsUp memory
memory-IsUp = record {
  keys_answer =
      λ pattern w. (select (λ k. starts_with k (drop_last pattern)) (key_list w.env), w, refl);
  del_answer = λ ks w. (record w { env = without ks w.env }, refl);
}

abbrev filled_cache : World Held
filled_cache = record {
  tables = tables_in pending;
  processing = [];
  completed = [];
  creations = [];
  rabbit = record { connection = false; channel = false };
  env =
      ("default:OrderController:findAll:ann:", "old")
      ∷ ("default:OrderController:findAll:{}", "old")
      ∷ [];
}

abbrev placing : CachedRequest
placing = record {
  controller = "OrderController";
  method = "create";
  user_id = some "ann";
  params = [];
  query = [];
}

abbrev texts : Json Held String
texts = record { stringify_args = λ fs. "{}"; stringify = λ s. s; parse = λ s. pure s }

-- The listing without arguments goes.
create_forgets_example :
    held
      (cached_call memory texts
        (some "shop")
        none
        (some (of_user "findAll" ∷ []))
        placing
        (pure "placed")
        filled_cache).1
      "default:OrderController:findAll:ann:"
    ≡ none
create_forgets_example =
    create_forgets memory texts held memory-IsStore (some "shop") placing (pure "placed")
      filled_cache "ann" refl refl refl memory-IsUp "default:OrderController:findAll:ann:"
