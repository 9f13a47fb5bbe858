-- ===== src/Cache/Store.antt =====
-- What is documented of Redis, whose entries are a function of the world, and what the deletions of
-- common/services/cache.service.ts spare.
use text.Mathlib.Text.{starts_with}
use text.Mathlib.TextLemmas.{append_assoc}
use nestjs_order_api.Base.{
  String, Bool, Bool-cases, inl, inr, true, false, not, any, Option, none, some, List, [], ◌∷◌, All,
  ◌==◌, ◌||◌, ◌<>◌, ◌===◌, ◌≡◌, ◌⊎◌, if◌then◌else◌, refl, sym, ap, ◌∙◌, arith, eq_iff,
}
use nestjs_order_api.Base.Chars.{codes}
use nestjs_order_api.Http.{Result, ok, err}
use nestjs_order_api.Prisma.{World, Action, recover, proceed}
use nestjs_order_api.Cache.{
  Redis, Json, Args, tenant_code, generate_cache_key, get, del, del_keys, del_method_user_keys,
}
use nestjs_order_api.Cache.Interceptor.{CacheOptions, CachedRequest, read_key, cached_call}

-- A text without the characters that mean something in a pattern of KEYS.
abbrev pub is_literal : String → Bool
is_literal s =
    not (any (λ c. c == b'*' || c == b'?' || c == b'[' || c == b']' || c == b'\\') (codes s))

-- Entries may also expire; these laws are about the calls.
pub record IsStore {E : Type 0} (redis : Redis E) (entries : World E → String → Option String)
    : Type 0 where
  pub get_lem :
      (k : String) (w : World E) → (w' : World E) × (redis.get k w ≡ (ok (entries w k), w'))
  pub keys_lem : (pattern : String) (w : World E) → entries (redis.keys pattern w).1 ≡ entries w
  pub keys_match :
      (p : String) (w : World E) {ks : List String} {w' : World E}
      → is_literal p ≡ true
      → redis.keys (p <> "*") w ≡ (ok ks, w')
      → All (λ k. starts_with k p ≡ true) ks
  pub del_lem :
      (ks : List String) (w : World E) (k : String)
      → All (λ j. (j === k) ≡ false) ks
      → entries (redis.del ks w).1 k ≡ entries w k
  pub keys_complete :
      (p : String) (w : World E) {ks : List String} {w' : World E}
      → is_literal p ≡ true
      → redis.keys (p <> "*") w ≡ (ok ks, w')
      → (k : String) → starts_with k p ≡ true
      → (entries w k ≡ none) ⊎ (any (λ j. j === k) ks ≡ true)
  pub del_removes :
      (ks : List String) (w : World E) (k : String) {w' : World E}
      → redis.del ks w ≡ (ok tt, w')
      → any (λ j. j === k) ks ≡ true
      → entries w' k ≡ none

-- The commands KEYS and DEL are answered.
pub record IsUp {E : Type 0} (redis : Redis E) : Type 0 where
  pub keys_answer :
      (pattern : String) (w : World E)
      → (ks : List String) × (w' : World E) × (redis.keys pattern w ≡ (ok ks, w'))
  pub del_answer :
      (ks : List String) (w : World E) → (w' : World E) × (redis.del ks w ≡ (ok tt, w'))

none_listed :
    (ks : List String) (k : String)
    → any (λ j. j === k) ks ≡ false
    → All (λ j. (j === k) ≡ false) ks
none_listed [] k h = tt
none_listed (j ∷ ks) k h = (ground arith, none_listed ks k (ground arith))

-- The pattern of `delMethodUserKeys` is its prefix and a star.
pattern_prefix :
    (a b c d e f g : String)
    → (a <> b <> c <> d <> e <> f <> g) <> "*" ≡ a <> b <> c <> d <> e <> f <> g <> "*"
pattern_prefix a b c d e f g = simp append_assoc

no_match :
    (p k : String)
    → starts_with k p ≡ false
    → (ks : List String) → All (λ j. starts_with j p ≡ true) ks
    → All (λ j. (j === k) ≡ false) ks
no_match p k other [] h = tt
no_match p k other (j ∷ ks) (h, hs) = (ground (arith, eq_iff j k), no_match p k other ks hs)

module _ {E A : Type 0} (redis : Redis E) (json : Json E A)
    (entries : World E → String → Option String) (store : IsStore redis entries)
    (tenant : Option String) where
  recovered_entries :
      {B : Type 0} (r : Result B × World E) (b : B)
      → entries (recover r (λ e. (λ v. (ok b, v)))).1 ≡ entries r.1
  recovered_entries (ok a, w) b = refl
  recovered_entries (err e, w) b = refl

  pub del-spares :
      (controller method : String) (args : Args) (override : Option String) (w : World E)
      (k : String)
      → (generate_cache_key redis json tenant controller method args override === k) ≡ false
      → entries (del redis json tenant controller method args override w).1 k ≡ entries w k
  unfolding del
  del-spares controller method args override w k other =
      let key = generate_cache_key redis json tenant controller method args override in
      ap (λ f. f k) (recovered_entries (redis.del (key ∷ []) w) tt)
      ∙ store.del_lem (key ∷ []) w k (other, tt)

  del_keys-spares :
      (ks : List String) (w : World E) (k : String)
      → All (λ j. (j === k) ≡ false) ks
      → entries (del_keys redis json tenant ks w).1 k ≡ entries w k
  del_keys-spares [] w k h = refl
  del_keys-spares (j ∷ ks) w k h = store.del_lem (j ∷ ks) w k h

  proceed_entries :
      (r : Result (List String) × World E) (k : String)
      → ((ks : List String) (v : World E) → r ≡ (ok ks, v) → All (λ j. (j === k) ≡ false) ks)
      → entries (proceed r (del_keys redis json tenant)).1 k ≡ entries r.1 k
  proceed_entries (ok ks, v) k h = del_keys-spares ks v k (h ks v refl)
  proceed_entries (err e, v) k h = refl

  pub del_method_user_keys-spares :
      (controller method user : String) (override : Option String) (w : World E) (k : String)
      → let p =
          tenant_code redis json tenant override
          <> ":"
          <> controller
          <> ":"
          <> method
          <> ":"
          <> user in
        is_literal p ≡ true
        → starts_with k p ≡ false
        → entries (del_method_user_keys redis json tenant controller method user override w).1 k
          ≡ entries w k
  unfolding del_method_user_keys
  del_method_user_keys-spares controller method user override w k literal other =
      let a = tenant_code redis json tenant override in
      let p = a <> ":" <> controller <> ":" <> method <> ":" <> user in
      let pattern = a <> ":" <> controller <> ":" <> method <> ":" <> user <> "*" in
      let same : p <> "*" ≡ pattern = pattern_prefix a ":" controller ":" method ":" user in
      ap (λ f. f k)
        (recovered_entries (proceed (redis.keys pattern w) (del_keys redis json tenant)) tt)
      ∙ proceed_entries (redis.keys pattern w) k (λ ks v run.
        no_match p k other ks (store.keys_match p w literal (ap (λ q. redis.keys q w) same ∙ run)))
      ∙ ap (λ f. f k) (store.keys_lem pattern w)

  del_keys-forgets :
      IsUp redis
      → (ks : List String) (w : World E) (k : String)
      → (entries w k ≡ none) ⊎ (any (λ j. j === k) ks ≡ true)
      → entries (del_keys redis json tenant ks w).1 k ≡ none
  del_keys-forgets up [] w k (inl gone) = gone
  del_keys-forgets up [] w k (inr h) = absurd (ground arith)
  del_keys-forgets up (j ∷ js) w k there = elim (Bool-cases (any (λ i. i === k) (j ∷ js))) [
    | inl listed ↦
        let (w', run) = up.del_answer (j ∷ js) w in
        ap (λ r. entries r.1 k) run ∙ store.del_removes (j ∷ js) w k run listed
    | inr spared ↦
        store.del_lem (j ∷ js) w k (none_listed (j ∷ js) k spared)
        ∙ (elim there [ inl gone ↦ gone | inr listed ↦ absurd (ground arith) ])
  ]

  -- The keys that begin with the prefix are gone, and all others are as they were.
  pub del_method_user_keys-forgets :
      (controller method user : String) (override : Option String) (w : World E) (k : String)
      → let p =
          tenant_code redis json tenant override
          <> ":"
          <> controller
          <> ":"
          <> method
          <> ":"
          <> user in
        is_literal p ≡ true
        → IsUp redis
        → entries (del_method_user_keys redis json tenant controller method user override w).1 k
          ≡ (if starts_with k p then none else entries w k)
  unfolding del_method_user_keys
  del_method_user_keys-forgets controller method user override w k literal up =
      let a = tenant_code redis json tenant override in
      let p = a <> ":" <> controller <> ":" <> method <> ":" <> user in
      let pattern = a <> ":" <> controller <> ":" <> method <> ":" <> user <> "*" in
      let same : p <> "*" ≡ pattern = pattern_prefix a ":" controller ":" method ":" user in
      let (ks, v, run) = up.keys_answer pattern w in
      let kept : entries v ≡ entries w =
        ap (λ r. entries r.1) (sym run) ∙ store.keys_lem pattern w in
      elim (Bool-cases (starts_with k p)) [
        | inr other ↦
            del_method_user_keys-spares controller method user override w k literal other
            ∙ rw other refl
        | inl mine ↦
            ap (λ f. f k)
              (recovered_entries (proceed (redis.keys pattern w) (del_keys redis json tenant)) tt)
            ∙ ap (λ r. entries (proceed r (del_keys redis json tenant)).1 k) run
            ∙ del_keys-forgets up ks v k (
                rw (ap (λ f. f k) kept)
                  (store.keys_complete p w literal (ap (λ q. redis.keys q w) same ∙ run) k mine))
            ∙ rw mine refl
      ]

module _ {E A : Type 0} (redis : Redis E) (json : Json E A) (tenant : Option String) where
  -- The key that a cached call reads and stores under.
  abbrev pub cached_key : CacheOptions → CachedRequest → String
  cached_key options read =
      generate_cache_key redis json tenant read.controller read.method (read_key options read) none

module _ {E A : Type 0} (redis : Redis E) (json : Json E A)
    (entries : World E → String → Option String) (store : IsStore redis entries)
    (tenant : Option String) where
  -- A cached call whose key has an entry answers with it.
  pub cached_call_hit :
      (options : CacheOptions) (read : CachedRequest) (next : Action E A) (w : World E) (s : String)
      (a : A)
      → entries w (cached_key redis json tenant options read) ≡ some s
      → (s === "") ≡ false
      → ((v : World E) → (v' : World E) × (json.parse s v ≡ (ok a, v')))
      → (w' : World E) × (cached_call redis json tenant (some options) none read next w
          ≡ (ok a, w'))
  unfolding cached_call get
  cached_call_hit options read next w s a hit some_text parses =
      let key = cached_key redis json tenant options read in
      let (w1, got) = store.get_lem key w in
      let (w2, parsed_) = parses w1 in (w2, ground (arith, got, hit, parsed_, some_text))
