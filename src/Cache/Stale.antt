-- ===== src/Cache/Stale.antt =====
-- About the keys that the targets of order/order.controller.ts and product/product.controller.ts reach
-- through common/interceptors/cache.interceptor.ts.
use text.Mathlib.Text.{starts_with}
use nestjs_order_api.Base.{
  String, true, false, Option, none, some, List, [], ◌∷◌, All, ◌<>◌, ◌===◌, ◌≡◌, refl, sym, ap, ◌∙◌,
  if◌then◌else◌,
}
use nestjs_order_api.Http.{Result, ok, err}
use nestjs_order_api.Prisma.{World, Action, proceed, pure, ◌>>◌}
use nestjs_order_api.Cache.{Redis, Json, fields, tenant_or_default, generate_cache_key}
use nestjs_order_api.Cache.Interceptor.{
  CacheOptions, InvalidateTarget, by_name, by_options, CachedRequest, get_method_arguments,
  invalidate, invalidate_one, cached_call,
}
use nestjs_order_api.Cache.Store.{
  IsStore, IsUp, is_literal, del_method_user_keys-forgets, del-spares, del_method_user_keys-spares,
  cached_key, cached_call_hit,
}
use nestjs_order_api.Cache.Texts.{append_differs, first_differs, starts_with-append}

-- The target of the order controller: `{ method, includeUserId: true, isDefaultTenant: true }`.
abbrev pub of_user : String → InvalidateTarget
of_user method = by_options method none (some true) (some true)

module _ {E A : Type 0} (redis : Redis E) (json : Json E A)
    (entries : World E → String → Option String) (store : IsStore redis entries) where
  answered_world : {B : Type 0} (a : A) (r : Result B × World E) → (proceed r (λ b. pure a)).1 ≡ r.1
  answered_world a (ok b, w) = refl
  answered_world a (err e, w) = refl

  proceed_spares :
      (k : String) (r : Result (Unit {0}) × World E) (m : Action E (Unit {0}))
      → ((v : World E) → entries (m v).1 k ≡ entries v k)
      → entries (proceed r (λ b. m)).1 k ≡ entries r.1 k
  proceed_spares k (ok b, v) m spare = spare v
  proceed_spares k (err e, v) m spare = refl

  -- The world after an answered call is the one that the deletions leave.
  after_answer :
      (tenant : Option String) (targets : List InvalidateTarget) (r : CachedRequest)
      (next : Action E A) (w : World E) {a : A} {v : World E}
      → next w ≡ (ok a, v)
      → (cached_call redis json tenant none (some targets) r next w).1
        ≡ (invalidate redis json tenant r targets v).1
  unfolding cached_call
  after_answer tenant targets r next w {a} {v} h =
      let rest : A → Action E A = λ x. invalidate redis json tenant r targets >> pure x in
      ap (λ s. (proceed s rest).1) h ∙ answered_world a (invalidate redis json tenant r targets v)

  -- A key that each target spares is spared by all.
  invalidate-spares :
      (tenant : Option String) (r : CachedRequest) (k : String) (targets : List InvalidateTarget)
      → All
          (λ t. (v : World E) → entries (invalidate_one redis json tenant r t v).1 k ≡ entries v k)
          targets
      → (v : World E) → entries (invalidate redis json tenant r targets v).1 k ≡ entries v k
  unfolding invalidate
  invalidate-spares tenant r k [] spare v = refl
  invalidate-spares tenant r k (t ∷ ts) (spare, spares) v =
      proceed_spares k (invalidate_one redis json tenant r t v) (invalidate redis json tenant r ts)
        (invalidate-spares tenant r k ts spares)
      ∙ spare v

  -- A key under the user's prefix is spared when it goes on with JSON in place of the user's id.
  of_user-spares :
      (tenant : Option String) (r : CachedRequest) (id : String) (args : String) (v : World E)
      → r.user_id ≡ some id
      → is_literal ("default" <> ":" <> r.controller <> ":" <> "findAll" <> ":" <> id) ≡ true
      → starts_with args id ≡ false
      → let k = "default" <> ":" <> r.controller <> ":" <> "findAll" <> ":" <> args in
        entries (invalidate_one redis json tenant r (of_user "findAll") v).1 k ≡ entries v k
  of_user-spares tenant r id args v who literal other =
      let far = starts_with-append "default" _ _ (
        starts_with-append ":" _ _ (
          starts_with-append r.controller _ _ (
            starts_with-append ":" _ _
              (starts_with-append "findAll" _ _ (starts_with-append ":" args id other))))) in
      rw who (
        del_method_user_keys-spares redis json entries store tenant r.controller "findAll" id
          (some "default") v _ literal far)

  -- A target that is a text spares a key that goes on in another way.
  by_name-spares :
      (tenant : Option String) (r : CachedRequest) (method : String) (gs : List (String × String))
      (rest : String) (v : World E)
      → (method === "*") ≡ false
      → get_method_arguments r ≡ fields gs
      → (method <> ":" <> json.stringify_args gs === rest) ≡ false
      → let k = tenant_or_default tenant <> ":" <> r.controller <> ":" <> rest in
        entries (invalidate_one redis json tenant r (by_name method) v).1 k ≡ entries v k
  unfolding generate_cache_key
  by_name-spares tenant r method gs rest v named given other =
      let far = append_differs (tenant_or_default tenant) _ _ (
        append_differs ":" _ _ (
          append_differs r.controller _ _
            (append_differs ":" (method <> ":" <> json.stringify_args gs) rest other))) in
      rw (named, given)
        (del-spares redis json entries store tenant r.controller method (fields gs) none v _ far)

  -- If Redis answers KEYS and DEL: a change in the order controller whose handler has answered deletes
  -- exactly the keys that begin with those of the default tenant's findAll and the user's id, and leaves
  -- all other keys as the handler has left them. The prefix of the deletion has no characters that mean
  -- something in a pattern.
  pub create_forgets :
      (tenant : Option String) (r : CachedRequest) (next : Action E A) (w : World E) {a : A}
      {v : World E} (id : String)
      → next w ≡ (ok a, v)
      → r.user_id ≡ some id
      → let prefix = "default" <> ":" <> r.controller <> ":" <> "findAll" <> ":" <> id in
        is_literal prefix ≡ true
        → IsUp redis
        → (k : String)
        → entries (cached_call redis json tenant none (some (of_user "findAll" ∷ [])) r next w).1 k
          ≡ (if starts_with k prefix then none else entries v k)
  unfolding invalidate
  create_forgets tenant r next w {a} {v} id answer who literal up k =
      let targets = of_user "findAll" ∷ [] in
      let forgotten =
        del_method_user_keys-forgets redis json entries store tenant r.controller "findAll" id
          (some "default") v k literal up in
      ap (λ u. entries u k) (after_answer tenant targets r next w answer)
      ∙ proceed_spares k (invalidate_one redis json tenant r (of_user "findAll") v)
          (invalidate redis json tenant r []) (λ u. refl)
      ∙ (rw who forgotten)

  module _ (options : CacheOptions) (tenant reader : Option String) (r read : CachedRequest)
      (next later : Action E A) (w : World E) {a old : A} {v : World E} (args text : String) where
    answers_old :
        (targets : List InvalidateTarget) (key : String)
        → next w ≡ (ok a, v)
        → cached_key redis json reader options read ≡ key
        → entries (invalidate redis json tenant r targets v).1 key ≡ entries v key
        → entries v (cached_key redis json reader options read) ≡ some text
        → (text === "") ≡ false
        → ((u : World E) → (u' : World E) × (json.parse text u ≡ (ok old, u')))
        → let changed = cached_call redis json tenant none (some targets) r next w in
          (w' : World E) × (cached_call redis json reader (some options) none read later changed.1
            ≡ (ok old, w'))
    answers_old targets key answer same kept hit some_text parses =
        let changed = (cached_call redis json tenant none (some targets) r next w).1 in
        cached_call_hit redis json entries store reader options read later changed text old
          (ap (entries changed) same
            ∙ ap (λ u. entries u key) (after_answer tenant targets r next w answer)
            ∙ kept
            ∙ ap (entries v) (sym same)
            ∙ hit)
          some_text parses

    -- In the order controller, a change does not forget the listings that were asked for with
    -- arguments: if the key of such a listing is that of the default tenant's findAll and goes on with a
    -- text that does not begin with the user's id, as JSON does not, and Redis holds an answer for it
    -- when the handler of the change has answered, then the next request for it is given that old
    -- answer. The prefix of the deletion has no characters that mean something in a pattern.
    stale_listing :
        (id : String)
        → next w ≡ (ok a, v)
        → r.user_id ≡ some id
        → cached_key redis json reader options read
          ≡ "default" <> ":" <> r.controller <> ":" <> "findAll" <> ":" <> args
        → starts_with args id ≡ false
        → is_literal ("default" <> ":" <> r.controller <> ":" <> "findAll" <> ":" <> id) ≡ true
        → entries v (cached_key redis json reader options read) ≡ some text
        → (text === "") ≡ false
        → ((u : World E) → (u' : World E) × (json.parse text u ≡ (ok old, u')))
        → let changed =
            cached_call redis json tenant none (some (of_user "findAll" ∷ [])) r next w in
          (w' : World E) × (cached_call redis json reader (some options) none read later changed.1
            ≡ (ok old, w'))
    stale_listing id answer who key other literal hit some_text parses =
        let targets = of_user "findAll" ∷ [] in
        let kept =
          invalidate-spares tenant r _ targets
            ((λ u. of_user-spares tenant r id args u who literal other), tt) v in
        answers_old targets _ answer key kept hit some_text parses

    -- In the product controller, an update or a removal forgets the listing and the product under the
    -- arguments of its own request, among which is the product's id. If the key of a listing of that
    -- controller and tenant has other arguments, and Redis holds an answer for it when the handler of
    -- the change has answered, then the next request for it is given that old answer.
    stale_catalogue :
        (gs : List (String × String))
        → next w ≡ (ok a, v)
        → get_method_arguments r ≡ fields gs
        → cached_key redis json reader options read
          ≡ tenant_or_default tenant <> ":" <> r.controller <> ":" <> "findAll" <> ":" <> args
        → (json.stringify_args gs === args) ≡ false
        → entries v (cached_key redis json reader options read) ≡ some text
        → (text === "") ≡ false
        → ((u : World E) → (u' : World E) × (json.parse text u ≡ (ok old, u')))
        → let changed =
            cached_call redis json tenant none
              (some (by_name "findAll" ∷ by_name "findOne" ∷ []))
              r
              next
              w in
          (w' : World E) × (cached_call redis json reader (some options) none read later changed.1
            ≡ (ok old, w'))
    stale_catalogue gs answer given key other hit some_text parses =
        let targets = by_name "findAll" ∷ by_name "findOne" ∷ [] in
        let rest = "findAll" <> ":" <> args in
        let same_method =
          append_differs "findAll" _ _ (append_differs ":" (json.stringify_args gs) args other) in
        let other_method =
          first_differs "findOne" "findAll" (":" <> json.stringify_args gs) (":" <> args) refl
            refl in
        let kept =
          invalidate-spares tenant r _ targets
            (
              (λ u. by_name-spares tenant r "findAll" gs rest u refl given same_method),
              ((λ u. by_name-spares tenant r "findOne" gs rest u refl given other_method), tt),
            )
            v in
        answers_old targets _ answer key kept hit some_text parses
