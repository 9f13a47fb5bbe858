-- ===== src/Cache/Calm.antt =====
-- About errors in common/services/cache.service.ts and common/interceptors/cache.interceptor.ts.
use nestjs_order_api.Base.{
  ℕ, String, Bool, Option, none, some, true, false, if◌then◌else◌, List, [], ◌∷◌, ◌===◌, ◌≡◌, refl,
  ap, ◌∙◌,
}
use nestjs_order_api.Http.{Result, ok, err}
use nestjs_order_api.Prisma.{World, Action, catch, pure, recover, proceed, ◌>>=◌, ◌>>◌}
use nestjs_order_api.Cache.{Redis, Json, Args, get, set, del, del_method_user_keys, del_pattern}
use nestjs_order_api.Cache.Interceptor.{
  CacheOptions, InvalidateTarget, by_name, by_options, CachedRequest, invalidate_user,
  invalidate_method, invalidate_one, invalidate, cached_call, answer_or_store,
}

-- An action that never throws.
abbrev pub IsCalm : {E A : Type 0} → Action E A → Type 0
IsCalm {E} {A} m = (w : World E) → (a : A) × (w' : World E) × (m w ≡ (ok a, w'))

module _ {E : Type 0} where
  recovered :
      {A : Type 0} (x : A) (r : Result A × World E)
      → (a : A) × (w' : World E) × (recover r (λ e. pure x) ≡ (ok a, w'))
  recovered x (ok a, w) = (a, w, refl)
  recovered x (err e, w) = (x, w, refl)

  catch-IsCalm : {A : Type 0} (m : Action E A) (x : A) → IsCalm (catch m (λ e. pure x))
  catch-IsCalm m x w = recovered x (m w)

  pure-IsCalm : {A : Type 0} (x : A) → IsCalm {E = E} (pure x)
  pure-IsCalm x w = (x, w, refl)

  if-IsCalm :
      {A : Type 0} (b : Bool) (m n : Action E A) → IsCalm m → IsCalm n → IsCalm (if b then m else n)
  if-IsCalm true m n calm other = calm
  if-IsCalm false m n calm other = other

  >>=-IsCalm :
      {A B : Type 0} (m : Action E A) (f : A → Action E B)
      → IsCalm m
      → ((a : A) → IsCalm (f a))
      → IsCalm (m >>= f)
  >>=-IsCalm m f calm rest w =
      let (a, v, e) = calm w in let (b, v', e') = rest a v in (b, v', ap (λ r. proceed r f) e ∙ e')

module _ {E A : Type 0} (redis : Redis E) (json : Json E A) (tenant : Option String) where
  del-IsCalm :
      (controller method : String) (args : Args) (code : Option String)
      → IsCalm (del redis json tenant controller method args code)
  unfolding del
  del-IsCalm controller method args code = catch-IsCalm _ tt

  del_method_user_keys-IsCalm :
      (controller method user : String) (code : Option String)
      → IsCalm (del_method_user_keys redis json tenant controller method user code)
  unfolding del_method_user_keys
  del_method_user_keys-IsCalm controller method user code w = recovered tt _

  del_pattern-IsCalm :
      (controller : String) (code : Option String)
      → IsCalm (del_pattern redis json tenant controller code)
  unfolding del_pattern
  del_pattern-IsCalm controller code w = recovered tt _

  invalidate_user-IsCalm :
      (r : CachedRequest) (method : String) (include_args : Bool) (code user : Option String)
      → IsCalm (invalidate_user redis json tenant r method include_args code user)
  invalidate_user-IsCalm r method include_args code none = del-IsCalm _ _ _ _
  invalidate_user-IsCalm r method true code (some id) = del_method_user_keys-IsCalm _ _ _ _
  invalidate_user-IsCalm r method false code (some id) = del-IsCalm _ _ _ _

  invalidate_method-IsCalm :
      (r : CachedRequest) (method : String) (include_args include_user_id default_tenant : Bool)
      → IsCalm
          (invalidate_method redis json tenant r method include_args include_user_id default_tenant)
  invalidate_method-IsCalm r method include_args false default_tenant = del-IsCalm _ _ _ _
  invalidate_method-IsCalm r method include_args true default_tenant =
      invalidate_user-IsCalm r method include_args _ r.user_id

  invalidate_one-IsCalm :
      (r : CachedRequest) (target : InvalidateTarget)
      → IsCalm (invalidate_one redis json tenant r target)
  invalidate_one-IsCalm r (by_name method) =
      if-IsCalm (method === "*") _ _ (del_pattern-IsCalm r.controller none)
        (invalidate_method-IsCalm r method true false false)
  invalidate_one-IsCalm r (by_options method a u d) =
      if-IsCalm (method === "*") _ _ (del_pattern-IsCalm r.controller _)
        (invalidate_method-IsCalm r method _ _ _)

  invalidate-IsCalm :
      (r : CachedRequest) (targets : List InvalidateTarget)
      → IsCalm (invalidate redis json tenant r targets)
  unfolding invalidate
  invalidate-IsCalm r [] = pure-IsCalm tt
  invalidate-IsCalm r (target ∷ targets) =
      >>=-IsCalm _ _ (invalidate_one-IsCalm r target) (λ a. invalidate-IsCalm r targets)

  answer_or_store-IsCalm :
      (r : CachedRequest) (key : Args) (ttl : ℕ) (next : Action E A) (cached : Option A)
      → IsCalm next
      → IsCalm (answer_or_store redis json tenant r key ttl next cached)
  unfolding set
  answer_or_store-IsCalm r key ttl next (some x) calm = pure-IsCalm x
  answer_or_store-IsCalm r key ttl next none calm =
      >>=-IsCalm _ _ calm (λ a. >>=-IsCalm _ _ (catch-IsCalm _ tt) (λ b. pure-IsCalm a))

  -- If every command that Redis is sent settles, with a value or an error, and so does every call of
  -- JSON: whether the handler's answer is cached, invalidates other answers, both or neither, a handler
  -- that throws in no world is answered through the interceptor too.
  pub cached_call_answers :
      (options : Option CacheOptions) (targets : Option (List InvalidateTarget)) (r : CachedRequest)
      (next : Action E A)
      → ((w : World E) → (a : A) × (w' : World E) × (next w ≡ (ok a, w')))
      → (w : World E)
      → (a : A) × (w' : World E) × (cached_call redis json tenant options targets r next w
          ≡ (ok a, w'))
  unfolding cached_call get
  cached_call_answers options (some targets) r next calm =
      >>=-IsCalm _ _ calm (λ a. >>=-IsCalm _ _ (invalidate-IsCalm r targets) (λ b. pure-IsCalm a))
  cached_call_answers none none r next calm = calm
  cached_call_answers (some options) none r next calm =
      >>=-IsCalm _ _ (catch-IsCalm _ none) (λ cached. answer_or_store-IsCalm r _ _ next cached calm)

  -- A call that invalidates answers with what the handler has answered in the same world.
  pub invalidating_call_answer :
      (options : Option CacheOptions) (targets : List InvalidateTarget) (r : CachedRequest)
      (next : Action E A) (w : World E) {a : A} {w' : World E}
      → next w ≡ (ok a, w')
      → (u : World E) × (cached_call redis json tenant options (some targets) r next w ≡ (ok a, u))
  unfolding cached_call
  invalidating_call_answer options targets r next w {a} {w'} h =
      let (x, u, e) = invalidate-IsCalm r targets w' in
      let rest : A → Action E A = λ x. invalidate redis json tenant r targets >> pure x in
      (u, ap (λ s. proceed s rest) h ∙ ap (λ s. proceed s (λ b. pure a)) e)
