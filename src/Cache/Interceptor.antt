-- ===== src/Cache/Interceptor.antt =====
-- common/interceptors/cache.interceptor.ts and common/decorators/cache.decorator.ts. A callback of `tap`
-- runs here right after the handler. A cached value is an object, so it is true for JavaScript. The user's id is the first of `id`, `userId` and `sub`.
use nestjs_order_api.Base.{
  ℕ, ◌==◌, String, Bool, true, false, Option, none, some, List, [], ◌∷◌, or_else, ◌===◌,
  if◌then◌else◌,
}
use nestjs_order_api.Prisma.{Action, pure, ◌>>=◌, ◌>>◌}
use nestjs_order_api.Cache.{
  Redis, Json, Args, no_args, text, fields, get, set, del, del_method_user_keys, del_pattern,
}

pub record CacheOptions : Type 0 where
  pub ttl : Option ℕ
  pub include_args : Option Bool
  pub include_user_id : Option Bool

-- A target that is a text is `by_name`.
pub data InvalidateTarget : Type 0 where
  by_name : String → InvalidateTarget
  by_options :
      (method : String) (include_args include_user_id is_default_tenant : Option Bool)
      → InvalidateTarget

pub record CachedRequest : Type 0 where
  pub controller : String
  pub method : String
  pub user_id : Option String
  pub params : List (String × String)
  pub query : List (String × String)

-- `Object.assign(args, more)`: a field that is there is replaced at its place.
abbrev assign_field : List (String × String) → String → String → List (String × String)
assign_field [] k v = (k, v) ∷ []
assign_field ((j, u) ∷ fs) k v = if j === k then (j, v) ∷ fs else (j, u) ∷ assign_field fs k v

abbrev pub assign : List (String × String) → List (String × String) → List (String × String)
assign args [] = args
assign args ((k, v) ∷ more) = assign (assign_field args k v) more

-- `getMethodArguments`; `no_args` is `undefined`.
unfoldable pub get_method_arguments : CachedRequest → Args
get_method_arguments r = elim (assign (assign [] r.params) r.query) [
  | [] ↦ no_args
  | f ∷ fs ↦ fields (f ∷ fs)
]

-- `{ __userId: id, ...args }`
abbrev with_user : String → Args → Args
with_user id (fields fs) = fields (assign (("__userId", id) ∷ []) fs)
with_user id _ = text id

-- The key of a cached answer.
unfoldable pub read_key : CacheOptions → CachedRequest → Args
unfolding get_method_arguments
read_key options r =
    let args = if or_else options.include_args true then get_method_arguments r else no_args in
    if or_else options.include_user_id false
    then elim r.user_id [ none ↦ args | some id ↦ with_user id args ]
    else args

-- `options.ttl || 300`
abbrev ttl_of : Option ℕ → ℕ
ttl_of none = 300
ttl_of (some n) = if n == 0 then 300 else n

module _ {E A : Type 0} (redis : Redis E) (json : Json E A) (tenant : Option String) where
  abbrev override : Bool → Option String
  override default_tenant = if default_tenant then some "default" else none

  -- The keys of a target with the user's id, if there is one.
  abbrev pub invalidate_user :
      CachedRequest → String → Bool → Option String → Option String → Action E (Unit {0})
  invalidate_user r method include_args code none =
      del redis json tenant r.controller method no_args code
  invalidate_user r method true code (some id) =
      del_method_user_keys redis json tenant r.controller method id code
  invalidate_user r method false code (some id) =
      del redis json tenant r.controller method (text id) code

  -- What one target deletes when it is not `*`.
  abbrev pub invalidate_method :
      CachedRequest
      → String
      → (include_args include_user_id default_tenant : Bool) → Action E (Unit {0})
  invalidate_method r method include_args false default_tenant =
      del redis json tenant r.controller method
        (if include_args then get_method_arguments r else no_args) (override default_tenant)
  invalidate_method r method include_args true default_tenant =
      invalidate_user r method include_args (override default_tenant) r.user_id

  abbrev pub invalidate_one : CachedRequest → InvalidateTarget → Action E (Unit {0})
  invalidate_one r (by_name method) =
      if method === "*"
      then del_pattern redis json tenant r.controller none
      else invalidate_method r method true false false
  invalidate_one r (by_options method include_args include_user_id is_default_tenant) =
      let default_tenant = or_else is_default_tenant false in
      if method === "*"
      then del_pattern redis json tenant r.controller (override default_tenant)
      else invalidate_method r method (or_else include_args true) (or_else include_user_id false)
          default_tenant

  unfoldable pub invalidate : CachedRequest → List InvalidateTarget → Action E (Unit {0})
  invalidate r [] = pure tt
  invalidate r (target ∷ targets) = do invalidate_one r target; invalidate r targets

  -- A hit is answered as it is; after a miss the handler runs and its answer is stored.
  abbrev pub answer_or_store : CachedRequest → Args → ℕ → Action E A → Option A → Action E A
  answer_or_store r key ttl next (some cached) = pure cached
  answer_or_store r key ttl next none = do
    data_ ← next
    set redis json tenant r.controller r.method data_ ttl key
    pure data_

  -- `next` is the handler.
  unfoldable pub cached_call :
      Option CacheOptions → Option (List InvalidateTarget) → CachedRequest → Action E A → Action E A
  unfolding invalidate read_key
  cached_call options (some targets) r next = do data_ ← next; invalidate r targets; pure data_
  cached_call none none r next = next
  cached_call (some options) none r next = do
    cached ← get redis json tenant r.controller r.method (read_key options r)
    answer_or_store r (read_key options r) (ttl_of options.ttl) next cached
