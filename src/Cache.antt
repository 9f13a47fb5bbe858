-- ===== src/Cache.antt =====
-- common/services/cache.service.ts over the calls of ioredis and of JSON, which are parameters. A cached
-- value is a JSON text in Redis.
pub mod Interceptor
pub mod Calm
pub mod Texts
pub mod Store
pub mod Stale
use nestjs_order_api.Base.{
  ℕ, String, Bool, true, false, Option, none, some, List, [], ◌∷◌, or_else, ◌<>◌, ◌===◌,
  if◌then◌else◌,
}
use nestjs_order_api.Prisma.{Action, pure, ◌>>=◌, ◌>>◌, catch}

-- The calls of the Redis client.
pub record Redis (E : Type 0) : Type 0 where
  pub get : String → Action E (Option String)
  pub setex : String → ℕ → String → Action E (Unit {0})
  pub del : List String → Action E (Unit {0})
  pub keys : String → Action E (List String)
  pub ping : Action E String

-- What `args` may be: nothing, a text, or an object by its fields.
pub data Args : Type 0 where
  no_args : Args
  text : String → Args
  fields : List (String × String) → Args

-- JSON for the object of the arguments and for the cached values. `parse` may throw.
pub record Json (E A : Type 0) : Type 0 where
  pub stringify_args : List (String × String) → String
  pub stringify : A → String
  pub parse : String → Action E A

-- `getTenantCode() || 'default'`
abbrev pub tenant_or_default : Option String → String
tenant_or_default none = "default"
tenant_or_default (some code) = if code === "" then "default" else code

module _ {E A : Type 0} (redis : Redis E) (json : Json E A) (tenant : Option String) where
  abbrev pub tenant_code : Option String → String
  tenant_code override = or_else override (tenant_or_default tenant)

  abbrev args_string : Args → String
  args_string no_args = ""
  args_string (text s) = ":" <> s
  args_string (fields fs) = ":" <> json.stringify_args fs

  unfoldable pub generate_cache_key : (controller method : String) → Args → Option String → String
  generate_cache_key controller method args override =
      tenant_code override <> ":" <> controller <> ":" <> method <> args_string args

  -- A text that is there and not empty is a hit.
  abbrev parsed : Option String → Action E (Option A)
  parsed none = pure none
  parsed (some s) = if s === "" then pure none else (do a ← json.parse s; pure (some a))

  unfoldable pub get : (controller method : String) → Args → Action E (Option A)
  unfolding generate_cache_key
  get controller method args =
      catch (do cached ← redis.get (generate_cache_key controller method args none); parsed cached)
        (λ e. pure none)

  unfoldable pub set : (controller method : String) → A → ℕ → Args → Action E (Unit {0})
  unfolding generate_cache_key
  set controller method value ttl args =
      catch
        (redis.setex (generate_cache_key controller method args none) ttl (json.stringify value))
        (λ e. pure tt)

  unfoldable pub del : (controller method : String) → Args → Option String → Action E (Unit {0})
  unfolding generate_cache_key
  del controller method args override =
      catch (redis.del (generate_cache_key controller method args override ∷ [])) (λ e. pure tt)

  -- `if (keys.length > 0) await this.redis.del(...keys);`
  abbrev del_keys : List String → Action E (Unit {0})
  del_keys [] = pure tt
  del_keys (k ∷ ks) = redis.del (k ∷ ks)

  abbrev del_matching : String → Action E (Unit {0})
  del_matching pattern = catch (do keys ← redis.keys pattern; del_keys keys) (λ e. pure tt)

  unfoldable pub del_method_user_keys :
      (controller method user : String) → Option String → Action E (Unit {0})
  del_method_user_keys controller method user override =
      del_matching
        (tenant_code override <> ":" <> controller <> ":" <> method <> ":" <> user <> "*")

  unfoldable pub del_pattern : String → Option String → Action E (Unit {0})
  del_pattern controller override = del_matching (tenant_code override <> ":" <> controller <> ":*")

  unfoldable pub clear_tenant_cache : Action E (Unit {0})
  clear_tenant_cache = del_matching (tenant_or_default tenant <> ":*")

  unfoldable pub is_healthy : Action E Bool
  is_healthy = catch (do answer ← redis.ping; pure (answer === "PONG")) (λ e. pure false)
