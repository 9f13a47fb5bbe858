-- ===== src/RateLimit.antt =====
-- common/interceptors/rate-limit.interceptor.ts and common/decorators/rate-limit.decorator.ts. The
-- counters are a map from keys; the clock is an argument. `now - windowStart` may be negative in the
-- source, so its comparisons are written with sums here.
pub mod Window
use nestjs_order_api.Base.{
  ℕ, ◌+◌, ◌-◌, ◌/◌, String, Bool, true, false, Option, none, some, ltb, leb, or_else, ◌<>◌, ◌===◌,
  if◌then◌else◌,
}
use nestjs_order_api.Http.{Exn, too_many_requests, Result, ok, err}

pub record CounterState : Type 0 where
  pub count : ℕ
  pub window_start : ℕ

-- What a decorator gives; a field that it leaves out is `none`.
pub record RateLimitOptions : Type 0 where
  pub window_ms : Option ℕ
  pub max : Option ℕ
  pub key_by_user : Option Bool

pub record Required : Type 0 where
  pub window_ms : ℕ
  pub max : ℕ
  pub key_by_user : Bool

abbrev overlay : Option RateLimitOptions → Required → Required
overlay none base = base
overlay (some opts) base = record {
  window_ms = or_else opts.window_ms base.window_ms;
  max = or_else opts.max base.max;
  key_by_user = or_else opts.key_by_user base.key_by_user;
}

-- The handler's options win over the controller's, and these over the defaults.
unfoldable pub resolve_options : (handler controller : Option RateLimitOptions) → Required
resolve_options handler controller =
    overlay handler
      (overlay controller (record { window_ms = 60_000; max = 60; key_by_user = true }))

-- What `buildKey` reads of the request; `id` is the first of `id`, `userId` and `sub` that is there.
pub record Caller : Type 0 where
  pub id : Option String
  pub tenant_code : Option String

pub record Request : Type 0 where
  pub user : Option Caller
  pub ip : Option String
  pub remote_address : Option String
  pub path_tenant : Option String

abbrev caller_id : Option Caller → Option String
caller_id none = none
caller_id (some c) = c.id

abbrev caller_tenant : Option Caller → Option String
caller_tenant none = none
caller_tenant (some c) = c.tenant_code

abbrev principal : Option String → String → String
principal (some id) ip = "user:" <> id
principal none ip = "ip:" <> ip

unfoldable pub build_key : Request → (method controller : String) → Required → String
build_key r method controller options =
    let user = if options.key_by_user then caller_id r.user else none in
    let ip = or_else r.ip (or_else r.remote_address "unknown") in
    let tenant = or_else (caller_tenant r.user) (or_else r.path_tenant "no-tenant") in
    tenant <> ":" <> controller <> "." <> method <> ":" <> principal user ip

abbrev pub Counters : Type 0
Counters = String → Option CounterState

-- `this.counters.set(key, state)`
abbrev pub set_counter : Counters → String → CounterState → Counters
set_counter counters key state j = if key === j then some state else counters j

abbrev pub opened : ℕ → CounterState
opened now = record { count = 1; window_start = now }

-- The counter after a request: a new window, or one more request in the window that is open.
abbrev pub counted : Required → ℕ → Option CounterState → CounterState
counted options now none = opened now
counted options now (some old) =
    if leb (old.window_start + options.window_ms) now
    then opened now
    else record old { count = old.count + 1 }

pub record Headers : Type 0 where
  pub limit : ℕ
  pub remaining : ℕ
  pub reset : ℕ

-- What `intercept` leaves: the counters, the headers, and whether the handler is called or 429 thrown.
pub record Intercepted : Type 0 where
  pub counters : Counters
  pub headers : Headers
  pub verdict : Result (Unit {0})

unfoldable pub intercept : Required → String → ℕ → Counters → Intercepted
intercept options key now counters =
    let state = counted options now (counters key) in
    let reset_in_ms = (options.window_ms + state.window_start) - now in
    record {
      counters = set_counter counters key state;
      headers = record {
        limit = options.max;
        remaining = options.max - state.count;
        reset = (reset_in_ms + 999) / 1000;
      };
      verdict =
          if ltb options.max state.count
          then err (too_many_requests "Too many requests. Please try again later.")
          else ok tt;
    }

abbrev pub passes : Result (Unit {0}) → Bool
passes (ok _) = true
passes (err _) = false
