-- ===== src/Logging.antt =====
-- common/interceptors/logging.interceptor.ts: what is logged of a request. An object is the list of its
-- fields; the values, whether JavaScript takes one for true, and JSON are parameters.
pub mod Secrets
pub mod Lines
use nestjs_order_api.Base.{
  String, Bool, true, false, Option, none, some, List, [], ◌∷◌, ◌++◌, ◌<>◌, ◌===◌, if◌then◌else◌,
}

module _ {V : Type 0} where
  unfoldable pub field : String → List (String × V) → Option V
  field k [] = none
  field k ((j, v) ∷ fs) = if j === k then some v else field k fs

  -- `object.k = v` for a field that is there, and `delete object.k`.
  unfoldable pub set_field : String → V → List (String × V) → List (String × V)
  set_field k v [] = []
  set_field k v ((j, u) ∷ fs) = if j === k then (j, v) ∷ fs else (j, u) ∷ set_field k v fs

  unfoldable pub delete_field : String → List (String × V) → List (String × V)
  delete_field k [] = []
  delete_field k ((j, u) ∷ fs) =
      let rest = delete_field k fs in if j === k then rest else (j, u) ∷ rest

pub record Values (V : Type 0) : Type 0 where
  pub is_truthy : V → Bool
  pub text : String → V
  pub stringify : List (String × V) → String

module _ {V : Type 0} (values : Values V) where
  abbrev pub holds : Option V → Bool
  holds none = false
  holds (some v) = values.is_truthy v

  abbrev pub redact : String → List (String × V) → List (String × V)
  redact k fs = if holds (field k fs) then set_field k (values.text "[REDACTED]") fs else fs

  unfoldable pub safe_query : List (String × V) → List (String × V)
  unfolding field delete_field
  safe_query query = if holds (field "password" query) then delete_field "password" query else query

  unfoldable pub safe_body : List (String × V) → List (String × V)
  unfolding field set_field
  safe_body body = redact "token" (redact "password" body)

  -- `name: {…}` for an object that has fields.
  abbrev detail : String → List (String × V) → List String
  detail name [] = []
  detail name (f ∷ fs) = (name <> ": " <> values.stringify (f ∷ fs)) ∷ []

  abbrev join : List String → String
  join [] = ""
  join (s ∷ []) = s
  join (s ∷ t ∷ ts) = s <> " | " <> join (t ∷ ts)

  unfoldable pub build_request_details : (body query params : List (String × V)) → String
  unfolding safe_query safe_body
  build_request_details body query params = join (
      detail "Query" (safe_query query) ++ detail "Body" (safe_body body) ++ detail "Params" params)
