-- ===== src/Tenant/Urls.antt =====
-- The URLs of databases, in prisma/database-manager.service.ts, rabbitmq/database-creation.consumer.ts
-- and prisma/prisma.service.ts. The URL class of the runtime is a parameter.
use nestjs_order_api.Base.{
  ℕ, String, Bool, true, false, Option, none, some, List, [], ◌∷◌, ◌++◌, ◌==◌, if◌then◌else◌,
}
use nestjs_order_api.Base.Chars.{codes, is_nil}
use nestjs_order_api.User.{filled}
use nestjs_order_api.Database.Creation.{database_name}

-- `new URL(s)`, which throws on a text that is no URL, and the properties that are read and set.
pub record UrlClass (U : Type 0) : Type 0 where
  pub new_url : List ℕ → Option U
  pub protocol : U → List ℕ
  pub username : U → List ℕ
  pub password : U → List ℕ
  pub host : U → List ℕ
  pub set_password : List ℕ → U → U
  pub to_string : U → List ℕ

-- `s || d`, where s may be undefined.
abbrev pub text_or : Option (List ℕ) → List ℕ → List ℕ
text_or none d = d
text_or (some s) d = if is_nil s then d else s

-- `/^(postgresql:\/\/[^\/]+)\//`: what is in front of the first slash after the scheme.
unfoldable pub before_slash : List ℕ → Option (List ℕ)
before_slash [] = none
before_slash (c ∷ s) =
    let rest = before_slash s in
    if c == b'/' then some [] else elim rest [ none ↦ none | some host ↦ some (c ∷ host) ]

unfoldable pub after_prefix : List ℕ → List ℕ → Option (List ℕ)
after_prefix [] s = some s
after_prefix (p ∷ ps) [] = none
after_prefix (p ∷ ps) (c ∷ s) = let rest = after_prefix ps s in if p == c then rest else none

abbrev pub scheme : List ℕ
scheme = codes "postgresql://"

abbrev pub with_host : Option (List ℕ) → Option (List ℕ)
with_host none = none
with_host (some host) = if is_nil host then none else some (scheme ++ host)

unfoldable pub match_base : List ℕ → Option (List ℕ)
unfolding before_slash after_prefix
match_base s = elim (after_prefix scheme s) [
  | none ↦ none
  | some rest ↦ with_host (before_slash rest)
]

-- `/:([^:@]+)@/` from behind the colon: what follows the match. The flag says that a character of the
-- group has been read.
unfoldable pub after_secret : Bool → List ℕ → Option (List ℕ)
after_secret seen [] = none
after_secret seen (c ∷ s) =
    let rest = after_secret true s in
    if c == b'@' then (if seen then some s else none) else if c == b':' then none else rest

abbrev pub stars : List ℕ
stars = codes ":***@"

-- `url.replace(/:([^:@]+)@/, ':***@')`, which replaces the first match.
unfoldable pub mask_manually : List ℕ → List ℕ
unfolding after_secret
mask_manually [] = []
mask_manually (c ∷ s) =
    let rest = mask_manually s in
    if c == b':'
    then (elim (after_secret false s) [ none ↦ c ∷ rest | some after ↦ stars ++ after ])
    else c ∷ rest

-- From the first question mark on, or nothing.
unfoldable pub query_params : List ℕ → List ℕ
query_params [] = []
query_params (c ∷ s) = let rest = query_params s in if c == b'?' then c ∷ s else rest

-- The environment variables.
pub record Environment : Type 0 where
  pub database_prefix : Option (List ℕ)
  pub database_url : Option (List ℕ)

-- The fields of the service that its constructor sets.
pub record Manager : Type 0 where
  pub database_prefix : List ℕ
  pub base_database_url : List ℕ

module _ {U : Type 0} (c : UrlClass U) where
  abbrev pub base_of : U → List ℕ
  base_of u =
      c.protocol u
      ++ codes "//"
      ++ c.username u
      ++ (if is_nil (c.password u) then [] else b':' ∷ c.password u)
      ++ b'@' ∷ c.host u

  unfoldable pub extract_base_url : List ℕ → List ℕ
  unfolding match_base
  extract_base_url db_url = elim (c.new_url db_url) [
    | some u ↦ base_of u
    | none ↦ elim (match_base db_url) [ some base ↦ base | none ↦ db_url ]
  ]

  -- The constructor.
  abbrev pub new_manager : Environment → Manager
  new_manager env = record {
    database_prefix = text_or env.database_prefix (codes "tenant");
    base_database_url = extract_base_url (text_or env.database_url []);
  }

  -- The constructor of the consumer that creates databases.
  abbrev pub new_creator : Environment → Manager
  new_creator env = record {
    database_prefix = text_or env.database_prefix (codes "tenant_");
    base_database_url = extract_base_url (text_or env.database_url []);
  }

  -- The URL that `getClient` gives to a tenant's client.
  unfoldable pub tenant_url : Manager → Environment → String → List ℕ
  unfolding query_params
  tenant_url manager env code =
      manager.base_database_url
      ++ (b'/' ∷ database_name manager.database_prefix code
          ++ query_params (text_or env.database_url []))

  abbrev pub url_for : Manager → Environment → Option String → List ℕ
  url_for manager env none = text_or env.database_url (codes "default")
  url_for manager env (some code) = tenant_url manager env code

  -- `getDatabaseUrl`, which `getCurrentDatabaseUrl` calls with the code of the context.
  unfoldable pub get_database_url : Manager → Environment → Option String → List ℕ
  unfolding tenant_url
  get_database_url manager env tenant = url_for manager env (filled tenant)

  abbrev pub masked : U → U
  masked u = if is_nil (c.password u) then u else c.set_password (codes "***") u

  unfoldable pub mask_database_url : List ℕ → List ℕ
  unfolding mask_manually
  mask_database_url url = elim (c.new_url url) [
    | some u ↦ c.to_string (masked u)
    | none ↦ mask_manually url
  ]
