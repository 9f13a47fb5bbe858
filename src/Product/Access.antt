-- ===== src/Product/Access.antt =====
-- product/product.controller.ts: who may call which handler, and which tenant's products it reaches.
use nestjs_order_api.Base.{
  ℕ, String, Bool, true, false, ◌&&◌, Option, none, some, List, [], ◌∷◌, is_some, ◌≡◌, ◌≢◌, refl,
  arith, eq_iff,
}
use nestjs_order_api.User.{Role, admin, customer, filled}
use nestjs_order_api.Tenant.{
  TenantContext, TenantRequest, Principal, intercept, role_eq, can_activate,
}
use nestjs_order_api.Tenant.Clients.{get_clients}
use nestjs_order_api.Tenant.Urls.{UrlClass, Environment, new_manager, tenant_url}
use nestjs_order_api.Tenant.RequestClient.{request_client}
use nestjs_order_api.Tenant.Isolation.{no_clients, get_client-url}

pub data Route : Type 0 where
  creates lists shows updates removes : Route

-- The roles of each handler.
abbrev pub roles : Route → List Role
roles creates = admin ∷ []
roles lists = admin ∷ customer ∷ []
roles shows = admin ∷ customer ∷ []
roles updates = admin ∷ []
roles removes = admin ∷ []

-- `JwtAuthGuard` lets a request through that has a user.
abbrev pub is_authenticated : Option Principal → Bool
is_authenticated user = is_some user

-- The guards of the controller.
unfoldable pub admits : Route → Option Principal → Bool
admits route user = is_authenticated user && can_activate (some (roles route)) user

abbrev pub writes : Route → Bool
writes creates = true
writes lists = false
writes shows = false
writes updates = true
writes removes = true

abbrev pub is_user : Role → Option Principal → Bool
is_user role none = false
is_user role (some user) = role_eq user.role role

admits-writes :
    (route : Route) (user : Option Principal)
    → writes route ≡ true
    → admits route user ≡ is_user admin user
unfolding admits can_activate
admits-writes creates none h = refl
admits-writes creates (some user) h = ground arith
admits-writes updates none h = refl
admits-writes updates (some user) h = ground arith
admits-writes removes none h = refl
admits-writes removes (some user) h = ground arith
admits-writes lists user h = absurd (ground arith)
admits-writes shows user h = absurd (ground arith)

module _ {U : Type 0} (c : UrlClass U) (env : Environment) where
  abbrev url_of : String → List ℕ
  url_of code = tenant_url c (new_manager c env) env code

  -- A request that writes products admits the guards exactly when its user is an ADMIN, of whichever
  -- tenant; and the products that it reaches are those of the tenant code in its path, whatever the
  -- user's own tenant is, if that code is not empty and not _default_.
  pub any_admin :
      (route : Route) (r : TenantRequest) (code : String) (before : TenantContext)
      (earlier : List (Option String))
      → writes route ≡ true
      → r.path_tenant ≡ some code
      → code ≢ ""
      → code ≢ "_default_"
      → (admits route r.user ≡ is_user admin r.user)
        × ((request_client url_of
              (intercept r before)
              (none, get_clients url_of earlier no_clients)).0.url
            ≡ some (url_of code))
  unfolding request_client intercept
  any_admin route r code before earlier h path full other =
      let there : filled r.path_tenant ≡ some code = ground (arith, eq_iff code "") in
      (admits-writes route r.user h, rw there (get_client-url url_of earlier code full other))
