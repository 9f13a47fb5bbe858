-- ===== src/Tenant.antt =====
-- How a request chooses its tenant: prisma/tenant-context.service.ts,
-- auth/interceptors/tenant.interceptor.ts, common/decorators/tenant-code.decorator.ts, and
-- auth/guards/roles.guard.ts beside them.
pub mod Clients
pub mod Choice
pub mod RequestClient
pub mod Urls
pub mod Isolation
pub mod Masking
use nestjs_order_api.Base.{
  String, Bool, true, false, ◌||◌, Option, none, some, List, [], ◌∷◌, is_some,
}
use nestjs_order_api.Http.{Result, ok, err, bad_request}
use nestjs_order_api.User.{Role, admin, customer, filled}

-- `TenantContextService`: `null` or a code.
abbrev pub TenantContext : Type 0
TenantContext = Option String

-- The authenticated user, as far as it is read here.
pub record Principal : Type 0 where
  pub role : Role
  pub tenant_code : Option String

pub record TenantRequest : Type 0 where
  pub user : Option Principal
  pub path_tenant : Option String
  pub query_tenant : Option String

abbrev pub admin_tenant : Option Principal → Option String
admin_tenant none = none
admin_tenant (some user) = elim user.role [ admin ↦ filled user.tenant_code | customer ↦ none ]

-- The first of three texts that is there, or what there was.
abbrev pub first_of : Option String → Option String → Option String → TenantContext → TenantContext
first_of (some path) query user context = some path
first_of none (some query) user context = some query
first_of none none (some user) context = some user
first_of none none none context = context

-- `TenantInterceptor.intercept`: the context that the handler runs in.
unfoldable pub intercept : TenantRequest → TenantContext → TenantContext
intercept r context =
    first_of (filled r.path_tenant) (filled r.query_tenant) (admin_tenant r.user) context

abbrev required : Option String → Option String → Result String
required (some path) query = ok path
required none (some query) = ok query
required none none = err (bad_request "tenantCode path parameter is required")

-- The parameter decorator `TenantCode`.
unfoldable pub tenant_code : TenantRequest → Result String
tenant_code r = required (filled r.path_tenant) (filled r.query_tenant)

abbrev pub role_eq : Role → Role → Bool
role_eq admin admin = true
role_eq customer customer = true
role_eq _ _ = false

abbrev has_role : Option Principal → Role → Bool
has_role none role = false
has_role (some user) role = role_eq user.role role

abbrev some_role : Option Principal → List Role → Bool
some_role user [] = false
some_role user (role ∷ roles) = has_role user role || some_role user roles

-- `RolesGuard.canActivate`; `none` is a handler without `@Roles`.
unfoldable pub can_activate : Option (List Role) → Option Principal → Bool
can_activate none user = true
can_activate (some roles) user = some_role user roles
