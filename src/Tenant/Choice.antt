-- ===== src/Tenant/Choice.antt =====
-- The interceptor's choice of tenant and the decorator's.
use nestjs_order_api.Base.{String, some, ◌≡◌, arith}
use nestjs_order_api.Http.{ok}
use nestjs_order_api.Tenant.{TenantContext, TenantRequest, intercept, tenant_code}

-- The tenant code that a handler is given is the tenant whose database the request works on, whatever
-- the context was.
pub tenant_code-intercept :
    (r : TenantRequest) (context : TenantContext) {code : String}
    → tenant_code r ≡ ok code
    → intercept r context ≡ some code
unfolding tenant_code intercept
tenant_code-intercept r context h = ground arith
