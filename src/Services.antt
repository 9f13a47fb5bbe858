-- ===== src/Services.antt =====
-- What order.service.ts and product.service.ts repeat: their messages, and the `catch` clause that
-- turns a missing tenant database into a bad request.
pub mod Laws
use nestjs_order_api.Base.{String, ◌<>◌, includes, if◌then◌else◌}
use nestjs_order_api.Http.{Exn, bad_request, not_found, message}
use nestjs_order_api.Prisma.{Action, throw, catch}

abbrev pub no_tenant : String → Exn
no_tenant tenant = bad_request (
    "Tenant database for '" <> tenant
    <> "' does not exist. Please ensure the tenant is properly set up.")

abbrev pub no_order : String → Exn
no_order id = not_found ("Order with ID " <> id <> " not found")

abbrev pub no_product : String → Exn
no_product id = not_found ("Product with ID " <> id <> " not found")

module _ {E : Type 0} {A : Type 0} where
  unfoldable pub tenant_errors : String → Exn → Action E A
  tenant_errors tenant e =
      if includes (message e) "does not exist" then throw (no_tenant tenant) else throw e

  unfoldable pub guarded : String → Action E A → Action E A
  unfolding tenant_errors
  guarded tenant m = catch m (tenant_errors tenant)
