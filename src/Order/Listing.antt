-- ===== src/Order/Listing.antt =====
-- `findAll` (order/order.service.ts): a user's orders across the tenants. `tenants` are the codes of
-- the users whose database is created; `fetch` is `order.findMany` of a tenant's own client, which
-- answers with the user's orders in that tenant or throws.
use nestjs_order_api.Base.{ℕ, zero, suc, String, List, [], ◌∷◌, ◌++◌, map}
use nestjs_order_api.Base.Sort.{newest_first}
use nestjs_order_api.Http.{Result, ok, err}
use nestjs_order_api.Schema.{OrderView}
use nestjs_order_api.Page.{Page, cut_page}

-- `{ ...order, tenantCode }`
pub record TenantOrder : Type 0 where
  pub view : OrderView
  pub tenant_code : String

abbrev pub tag : String → OrderView → TenantOrder
tag tenant v = record { view = v; tenant_code = tenant }

-- What one round of the loop pushes; an error is logged and the loop goes on.
abbrev pub pushed : String → Result (List OrderView) → List TenantOrder
pushed tenant (ok orders) = map (tag tenant) orders
pushed tenant (err e) = []

abbrev pub created_at : TenantOrder → ℕ
created_at o = o.view.order.created_at

module _ (fetch : String → Result (List OrderView)) where
  unfoldable pub gather : List String → List TenantOrder
  gather [] = []
  gather (tenant ∷ tenants) = pushed tenant (fetch tenant) ++ gather tenants

  unfoldable pub find_all : List String → ℕ → ℕ → Page TenantOrder
  unfolding gather
  find_all tenants page per_page = cut_page (newest_first created_at (gather tenants)) page per_page

  -- What `find_all` answers for the pages 1, 2, ..., n, one after the other.
  abbrev pub listed : List String → ℕ → ℕ → List TenantOrder
  listed tenants per_page zero = []
  listed tenants per_page (suc n) =
      listed tenants per_page n ++ (find_all tenants (suc n) per_page).items
