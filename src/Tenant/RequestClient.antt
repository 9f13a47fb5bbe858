-- ===== src/Tenant/RequestClient.antt =====
-- prisma/prisma.service.ts: the client of one request, chosen when it is first used. The delegates pass
-- on to it.
use nestjs_order_api.Base.{ℕ, List, String, Option, none, some, ◌≡◌, ap}
use nestjs_order_api.Base.{◌++◌, or_else, ◌≢◌, arith, eq_iff, sym, ◌∙◌}
use nestjs_order_api.Base.Chars.{codes}
use nestjs_order_api.User.{filled}
use nestjs_order_api.Tenant.Urls.{
  UrlClass, Environment, new_manager, tenant_url, url_for, get_database_url, mask_database_url,
}
use nestjs_order_api.Tenant.Isolation.{no_clients, get_client-url}
use nestjs_order_api.Tenant.Clients.{get_clients}
use nestjs_order_api.Http.{ok}
use nestjs_order_api.Tenant.{TenantContext, TenantRequest, intercept, tenant_code}
use nestjs_order_api.Tenant.Clients.{Client, Pool, get_client}
use nestjs_order_api.Tenant.Choice.{tenant_code-intercept}

module _ (url_of : String → List ℕ) where
  -- The getter `client`; the state is `_client` and the pool.
  unfoldable pub request_client :
      TenantContext → Option Client × Pool → Client × (Option Client × Pool)
  request_client context (some client, pool) = (client, (some client, pool))
  request_client context (none, pool) =
      let (client, later) = get_client url_of context pool in (client, (some client, later))

  -- The queries of a request whose handler is given a tenant code go to that tenant's client from the
  -- first to the last, whatever the tenant context was before the request and whatever it becomes
  -- after the first query.
  request_client-tenant_code :
      (r : TenantRequest) (before after : TenantContext) (pool : Pool) {code : String}
      → tenant_code r ≡ ok code
      → let (client, state) = request_client (intercept r before) (none, pool) in
        (client ≡ (get_client url_of (some code) pool).0)
        × ((request_client after state).0 ≡ (get_client url_of (some code) pool).0)
  unfolding request_client
  request_client-tenant_code r before after pool h =
      let chosen = tenant_code-intercept r before h in
      let same = ap (λ c. (get_client url_of c pool).0) chosen in (same, same)

-- `getCurrentDatabaseUrl`, and the line of `logCurrentDatabaseUrl`.
module _ {U : Type 0} (c : UrlClass U) (env : Environment) where
  unfoldable pub get_current_database_url : TenantContext → List ℕ
  get_current_database_url context = get_database_url c (new_manager c env) env context

  unfoldable pub current_database_line : TenantContext → List ℕ
  unfolding get_current_database_url
  current_database_line context =
      codes "Current database URL for tenant '"
      ++ (codes (or_else (filled context) "default")
          ++ (codes "': " ++ mask_database_url c (get_current_database_url context)))

  -- The URL that a request with a tenant code reports is the one that its client has been given, if the
  -- code is not _default_.
  reported_url :
      (code : String) (earlier : List (Option String))
      → code ≢ ""
      → code ≢ "_default_"
      → (request_client
          (tenant_url c (new_manager c env) env)
          (some code)
          (none, get_clients (tenant_url c (new_manager c env) env) earlier no_clients)).0.url
        ≡ some (get_current_database_url (some code))
  unfolding request_client get_current_database_url get_database_url
  reported_url code earlier full other =
      let there : filled (some code) ≡ some code = ground (arith, eq_iff code "") in
      get_client-url (tenant_url c (new_manager c env) env) earlier code full other
      ∙ sym (ap (λ t. some (url_for c (new_manager c env) env t)) there)
