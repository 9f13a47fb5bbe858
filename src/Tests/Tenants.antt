-- ===== src/Tests/Tenants.antt =====
-- The databases of tenants, and the URLs that are logged, at concrete inputs.
use nestjs_order_api.Base.{
  true, ℕ, none, some, List, [], ◌∷◌, ◌++◌, map, ◌≡◌, ◌≢◌, ◌↔◌, refl, arith, eq_iff,
}
use nestjs_order_api.Base.Chars.{codes}
use nestjs_order_api.Database.Creation.{lower, database_name}
use nestjs_order_api.Tenant.Clients.{get_client, get_clients}
use nestjs_order_api.Tenant.Urls.{
  UrlClass, Environment, text_or, query_params, new_manager, new_creator, tenant_url, stars,
  mask_database_url, extract_base_url,
}
use nestjs_order_api.User.{admin}
use nestjs_order_api.Tenant.{TenantRequest, intercept}
use nestjs_order_api.Tenant.RequestClient.{request_client}
use nestjs_order_api.Product.Access.{removes, admits, any_admin}
use nestjs_order_api.Tenant.Isolation.{no_clients, one_url, created_database}
use nestjs_order_api.Tenant.Masking.{mask_database_url-secret}

-- A runtime that reads no URL: the fallbacks are taken.
abbrev unread : UrlClass (List ℕ)
unread = record {
  new_url = λ s. none;
  protocol = λ u. u;
  username = λ u. u;
  password = λ u. u;
  host = λ u. u;
  set_password = λ p u. u;
  to_string = λ u. u;
}

abbrev env : Environment
env = record {
  database_prefix = none;
  database_url = some (codes "postgresql://db:5432/main?schema=public");
}

base :
    extract_base_url unread (codes "postgresql://db:5432/main?schema=public")
    ≡ codes "postgresql://db:5432"
unfolding extract_base_url
base = refl

shop_url :
    tenant_url unread (new_manager unread env) env "Shop"
    ≡ codes "postgresql://db:5432/tenantshop?schema=public"
unfolding tenant_url extract_base_url
shop_url = refl

one_url_example :
    ((get_client (tenant_url unread (new_manager unread env) env) (some "Shop") (
        get_clients
          (tenant_url unread (new_manager unread env) env)
          (some "shop" ∷ [])
          no_clients)).0.url
      ≡ (get_client
          (tenant_url unread (new_manager unread env) env)
          (some "shop")
          (get_clients (tenant_url unread (new_manager unread env) env) [] no_clients)).0.url)
    ↔ (map lower (codes "Shop") ≡ map lower (codes "shop"))
one_url_example =
    one_url unread env (some "shop" ∷ []) [] "Shop" "shop" (ground (arith, eq_iff "Shop" ""))
      (ground (arith, eq_iff "Shop" "_default_")) (ground (arith, eq_iff "shop" ""))
      (ground (arith, eq_iff "shop" "_default_"))

created_database_example :
    ((get_client (tenant_url unread (new_manager unread env) env) (some "shop") (
        get_clients
          (tenant_url unread (new_manager unread env) env)
          (some "bar" ∷ [])
          no_clients)).0.url
      ≡ some (
          (new_manager unread env).base_database_url
          ++ (b'/' ∷ database_name (new_creator unread env).database_prefix "shop"
              ++ query_params (text_or env.database_url []))))
    ↔ (text_or env.database_prefix [] ≢ [])
created_database_example =
    created_database unread env (some "bar" ∷ []) "shop" (ground (arith, eq_iff "shop" ""))
      (ground (arith, eq_iff "shop" "_default_"))

mask_database_url-secret_example :
    mask_database_url unread (codes "pg://ann:pw@db") ≡ codes "pg://ann" ++ (stars ++ codes "db")
mask_database_url-secret_example =
    mask_database_url-secret unread (codes "pg://ann") b'p' (b'w' ∷ []) (codes "db") (ground arith)
      (ground arith) refl

-- An ADMIN of the tenant bar removes a product of the tenant shop.
abbrev of_bar : TenantRequest
of_bar = record {
  user = some (record { role = admin; tenant_code = some "bar" });
  path_tenant = some "shop";
  query_tenant = none;
}

any_admin_example :
    (admits removes of_bar.user ≡ true)
    × ((request_client (tenant_url unread (new_manager unread env) env) (intercept of_bar none) (
      none,
      get_clients (tenant_url unread (new_manager unread env) env) (some "bar" ∷ []) no_clients,
    )).0.url
        ≡ some (tenant_url unread (new_manager unread env) env "shop"))
any_admin_example =
    any_admin unread env removes of_bar "shop" none (some "bar" ∷ []) refl refl
      (ground (arith, eq_iff "shop" "")) (ground (arith, eq_iff "shop" "_default_"))
