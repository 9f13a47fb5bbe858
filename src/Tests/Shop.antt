-- ===== src/Tests/Shop.antt =====
-- Accounts, tenants, clients and the cache at concrete inputs.
use nestjs_order_api.Base.Chars.{codes}
use nestjs_order_api.Base.{List, ℕ, String, true, false, none, some, [], ◌∷◌, ◌≡◌, refl, arith}
use nestjs_order_api.Http.{ok, failure}
use nestjs_order_api.Schema.{pending}
use nestjs_order_api.Prisma.{World, pure, throw}
use nestjs_order_api.User.{
  admin, customer, UserView, CreateUserDto, NewUser, UserCalls, check_tenant, announce, filled,
}
use nestjs_order_api.User
use nestjs_order_api.User.Accounts.{IsCreating, IsAccount, create-IsAccount}
use nestjs_order_api.Tenant.Clients.{Pool, get_client, get_clients, get_client_again}
use nestjs_order_api.Cache.{Redis, Json}
use nestjs_order_api.Cache.Interceptor.{CacheOptions, CachedRequest, cached_call}
use nestjs_order_api.Cache.Calm.{cached_call_answers}
use nestjs_order_api.Rabbit.{publish_database_creation_message}
use nestjs_order_api.Rabbit.Laws.{documented_broker}
use nestjs_order_api.Tests.{steady, tables_in, world}

abbrev view_of : NewUser → UserView
view_of d = record {
  id = "u1";
  email = d.email;
  username = d.username;
  role = d.role;
  tenant_code = d.tenant_code;
  is_database_created = d.is_database_created;
  created_at = 1;
}

abbrev ann : UserView
ann = record {
  id = "u1";
  email = "ann@shop";
  username = "ann";
  role = admin;
  tenant_code = some "shop";
  is_database_created = false;
  created_at = 1;
}

-- A database without users, and calls that do nothing.
abbrev calls : UserCalls ℕ
calls = record {
  user_find_login = λ email username. pure none;
  user_find_tenant = λ code. pure none;
  user_create = λ d. pure (view_of d);
  user_find_many = pure [];
  user_find_unique = λ id. pure none;
  user_find_email = λ email. pure none;
  user_find_username = λ username. pure none;
  user_update = λ id d. throw (failure "no row");
  user_delete = λ id. throw (failure "no row");
  hash = λ password. pure "hash";
}

calls-IsCreating : IsCreating calls
calls-IsCreating = record { user_create_lem = λ d w h. ground arith }

abbrev request : CreateUserDto
request = record {
  email = "ann@shop";
  username = "ann";
  password = "secret";
  role = some admin;
  tenant_code = some "shop";
}

create-IsAccount_example : IsAccount (some "shop") ann
unfolding User.create check_tenant announce publish_database_creation_message documented_broker
create-IsAccount_example =
    create-IsAccount calls (documented_broker steady) calls-IsCreating request
      (world (tables_in pending) 0)
      {w' = record (world (tables_in pending) 1) {
        creations = record { user_id = "u1"; tenant_code = "shop" } ∷ [];
      }}
      refl

abbrev no_clients : Pool
no_clients = record { connections = []; made = 0 }

abbrev url : String → List ℕ
url code = codes code

-- The tenant whose code is _default_ gets the client of the default database.
get_client_again_example :
    let later =
      get_clients url (some "shop" ∷ some "bar" ∷ []) (get_client url none no_clients).1 in
    get_client url (some "_default_") later ≡ ((get_client url none no_clients).0, later)
get_client_again_example =
    get_client_again url none (some "_default_") (some "shop" ∷ some "bar" ∷ []) no_clients refl

-- A Redis that cannot be reached.
abbrev down : Redis ℕ
down = record {
  get = λ k. throw (failure "down");
  setex = λ k ttl v. throw (failure "down");
  del = λ ks. throw (failure "down");
  keys = λ pattern. throw (failure "down");
  ping = throw (failure "down");
}

abbrev texts : Json ℕ String
texts = record { stringify_args = λ fs. "{}"; stringify = λ s. s; parse = λ s. pure s }

abbrev listing : CachedRequest
listing = record {
  controller = "OrderController";
  method = "findAll";
  user_id = some "u1";
  params = [];
  query = ("page", "2") ∷ [];
}

abbrev five_minutes : CacheOptions
five_minutes = record { ttl = some 300; include_args = none; include_user_id = some true }

cached_call_answers_example :
    (a : String) × (w' : World ℕ) × (cached_call down texts none
        (some five_minutes)
        none
        listing
        (pure "answer")
        (world (tables_in pending) 0)
      ≡ (ok a, w'))
cached_call_answers_example =
    cached_call_answers down texts none (some five_minutes) none listing (pure "answer")
      (λ w. ("answer", w, refl)) (world (tables_in pending) 0)
