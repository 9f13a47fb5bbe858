-- ===== src/Tests/Users.antt =====
-- An account that is changed, at concrete inputs.
use nestjs_order_api.Base.{
  All, is_some, ◌++◌, ◌===◌, if◌then◌else◌, String, true, false, Option, none, some, List, [], ◌∷◌,
  or_else, ◌<>◌, ◌≡◌, refl, arith,
}
use nestjs_order_api.Base.Keyed.{find, update}
use nestjs_order_api.Http.{Result, ok, err, failure}
use nestjs_order_api.Schema.{pending}
use nestjs_order_api.Prisma.{World, pure, throw}
use nestjs_order_api.User.{
  NewUser, Role, admin, customer, User, UserView, UpdateUserDto, UserCalls, hashed_data, find_one,
}
use nestjs_order_api.User
use nestjs_order_api.User.Updates.{user_key, changed, rows_after, IsUpdating, update_role}
use nestjs_order_api.Seed.{users, seed_user, seed_users, main}
use nestjs_order_api.Seed.Repeated.{is_taken, IsRegister, IsSeeded, main_again}
use nestjs_order_api.Auth.{without_password}
use nestjs_order_api.Tests.{tables_in}

abbrev view : Option User → Option UserView
view none = none
view (some u) = some (without_password u)

abbrev rewrite :
    String → UpdateUserDto → World (List User) → Option User → Result UserView × World (List User)
rewrite id d w none = (err (failure "no row"), w)
rewrite id d w (some u) =
    (ok (without_password (changed d u)), record w { env = update user_key id (changed d) w.env })

-- A world whose rest is the table of users.
abbrev registry : UserCalls (List User)
registry = record {
  user_find_login = λ email username. pure none;
  user_find_tenant = λ code. pure none;
  user_create = λ d. throw (failure "read only");
  user_find_many = pure [];
  user_find_unique = λ id w. (ok (view (find user_key id w.env)), w);
  user_find_email = λ email. pure none;
  user_find_username = λ username. pure none;
  user_update = λ id d w. rewrite id d w (find user_key id w.env);
  user_delete = λ id. throw (failure "read only");
  hash = λ password. pure (password <> "#");
}

registry-IsUpdating : IsUpdating registry (λ w. w.env)
registry-IsUpdating = record {
  find_unique_lem = λ id w u there. (w, ground (arith, there), refl);
  hash_lem = λ password w. (password <> "#", w, refl, refl);
  user_update_lem =
      λ id d w u there e n. (record w { env = rows_after id d w.env }, ground (arith, there), refl);
}

abbrev bob : User
bob = record {
  id = "u1";
  email = "bob@mail";
  username = "bob";
  password = "secret#";
  role = customer;
  tenant_code = none;
  is_database_created = true;
  created_at = 1;
}

abbrev only_bob : World (List User)
only_bob = record {
  tables = tables_in pending;
  processing = [];
  completed = [];
  creations = [];
  rabbit = record { connection = false; channel = false };
  env = bob ∷ [];
}

abbrev promotion : UpdateUserDto
promotion = record { email = none; username = none; password = none; role = some admin }

-- An ADMIN without a tenant.
update_role_example :
    (stored : User) × (w' : World (List User)) × (User.update registry "u1" promotion only_bob
      ≡ (ok (without_password stored), w'))
    × (find user_key "u1" w'.env ≡ some stored)
    × (stored.role ≡ or_else (some admin) customer)
    × (stored.tenant_code ≡ none)
    × (stored.is_database_created ≡ true)
    × (stored.email ≡ "bob@mail")
    × (stored.username ≡ "bob")
unfolding find
update_role_example =
    update_role registry (λ w. w.env) registry-IsUpdating "u1" promotion only_bob bob refl refl refl

-- A database without rows, seeded twice.
abbrev found : (email username : String) → List User → Option User
found email username [] = none
found email username (u ∷ us) =
    let rest = found email username us in
    if u.email === email then some u else if u.username === username then some u else rest

abbrev seeded_row : NewUser → User
seeded_row d = record {
  id = d.username;
  email = d.email;
  username = d.username;
  password = d.password;
  role = d.role;
  tenant_code = d.tenant_code;
  is_database_created = d.is_database_created;
  created_at = 1;
}

abbrev fresh : UserCalls (List User)
fresh = record registry {
  user_find_login = λ email username w. (ok (found email username w.env), w);
  user_create =
      λ d w. (ok (without_password (seeded_row d)), record w { env = w.env ++ seeded_row d ∷ [] });
}

is_some-found :
    (email username : String) (us : List User)
    → is_some (found email username us) ≡ is_taken email username us
unfolding is_taken
is_some-found email username [] = refl
is_some-found email username (u ∷ us) = ground (arith, is_some-found email username us)

fresh-IsRegister : IsRegister fresh (λ w. w.env)
fresh-IsRegister = record {
  find_login_lem =
      λ email username w h. (ground (arith, is_some-found email username w.env), ground arith);
  hash_rows = λ password w h. ground arith;
  user_create_lem = λ d w h. (seeded_row d, refl, ground arith);
}

abbrev no_rows : World (List User)
no_rows = record only_bob { env = [] }

abbrev seeded : World (List User)
seeded = (main fresh no_rows).1

main_again_example :
    All (IsSeeded fresh (λ w. w.env) fresh-IsRegister seeded) users
    × ((main fresh seeded).1.env ≡ seeded.env)
unfolding main seed_users seed_user
main_again_example =
    main_again fresh (λ w. w.env) fresh-IsRegister no_rows {w1 = seeded}
      {w2 = (main fresh seeded).1} refl refl
