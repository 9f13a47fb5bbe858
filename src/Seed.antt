-- ===== src/Seed.antt =====
-- prisma/seed.ts: the accounts that a new database is given. The calls of the Prisma client and of bcrypt
-- are those of the user service.
pub mod Repeated
use nestjs_order_api.Base.{String, Bool, true, false, Option, none, some, List, [], ◌∷◌, is_some}
use nestjs_order_api.Prisma.{Action, pure, ◌>>=◌, ◌>>◌}
use nestjs_order_api.User.{Role, admin, customer, NewUser, UserCalls}

pub record UserSeed : Type 0 where
  pub email : String
  pub username : String
  pub password : String
  pub role : Role

abbrev pub users : List UserSeed
users =
    record { email = "admin@provenant.eu"; username = "admin"; password = "admin123"; role = admin }
    ∷ record {
      email = "customer@provenant.eu";
      username = "customer";
      password = "customer123";
      role = customer;
    }
    ∷ []

-- The `data` of the creation; the schema's defaults are no tenant code and no database.
abbrev pub row_of : UserSeed → String → NewUser
row_of seed hashed = record {
  email = seed.email;
  username = seed.username;
  password = hashed;
  role = seed.role;
  tenant_code = none;
  is_database_created = false;
}

module _ {E : Type 0} (c : UserCalls E) where
  abbrev pub create_unless : Bool → UserSeed → Action E (Unit {0})
  create_unless true seed = pure tt
  create_unless false seed = do
    hashed ← c.hash seed.password
    c.user_create (row_of seed hashed)
    pure tt

  unfoldable pub seed_user : UserSeed → Action E (Unit {0})
  seed_user seed = do
    existing ← c.user_find_login seed.email seed.username
    create_unless (is_some existing) seed

  unfoldable pub seed_users : List UserSeed → Action E (Unit {0})
  unfolding seed_user
  seed_users [] = pure tt
  seed_users (s ∷ ss) = do seed_user s; seed_users ss

  -- `main`
  unfoldable pub main : Action E (Unit {0})
  unfolding seed_users
  main = seed_users users
