-- ===== src/User.antt =====
-- user/user.service.ts, over the calls of the default database's Prisma client, and of bcrypt, which
-- are parameters.
pub mod Accounts
pub mod Updates
pub mod Controller
use nestjs_order_api.Base.{
  ℕ, String, Bool, true, false, not, ◌&&◌, Option, none, some, List, is_some, or_else, ◌<>◌, ◌===◌,
}
use nestjs_order_api.Http.{bad_request, not_found, conflict}
use nestjs_order_api.Rabbit.{Broker, publish_database_creation_message}
use nestjs_order_api.Prisma.{Action, pure, ◌>>=◌, ◌>>◌, throw_if, or_throw, catch}

pub data Role : Type 0 where
  admin customer : Role

pub record User : Type 0 where
  pub id : String
  pub email : String
  pub username : String
  pub password : String
  pub role : Role
  pub tenant_code : Option String
  pub is_database_created : Bool
  pub created_at : ℕ

-- The columns that every `select` names: all but the password.
pub record UserView : Type 0 where
  pub id : String
  pub email : String
  pub username : String
  pub role : Role
  pub tenant_code : Option String
  pub is_database_created : Bool
  pub created_at : ℕ

pub record CreateUserDto : Type 0 where
  pub email : String
  pub username : String
  pub password : String
  pub role : Option Role
  pub tenant_code : Option String

pub record UpdateUserDto : Type 0 where
  pub email : Option String
  pub username : Option String
  pub password : Option String
  pub role : Option Role

-- The `data` of `user.create`; the password is the hash.
pub record NewUser : Type 0 where
  pub email : String
  pub username : String
  pub password : String
  pub role : Role
  pub tenant_code : Option String
  pub is_database_created : Bool

-- What the service calls.
pub record UserCalls (E : Type 0) : Type 0 where
  pub user_find_login : (email username : String) → Action E (Option User)
  pub user_find_tenant : String → Action E (Option User)
  pub user_create : NewUser → Action E UserView
  pub user_find_many : Action E (List UserView)
  pub user_find_unique : String → Action E (Option UserView)
  pub user_find_email : String → Action E (Option User)
  pub user_find_username : String → Action E (Option User)
  pub user_update : String → UpdateUserDto → Action E UserView
  pub user_delete : String → Action E UserView
  pub hash : String → Action E String

-- A text that JavaScript takes for true: one that is there and not empty.
abbrev pub filled : Option String → Option String
filled none = none
filled (some s) = elim (s === "") [ true ↦ none | false ↦ some s ]

abbrev pub is_admin : Option Role → Bool
is_admin none = false
is_admin (some admin) = true
is_admin (some customer) = false

pub record DatabaseStatus : Type 0 where
  pub user_id : String
  pub is_database_created : Bool
  pub message : String

module _ {E : Type 0} (c : UserCalls E) where
  -- The tenant code, if one is given, must be free.
  unfoldable pub check_tenant : Option String → Action E (Unit {0})
  check_tenant none = pure tt
  check_tenant (some code) = do
    existing ← c.user_find_tenant code
    throw_if (is_some existing) (conflict "Tenant code is already in use")

  module _ (b : Broker E) where
    -- The message of a new ADMIN; that it cannot be sent is only logged.
    unfoldable pub announce : Option Role → Option String → UserView → Action E (Unit {0})
    announce (some admin) (some code) user =
        catch
          (publish_database_creation_message b (record { user_id = user.id; tenant_code = code }))
          (λ e. pure tt)
    announce _ _ user = pure tt

    unfoldable pub create : CreateUserDto → Action E UserView
    unfolding check_tenant announce
    create dto = do
      throw_if (is_admin dto.role && not (is_some (filled dto.tenant_code)))
          (bad_request "tenantCode is required for ADMIN role")
      throw_if (not (is_admin dto.role) && is_some (filled dto.tenant_code))
          (bad_request "tenantCode can only be set for ADMIN role")
      existing ← c.user_find_login dto.email dto.username
      throw_if (is_some existing) (conflict "User with this email or username already exists")
      check_tenant (filled dto.tenant_code)
      hashed ← c.hash dto.password
      user ← c.user_create (record {
        email = dto.email;
        username = dto.username;
        password = hashed;
        role = or_else dto.role customer;
        tenant_code = filled dto.tenant_code;
        is_database_created = not (is_admin dto.role);
      })
      announce dto.role (filled dto.tenant_code) user
      pure user

  unfoldable pub find_all : Action E (List UserView)
  find_all = c.user_find_many

  unfoldable pub find_one : String → Action E UserView
  find_one id = do
    or_throw (← c.user_find_unique id) (not_found ("User with ID " <> id <> " not found"))

  unfoldable pub find_by_email : String → Action E (Option User)
  find_by_email email = c.user_find_email email

  unfoldable pub find_by_username : String → Action E (Option User)
  find_by_username username = c.user_find_username username

  -- A password that is given is replaced by its hash.
  unfoldable pub hashed_data : Option String → UpdateUserDto → Action E UpdateUserDto
  hashed_data none dto = pure dto
  hashed_data (some password) dto = do
    hashed ← c.hash password
    pure (record dto { password = some hashed })

  unfoldable pub update : String → UpdateUserDto → Action E UserView
  unfolding find_one hashed_data
  update id dto = do
    find_one id
    data_ ← hashed_data (filled dto.password) dto
    c.user_update id data_

  unfoldable pub remove : String → Action E UserView
  unfolding find_one
  remove id = do find_one id; c.user_delete id

  abbrev status_message : Bool → String
  status_message true = "Database is ready for use"
  status_message false = "Database creation is in progress or failed"

  unfoldable pub check_database_status : String → Action E DatabaseStatus
  unfolding find_one
  check_database_status id = do
    user ← find_one id
    pure (record {
      user_id = user.id;
      is_database_created = user.is_database_created;
      message = status_message user.is_database_created;
    })
