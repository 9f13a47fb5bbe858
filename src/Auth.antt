-- ===== src/Auth.antt =====
-- auth/auth.service.ts and auth/strategies/jwt.strategy.ts. The comparison of bcrypt and the signing of
-- tokens are parameters.
pub mod Registration
pub mod Controller
use nestjs_order_api.Base.{String, Bool, not, Option, none, some}
use nestjs_order_api.Http.{unauthorized}
use nestjs_order_api.Prisma.{Action, pure, ◌>>=◌, ◌>>◌, throw_if, or_throw}
use nestjs_order_api.Rabbit.{Broker}
use nestjs_order_api.User.{
  Role, customer, User, UserView, CreateUserDto, UserCalls, filled, find_by_email, create,
}

pub record LoginDto : Type 0 where
  pub email : String
  pub password : String

pub record RegisterDto : Type 0 where
  pub email : String
  pub username : String
  pub password : String

-- What a token holds; a field that is `undefined` is `none`.
pub record Payload : Type 0 where
  pub email : String
  pub sub : String
  pub role : Role
  pub tenant_code : Option String

pub record Account : Type 0 where
  pub id : String
  pub email : String
  pub username : String
  pub role : Role
  pub tenant_code : Option String

pub record LoggedIn : Type 0 where
  pub access_token : String
  pub user : Account

pub record Credentials (E : Type 0) : Type 0 where
  pub compare : (password hash : String) → Action E Bool
  pub sign : Payload → Action E String

-- `const { password: _, ...result } = user`
abbrev pub without_password : User → UserView
without_password u = record {
  id = u.id;
  email = u.email;
  username = u.username;
  role = u.role;
  tenant_code = u.tenant_code;
  is_database_created = u.is_database_created;
  created_at = u.created_at;
}

abbrev pub account_of : UserView → Option String → Account
account_of u tenant = record {
  id = u.id;
  email = u.email;
  username = u.username;
  role = u.role;
  tenant_code = tenant;
}

abbrev pub payload_of : UserView → Option String → Payload
payload_of u tenant = record { email = u.email; sub = u.id; role = u.role; tenant_code = tenant }

-- `{ ...registerDto, role: 'CUSTOMER' }`
abbrev pub customer_of : RegisterDto → CreateUserDto
customer_of dto = record {
  email = dto.email;
  username = dto.username;
  password = dto.password;
  role = some customer;
  tenant_code = none;
}

module _ {E : Type 0} (c : UserCalls E) (a : Credentials E) where
  unfoldable pub validate_user : (email password : String) → Action E UserView
  unfolding find_by_email
  validate_user email password = do
    user ← or_throw (← find_by_email c email) (unauthorized "Invalid credentials")
    valid ← a.compare password user.password
    throw_if (not valid) (unauthorized "Invalid credentials")
    pure (without_password user)

  unfoldable pub login : LoginDto → Action E LoggedIn
  unfolding validate_user
  login dto = do
    user ← validate_user dto.email dto.password
    token ← a.sign (payload_of user (filled user.tenant_code))
    pure (record { access_token = token; user = account_of user (filled user.tenant_code) })

  unfoldable pub register : Broker E → RegisterDto → Action E LoggedIn
  unfolding create
  register b dto = do
    user ← create c b (customer_of dto)
    token ← a.sign (payload_of user none)
    pure (record { access_token = token; user = account_of user none })

  -- `JwtStrategy.validate`: the user of a token's `sub`.
  unfoldable pub validate : Payload → Action E Account
  validate payload = do
    user ← or_throw (← c.user_find_unique payload.sub) (unauthorized "Unauthorized")
    pure (account_of user user.tenant_code)
