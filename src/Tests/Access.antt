-- ===== src/Tests/Access.antt =====
-- Registration and login, and the log at concrete inputs.
use nestjs_order_api.Base.{
  String, Bool, true, false, Option, none, some, List, [], ◌∷◌, ◌++◌, ◌===◌, ◌<>◌, ◌≡◌, refl, arith,
  eq_refl, if◌then◌else◌,
}
use nestjs_order_api.Base.Keyed.{find}
use nestjs_order_api.Http.{ok, failure}
use nestjs_order_api.Schema.{pending}
use nestjs_order_api.Prisma.{World, pure, throw}
use nestjs_order_api.Rabbit.{Broker}
use nestjs_order_api.User.{customer, User, NewUser, UserView, UserCalls, check_tenant, announce}
use nestjs_order_api.User
use nestjs_order_api.Auth.{
  RegisterDto, LoggedIn, Credentials, Account, without_password, login, register,
}
use nestjs_order_api.Auth.Registration.{email_key, IsDirectory, register-login}
use nestjs_order_api.Logging.{Values}
use nestjs_order_api.Logging.Lines.{LoggedRequest}
use nestjs_order_api.Tests.{tables_in}

-- A world whose rest is the table of users; a hash is the password with a mark behind it.
abbrev row_of : NewUser → User
row_of d = record {
  id = "u1";
  email = d.email;
  username = d.username;
  password = d.password;
  role = d.role;
  tenant_code = d.tenant_code;
  is_database_created = d.is_database_created;
  created_at = 1;
}

abbrev username_key : User → String
username_key u = u.username

abbrev either : Option User → Option User → Option User
either none o = o
either (some u) o = some u

abbrev directory : UserCalls (List User)
directory = record {
  user_find_login = λ email username w.
      (ok (either (find email_key email w.env) (find username_key username w.env)), w);
  user_find_tenant = λ code. pure none;
  user_create =
      λ d w. (ok (without_password (row_of d)), record w { env = w.env ++ row_of d ∷ [] });
  user_find_many = pure [];
  user_find_unique = λ id. pure none;
  user_find_email = λ email w. (ok (find email_key email w.env), w);
  user_find_username = λ username w. (ok (find username_key username w.env), w);
  user_update = λ id d. throw (failure "no row");
  user_delete = λ id. throw (failure "no row");
  hash = λ password. pure (password <> "#");
}

abbrev credentials : Credentials (List User)
credentials = record {
  compare = λ password h. pure ((password <> "#") === h);
  sign = λ p. pure p.sub;
}

abbrev rows : World (List User) → List User
rows w = w.env

abbrev fits : String → String → Bool
fits password h = (password <> "#") === h

either-none : (x y : Option User) → either x y ≡ none → x ≡ none
either-none none y h = refl
either-none (some u) y h = absurd (ground arith)

directory-IsDirectory : IsDirectory directory credentials rows fits
directory-IsDirectory = record {
  find_login_lem = λ email username w h. (
    either-none (find email_key email w.env) (find username_key username w.env) (ground arith),
    ground arith,
  );
  hash_lem = λ password w h. (ground (arith, eq_refl (password <> "#")), ground arith);
  user_create_lem = λ d w h. (row_of d, (refl, refl, refl, refl, ground arith), ground arith);
  find_email_lem = λ email w. (w, refl);
  compare_lem = λ password h w. (w, refl);
  sign_lem = λ p w. (p.sub, w, refl);
  sign_users = λ p w h. ground arith;
}

-- Nothing is published for a customer.
abbrev silent : Broker (List User)
silent = record {
  connect = throw (failure "down");
  create_channel = throw (failure "down");
  assert_queue = λ q. throw (failure "down");
  send_to_queue = λ l. throw (failure "down");
  consume = λ q. throw (failure "down");
  close_channel = pure tt;
  close_connection = pure tt;
  delay = pure tt;
}

abbrev newcomer : RegisterDto
newcomer = record { email = "bob@mail"; username = "bob"; password = "secret" }

abbrev nobody : World (List User)
nobody = record {
  tables = tables_in pending;
  processing = [];
  completed = [];
  creations = [];
  rabbit = record { connection = false; channel = false };
  env = [];
}

abbrev bob : Account
bob = record {
  id = "u1";
  email = "bob@mail";
  username = "bob";
  role = customer;
  tenant_code = none;
}

abbrev bob_row : User
bob_row = record {
  id = "u1";
  email = "bob@mail";
  username = "bob";
  password = "secret#";
  role = customer;
  tenant_code = none;
  is_database_created = true;
  created_at = 1;
}

register-login_example :
    (s : LoggedIn) × (w2 : World (List User)) × (login directory credentials
        (record { email = "bob@mail"; password = "secret" })
        (record nobody { env = bob_row ∷ []; processing = [] })
      ≡ (ok s, w2))
    × (s.user ≡ bob)
    × (s.user.role ≡ customer)
    × (s.user.tenant_code ≡ none)
unfolding register User.create check_tenant announce find
register-login_example =
    register-login directory credentials rows fits directory-IsDirectory silent newcomer nobody
      {r = record { access_token = "u1"; user = bob }} {w' = record nobody { env = bob_row ∷ [] }}
      refl (record nobody { env = bob_row ∷ []; processing = [] }) refl

-- Values that are texts.
abbrev strings : Values String
strings = record {
  is_truthy = λ s. if s === "" then false else true;
  text = λ s. s;
  stringify = λ fs. "{}";
}

abbrev secrets : List (String × String)
secrets = ("user", "bob") ∷ ("password", "secret") ∷ ("token", "key") ∷ []

abbrev asked : LoggedRequest String
asked = record {
  method = "POST";
  url = "/users";
  ip = "::1";
  user_agent = none;
  user = record { username = some "bob"; role = none; tenant_code = none };
  body = secrets;
  query = ("password", "old") ∷ [];
  params = [];
}
