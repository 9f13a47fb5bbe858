-- ===== src/Auth/Controller.antt =====
-- auth/auth.controller.ts: the two handlers without a guard, and the one that answers with the user.
use nestjs_order_api.Base.{Option, none, some}
use nestjs_order_api.Http.{Exn, Result, ok, err}
use nestjs_order_api.Prisma.{Action}
use nestjs_order_api.Rabbit.{Broker}
use nestjs_order_api.User.{UserCalls}
use nestjs_order_api.Tenant.{Principal}
use nestjs_order_api.Auth.{LoginDto, RegisterDto, LoggedIn, Credentials}
use nestjs_order_api.Auth

module _ {E : Type 0} (c : UserCalls E) (a : Credentials E) where
  unfoldable pub register_account : Broker E → RegisterDto → Action E LoggedIn
  register_account b dto = Auth.register c a b dto

  unfoldable pub login_account : LoginDto → Action E LoggedIn
  login_account dto = Auth.login c a dto

-- `getProfile` behind `JwtAuthGuard`, which throws `denied` without a user.
unfoldable pub get_profile : Exn → Option Principal → Result Principal
get_profile denied none = err denied
get_profile denied (some user) = ok user
