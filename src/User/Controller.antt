-- ===== src/User/Controller.antt =====
-- user/user.controller.ts with its guards: each handler passes its arguments on to the service.
use nestjs_order_api.Base.{
  String, false, ◌&&◌, Option, none, some, List, [], ◌∷◌, if◌then◌else◌, ◌≡◌, refl, arith,
}
use nestjs_order_api.Http.{Exn, err}
use nestjs_order_api.Prisma.{World, Action, throw}
use nestjs_order_api.Rabbit.{Broker}
use nestjs_order_api.User.{
  admin, customer, UserView, CreateUserDto, UpdateUserDto, UserCalls, DatabaseStatus,
}
use nestjs_order_api.User
use nestjs_order_api.Tenant.{Principal, can_activate}
use nestjs_order_api.Product.Access.{is_authenticated, is_user}

-- `denied` is what the framework throws when a guard refuses.
module _ {E : Type 0} (denied : Option Principal → Exn) where
  -- `@UseGuards(JwtAuthGuard, RolesGuard)` with `@Roles(Role.ADMIN)`.
  unfoldable pub for_admins : {A : Type 0} → Option Principal → Action E A → Action E A
  for_admins user handler w =
      if is_authenticated user && can_activate (some (admin ∷ [])) user
      then handler w
      else throw (denied user) w

  for_admins-refused :
      {A : Type 0} (user : Option Principal) (handler : Action E A) (w : World E)
      → is_user admin user ≡ false
      → for_admins user handler w ≡ (err (denied user), w)
  unfolding for_admins can_activate
  for_admins-refused none handler w h = refl
  for_admins-refused (some user) handler w h = ground arith

  module _ (c : UserCalls E) (b : Broker E) where
    unfoldable pub create_user : Option Principal → CreateUserDto → Action E UserView
    unfolding for_admins
    create_user user dto = for_admins user (User.create c b dto)

    unfoldable pub list_users : Option Principal → Action E (List UserView)
    unfolding for_admins
    list_users user = for_admins user (User.find_all c)

    unfoldable pub show_user : Option Principal → String → Action E UserView
    unfolding for_admins
    show_user user id = for_admins user (User.find_one c id)

    unfoldable pub update_user : Option Principal → String → UpdateUserDto → Action E UserView
    unfolding for_admins
    update_user user id dto = for_admins user (User.update c id dto)

    unfoldable pub remove_user : Option Principal → String → Action E UserView
    unfolding for_admins
    remove_user user id = for_admins user (User.remove c id)

    unfoldable pub show_database_status : Option Principal → String → Action E DatabaseStatus
    unfolding for_admins
    show_database_status user id = for_admins user (User.check_database_status c id)

    -- The requests that write.
    pub data Writing : Type 0 where
      creates : CreateUserDto → Writing
      updates : String → UpdateUserDto → Writing
      removes : String → Writing

    abbrev pub write : Option Principal → Writing → Action E UserView
    write user (creates dto) w = create_user user dto w
    write user (updates id dto) w = update_user user id dto w
    write user (removes id) w = remove_user user id w

    -- No account is created, changed or removed by a request without a user, or of a user who is no
    -- ADMIN: it is refused and leaves the world as it was.
    only_admins_write :
        (user : Option Principal) (r : Writing) (w : World E)
        → is_user admin user ≡ false
        → write user r w ≡ (err (denied user), w)
    unfolding create_user update_user remove_user
    only_admins_write user (creates dto) w h = for_admins-refused user (User.create c b dto) w h
    only_admins_write user (updates id dto) w h = for_admins-refused user (User.update c id dto) w h
    only_admins_write user (removes id) w h = for_admins-refused user (User.remove c id) w h
