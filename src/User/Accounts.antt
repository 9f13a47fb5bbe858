-- ===== src/User/Accounts.antt =====
-- About `create` (user/user.service.ts).
use mathlib.Core.Path.{subst}
use nestjs_order_api.Base.{
  String, true, false, not, ◌&&◌, Option, none, some, is_some, or_else, ◌≡◌, ◌⊎◌, inl, inr, arith,
}
use nestjs_order_api.Http.{ok}
use nestjs_order_api.Prisma.{World, throw_if}
use nestjs_order_api.Prisma.Inversion.{>>=-eq-ok, throw_if-eq-ok}
use nestjs_order_api.Rabbit.{Broker}
use nestjs_order_api.User.{
  Role, admin, customer, UserView, CreateUserDto, NewUser, UserCalls, filled, is_admin,
  check_tenant, announce, create,
}

-- The two kinds of account.
abbrev pub IsAccount : Option String → UserView → Type 0
IsAccount code v =
    ((v.role ≡ admin)
      × (is_some v.tenant_code ≡ true)
      × (v.tenant_code ≡ code)
      × (v.is_database_created ≡ false))
    ⊎ ((v.role ≡ customer) × (v.tenant_code ≡ none) × (v.is_database_created ≡ true))

-- What the two role tests leave.
checked-IsAccount :
    (role : Option Role) (code : Option String) (v : UserView)
    → (is_admin role && not (is_some code)) ≡ false
    → (not (is_admin role) && is_some code) ≡ false
    → v.role ≡ or_else role customer
    → v.tenant_code ≡ code
    → v.is_database_created ≡ not (is_admin role)
    → IsAccount code v
checked-IsAccount (some admin) (some code) v a b r t d = inl (r, ground arith, t, d)
checked-IsAccount (some admin) none v a b r t d = absurd (ground arith)
checked-IsAccount (some customer) none v a b r t d = inr (r, t, d)
checked-IsAccount (some customer) (some code) v a b r t d = absurd (ground arith)
checked-IsAccount none none v a b r t d = inr (r, t, d)
checked-IsAccount none (some code) v a b r t d = absurd (ground arith)

-- `user.create` answers with the columns that it was given.
pub record IsCreating {E : Type 0} (c : UserCalls E) : Type 0 where
  pub user_create_lem :
      (d : NewUser) (w : World E) {v : UserView} {w' : World E}
      → c.user_create d w ≡ (ok v, w')
      → (v.role ≡ d.role)
        × (v.tenant_code ≡ d.tenant_code)
        × (v.is_database_created ≡ d.is_database_created)

module _ {E : Type 0} (c : UserCalls E) (b : Broker E) where
  -- An account that is created is an ADMIN with the tenant code that was asked for, whose database
  -- is not there yet; or a CUSTOMER without a tenant code, who needs no database.
  pub create-IsAccount :
      IsCreating c
      → (dto : CreateUserDto) (w : World E) {v : UserView} {w' : World E}
      → create c b dto w ≡ (ok v, w')
      → IsAccount (filled dto.tenant_code) v
  unfolding create
  create-IsAccount laws dto w {v} {w'} h =
      let role = dto.role in
      let code = filled dto.tenant_code in
      let (x1, w1, r1, h1) = >>=-eq-ok (throw_if (is_admin role && not (is_some code)) _) _ w h in
      let (x2, w2, r2, h2) = >>=-eq-ok (throw_if (not (is_admin role) && is_some code) _) _ w1 h1 in
      let (found, w3, r3, h3) = >>=-eq-ok (c.user_find_login dto.email dto.username) _ w2 h2 in
      let (x4, w4, r4, h4) = >>=-eq-ok (throw_if (is_some found) _) _ w3 h3 in
      let (x5, w5, r5, h5) = >>=-eq-ok (check_tenant c code) _ w4 h4 in
      let (hashed, w6, r6, h6) = >>=-eq-ok (c.hash dto.password) _ w5 h5 in
      let (user, w7, r7, h7) = >>=-eq-ok (c.user_create _) _ w6 h6 in
      let (x8, w8, r8, h8) = >>=-eq-ok (announce c b role code user) _ w7 h7 in
      let (same_role, same_code, same_flag) = laws.user_create_lem _ w6 r7 in
      let made : IsAccount code user =
        checked-IsAccount role code user (throw_if-eq-ok _ _ w r1).0 (throw_if-eq-ok _ _ w1 r2).0
          same_role same_code same_flag in
      let answer : user ≡ v = ground arith in subst (IsAccount code) answer made
