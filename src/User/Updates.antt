-- ===== src/User/Updates.antt =====
-- About `update` (user/user.service.ts).
use nestjs_order_api.Base.{
  String, Option, none, some, List, or_else, ◌≡◌, refl, ap, ◌∙◌, arith, eq_refl,
}
use nestjs_order_api.Base.Keyed
use nestjs_order_api.Base.Keyed.{find, find-update}
use nestjs_order_api.Auth.{without_password}
use nestjs_order_api.Http.{ok}
use nestjs_order_api.Prisma.{World}
use nestjs_order_api.User.{User, UpdateUserDto, UserCalls, filled, find_one, hashed_data, update}

abbrev pub user_key : User → String
user_key u = u.id

-- A row after an update with `data`.
abbrev pub changed : UpdateUserDto → User → User
changed d u = record u {
  email = or_else d.email u.email;
  username = or_else d.username u.username;
  password = or_else d.password u.password;
  role = or_else d.role u.role;
}

abbrev pub rows_after : String → UpdateUserDto → List User → List User
rows_after id d rows = Keyed.update user_key id (changed d) rows

-- What is documented of the calls on the user table, whose rows are `users`, when they are answered: a
-- lookup gives the row with the id, and an update rewrites it. That is said only of updates that leave
-- the unique columns alone, since any other may break a constraint.
pub record IsUpdating {E : Type 0} (c : UserCalls E) (users : World E → List User) : Type 0 where
  pub find_unique_lem :
      (id : String) (w : World E) (u : User)
      → find user_key id (users w) ≡ some u
      → (w' : World E) × (c.user_find_unique id w ≡ (ok (some (without_password u)), w'))
        × (users w' ≡ users w)
  pub hash_lem :
      (password : String) (w : World E)
      → (h : String) × (w' : World E) × (c.hash password w ≡ (ok h, w')) × (users w' ≡ users w)
  pub user_update_lem :
      (id : String) (d : UpdateUserDto) (w : World E) (u : User)
      → find user_key id (users w) ≡ some u
      → d.email ≡ none
      → d.username ≡ none
      → (w' : World E) × (c.user_update id d w ≡ (ok (without_password (changed d u)), w'))
        × (users w' ≡ rows_after id d (users w))

module _ {E : Type 0} (c : UserCalls E) (users : World E → List User)
    (laws : IsUpdating c users) where
  -- The password may be another one; the other fields of the data are those of the request.
  hashed_data-same :
      (password : Option String) (dto : UpdateUserDto) (w : World E)
      → (d : UpdateUserDto) × (w' : World E) × (hashed_data c password dto w ≡ (ok d, w'))
        × (d.email ≡ dto.email)
        × (d.username ≡ dto.username)
        × (d.role ≡ dto.role)
        × (users w' ≡ users w)
  unfolding hashed_data
  hashed_data-same none dto w = (dto, w, refl, refl, refl, refl, refl)
  hashed_data-same (some password) dto w =
      let (h, w', run, same) = laws.hash_lem password w in
      (record dto { password = some h }, w', ground (arith, run), refl, refl, refl, same)

  -- If the calls are answered, an update of an account that is there, with data that names no email and
  -- no username, succeeds, whatever role it names: the account that is stored and answered has the role
  -- of the data and keeps its tenant code, flag, email and username. So a CUSTOMER that becomes ADMIN is
  -- an ADMIN without a tenant code, and an ADMIN that becomes CUSTOMER keeps the tenant code.
  pub update_role :
      (id : String) (dto : UpdateUserDto) (w : World E) (u : User)
      → find user_key id (users w) ≡ some u
      → dto.email ≡ none
      → dto.username ≡ none
      → (stored : User) × (w' : World E) × (update c id dto w ≡ (ok (without_password stored), w'))
        × (find user_key id (users w') ≡ some stored)
        × (stored.role ≡ or_else dto.role u.role)
        × (stored.tenant_code ≡ u.tenant_code)
        × (stored.is_database_created ≡ u.is_database_created)
        × (stored.email ≡ u.email)
        × (stored.username ≡ u.username)
  unfolding update find_one
  update_role id dto w u there no_email no_username =
      let (w1, looked, same1) = laws.find_unique_lem id w u there in
      let (d, w2, hashed, email, name, role, same2) =
        hashed_data-same (filled dto.password) dto w1 in
      let still : find user_key id (users w2) ≡ some u =
        ap (find user_key id) (same2 ∙ same1) ∙ there in
      let (w3, wrote, rows) =
        laws.user_update_lem id d w2 u still (email ∙ no_email) (name ∙ no_username) in
      (
        changed d u,
        w3,
        ground (arith, looked, hashed, wrote),
        ap (find user_key id) rows
            ∙ ground (
              arith,
              find-update user_key id id (changed d) (λ r. refl) (users w2),
              still,
              eq_refl id,
            ),
        ap (λ x. or_else x u.role) role,
        refl,
        refl,
        ap (λ x. or_else x u.email) (email ∙ no_email),
        ap (λ x. or_else x u.username) (name ∙ no_username),
      )
