-- ===== src/Auth/Registration.antt =====
-- About registration and login together.
use nestjs_order_api.Base.{
  String, Bool, true, false, Option, none, some, is_some, List, [], ◌∷◌, ◌++◌, ◌≡◌, refl, sym, ap,
  ◌∙◌, arith, eq_refl,
}
use nestjs_order_api.Base.Keyed.{find, find-append}
use nestjs_order_api.Http.{ok}
use nestjs_order_api.Prisma.{World, throw_if}
use nestjs_order_api.Prisma.Inversion.{>>=-eq-ok, throw_if-eq-ok}
use nestjs_order_api.Rabbit.{Broker}
use nestjs_order_api.User.{
  customer, User, UserView, NewUser, UserCalls, filled, check_tenant, announce, create,
  find_by_email,
}
use nestjs_order_api.Auth.{
  RegisterDto, Payload, LoggedIn, Credentials, without_password, account_of, payload_of,
  validate_user, login, register, customer_of,
}

abbrev pub email_key : User → String
email_key u = u.email

-- The row that a creation has stored.
abbrev pub IsRowOf : NewUser → UserView → User → Type 0
IsRowOf d v u =
    (u.email ≡ d.email)
    × (u.password ≡ d.password)
    × (u.role ≡ d.role)
    × (u.tenant_code ≡ d.tenant_code)
    × (without_password u ≡ v)

-- What is documented of the user table, whose rows are `users`, and of bcrypt: a hash matches the
-- password that it was made from. The lookups of a login are answered; signing does not fail.
pub record IsDirectory {E : Type 0} (c : UserCalls E) (a : Credentials E)
    (users : World E → List User) (matches : String → String → Bool) : Type 0 where
  pub find_login_lem :
      (email username : String) (w : World E) {w' : World E}
      → c.user_find_login email username w ≡ (ok none, w')
      → (find email_key email (users w) ≡ none) × (users w' ≡ users w)
  pub hash_lem :
      (password : String) (w : World E) {h : String} {w' : World E}
      → c.hash password w ≡ (ok h, w')
      → (matches password h ≡ true) × (users w' ≡ users w)
  pub user_create_lem :
      (d : NewUser) (w : World E) {v : UserView} {w' : World E}
      → c.user_create d w ≡ (ok v, w')
      → (u : User) × IsRowOf d v u × (users w' ≡ users w ++ u ∷ [])
  pub find_email_lem :
      (email : String) (w : World E)
      → (w' : World E) × (c.user_find_email email w ≡ (ok (find email_key email (users w)), w'))
  pub compare_lem :
      (password h : String) (w : World E)
      → (w' : World E) × (a.compare password h w ≡ (ok (matches password h), w'))
  pub sign_lem :
      (p : Payload) (w : World E) → (t : String) × (w' : World E) × (a.sign p w ≡ (ok t, w'))
  pub sign_users :
      (p : Payload) (w : World E) {t : String} {w' : World E}
      → a.sign p w ≡ (ok t, w')
      → users w' ≡ users w

none_of_is_some : (o : Option User) → is_some o ≡ false → o ≡ none
none_of_is_some none h = refl
none_of_is_some (some u) h = absurd (ground arith)

module _ {E : Type 0} (c : UserCalls E) (a : Credentials E) (users : World E → List User)
    (matches : String → String → Bool) (laws : IsDirectory c a users matches) where
  -- What a creation of a customer has stored.
  create_stores :
      (b : Broker E) (email username password : String) (w : World E) {v : UserView} {w' : World E}
      → create c b
          (customer_of (record { email = email; username = username; password = password }))
          w
        ≡ (ok v, w')
      → (u : User) × (find email_key email (users w') ≡ some u)
        × (matches password u.password ≡ true)
        × (without_password u ≡ v)
        × (u.tenant_code ≡ none)
        × (u.role ≡ customer)
  unfolding create check_tenant announce
  create_stores b email username password w {v} {w'} h =
      let (found, w1, r1, h1) = >>=-eq-ok (c.user_find_login email username) _ w h in
      let (x2, w2, r2, h2) = >>=-eq-ok (throw_if (is_some found) _) _ w1 h1 in
      let (hashed, w3, r3, h3) = >>=-eq-ok (c.hash password) _ w2 h2 in
      let (user, w4, r4, h4) = >>=-eq-ok (c.user_create _) _ w3 h3 in
      let (clear, same2) = throw_if-eq-ok (is_some found) _ w1 r2 in
      let absent : found ≡ none = none_of_is_some found clear in
      let (fresh, same1) =
        laws.find_login_lem email username w (r1 ∙ ap (λ (f : Option User). (ok f, w1)) absent) in
      let (matched, same3) = laws.hash_lem password w2 r3 in
      let (u, row, stored) = laws.user_create_lem _ w3 r4 in
      let before : users w3 ≡ users w = same3 ∙ ap users same2 ∙ same1 in
      let still_fresh : find email_key email (users w3) ≡ none =
        ap (find email_key email) before ∙ fresh in
      let end : w4 ≡ w' = ground arith in
      let answer : user ≡ v = ground arith in
      let last : find email_key email (users w3 ++ u ∷ []) ≡ some u =
        find-append email_key email (users w3) u still_fresh ∙ (rw (row.0, eq_refl email)) in
      (
        u,
        ap (find email_key email) (ap users (sym end) ∙ stored) ∙ last,
        ap (matches password) row.1 ∙ matched,
        row.4 ∙ answer,
        row.3,
        row.2,
      )

  -- A customer who has registered can log in with the same email and password from then on, as long as
  -- the table is as the registration left it, and is the same account: same id, a CUSTOMER without a
  -- tenant.
  pub register-login :
      (b : Broker E) (dto : RegisterDto) (w : World E) {r : LoggedIn} {w' : World E}
      → register c a b dto w ≡ (ok r, w')
      → (later : World E) → users later ≡ users w'
      → (s : LoggedIn) × (w2 : World E) × (login c a
            (record { email = dto.email; password = dto.password })
            later
          ≡ (ok s, w2))
        × (s.user ≡ r.user)
        × (s.user.role ≡ customer)
        × (s.user.tenant_code ≡ none)
  unfolding register login validate_user find_by_email
  register-login b dto w {r} {w'} h later kept =
      let (user, w1, r1, h1) = >>=-eq-ok (create c b (customer_of dto)) _ w h in
      let (token, w2, r2, h2) = >>=-eq-ok (a.sign (payload_of user none)) _ w1 h1 in
      let (u, found, matched, view, no_tenant, is_customer) =
        create_stores b dto.email dto.username dto.password w r1 in
      let end : w2 ≡ w' = ground arith in
      let same : users later ≡ users w1 = kept ∙ ap users (sym end) ∙ laws.sign_users _ w1 r2 in
      let seen : find email_key dto.email (users later) ≡ some u =
        ap (find email_key dto.email) same ∙ found in
      let (v1, look) = laws.find_email_lem dto.email later in
      let (v2, compared) = laws.compare_lem dto.password u.password v1 in
      let tenant : filled u.tenant_code ≡ none = ap filled no_tenant in
      let (t, v3, signed) = laws.sign_lem (payload_of (without_password u) none) v2 in
      let answer : account_of user none ≡ r.user = ground arith in
      (
        record { access_token = t; user = account_of (without_password u) none },
        v3,
        ground (arith, look, seen, compared, matched, tenant, signed),
        ap (λ x. account_of x none) view ∙ answer,
        is_customer,
        refl,
      )
