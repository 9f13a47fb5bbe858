-- ===== src/Seed/Repeated.antt =====
-- About running the seeding twice.
use nestjs_order_api.Base.{
  String, Bool, true, false, ◌||◌, Option, List, [], ◌∷◌, ◌++◌, All, is_some, ◌===◌, ◌≡◌, sym, ap,
  ◌∙◌, arith, eq_iff, Bool-cases, inl, inr,
}
use nestjs_order_api.Http.{ok}
use nestjs_order_api.Prisma.{World}
use nestjs_order_api.Prisma.Inversion.{>>=-eq-ok}
use nestjs_order_api.User.{User, UserView, NewUser, UserCalls}
use nestjs_order_api.Seed.{UserSeed, users, row_of, create_unless, seed_user, seed_users, main}

-- `findFirst` with `OR`: whether an account has the email or the username.
unfoldable pub is_taken : (email username : String) → List User → Bool
is_taken email username [] = false
is_taken email username (u ∷ us) =
    let rest = is_taken email username us in u.email === email || (u.username === username || rest)

-- What is documented of the calls.
pub record IsRegister {E : Type 0} (c : UserCalls E) (rows : World E → List User) : Type 0 where
  pub find_login_lem :
      (email username : String) (w : World E) {r : Option User} {w' : World E}
      → c.user_find_login email username w ≡ (ok r, w')
      → (is_some r ≡ is_taken email username (rows w)) × (rows w' ≡ rows w)
  pub hash_rows :
      (password : String) (w : World E) {h : String} {w' : World E}
      → c.hash password w ≡ (ok h, w')
      → rows w' ≡ rows w
  pub user_create_lem :
      (d : NewUser) (w : World E) {v : UserView} {w' : World E}
      → c.user_create d w ≡ (ok v, w')
      → (u : User) × (u.email ≡ d.email) × (rows w' ≡ rows w ++ u ∷ [])

is_taken-append :
    (email username : String) (us : List User) (u : User)
    → is_taken email username us ≡ true
    → is_taken email username (us ++ u ∷ []) ≡ true
unfolding is_taken
is_taken-append email username [] u h = absurd (ground arith)
is_taken-append email username (v ∷ us) u h = elim (Bool-cases (is_taken email username us)) [
  | inl there ↦ ground (arith, is_taken-append email username us u there)
  | inr missing ↦ ground arith
]

is_taken-new :
    (email username : String) (us : List User) (u : User)
    → u.email ≡ email
    → is_taken email username (us ++ u ∷ []) ≡ true
unfolding is_taken
is_taken-new email username [] u e = ground (arith, eq_iff u.email email)
is_taken-new email username (v ∷ us) u e = ground (arith, is_taken-new email username us u e)

module _ {E : Type 0} (c : UserCalls E) (rows : World E → List User)
    (laws : IsRegister c rows) where
  abbrev pub IsSeeded : World E → UserSeed → Type 0
  IsSeeded w s = is_taken s.email s.username (rows w) ≡ true

  create_unless_cases :
      (taken : Bool) (s : UserSeed) (w : World E) {x : Unit {0}} {w' : World E}
      → create_unless c taken s w ≡ (ok x, w')
      → (taken ≡ true → rows w' ≡ rows w)
        × (taken ≡ false → (u : User) × (u.email ≡ s.email) × (rows w' ≡ rows w ++ u ∷ []))
  create_unless_cases true s w h = (λ e. ground arith, λ e. absurd (ground arith))
  create_unless_cases false s w h =
      let (hashed, w1, r1, h1) = >>=-eq-ok (c.hash s.password) _ w h in
      let (v, w2, r2, h2) = >>=-eq-ok (c.user_create (row_of s hashed)) _ w1 h1 in
      let (u, same, stored) = laws.user_create_lem (row_of s hashed) w1 r2 in
      let before = laws.hash_rows s.password w r1 in
      (λ e. absurd (ground arith), λ e. (u, same, ground (arith, stored, before)))

  -- An account that is seeded has its row, and no row goes away.
  seed_user_seeds :
      (s : UserSeed) (w : World E) {x : Unit {0}} {w' : World E}
      → seed_user c s w ≡ (ok x, w')
      → IsSeeded w' s × ((t : UserSeed) → IsSeeded w t → IsSeeded w' t)
  unfolding seed_user
  seed_user_seeds s w {x} {w'} h =
      let (found, w1, r1, h1) = >>=-eq-ok (c.user_find_login s.email s.username) _ w h in
      let (answer, same) = laws.find_login_lem s.email s.username w r1 in
      let (skips, makes) = create_unless_cases (is_some found) s w1 h1 in
      elim (Bool-cases (is_some found)) [
        | inl there ↦
            let kept : rows w' ≡ rows w = skips there ∙ same in
            (
              ap (is_taken s.email s.username) kept ∙ sym answer ∙ there,
              λ t seeded. ap (is_taken t.email t.username) kept ∙ seeded,
            )
        | inr missing ↦
            let (u, named, stored) = makes missing in
            let more : rows w' ≡ rows w ++ u ∷ [] = stored ∙ ap (λ l. l ++ u ∷ []) same in
            (
              ap (is_taken s.email s.username) more
                  ∙ is_taken-new s.email s.username (rows w) u named,
              λ t seeded.
                  ap (is_taken t.email t.username) more
                  ∙ is_taken-append t.email t.username (rows w) u seeded,
            )
      ]

  seed_user_again :
      (s : UserSeed) (w : World E) {x : Unit {0}} {w' : World E}
      → seed_user c s w ≡ (ok x, w')
      → IsSeeded w s
      → rows w' ≡ rows w
  unfolding seed_user
  seed_user_again s w h seeded =
      let (found, w1, r1, h1) = >>=-eq-ok (c.user_find_login s.email s.username) _ w h in
      let (answer, same) = laws.find_login_lem s.email s.username w r1 in
      (create_unless_cases (is_some found) s w1 h1).0 (answer ∙ seeded) ∙ same

  seed_users_seeds :
      (ss : List UserSeed) (w : World E) {x : Unit {0}} {w' : World E}
      → seed_users c ss w ≡ (ok x, w')
      → All (IsSeeded w') ss × ((t : UserSeed) → IsSeeded w t → IsSeeded w' t)
  unfolding seed_users
  seed_users_seeds [] w {x} {w'} h =
      (tt, λ t seeded. ap (λ u. is_taken t.email t.username (rows u)) (ground arith) ∙ seeded)
  seed_users_seeds (s ∷ ss) w h =
      let (x1, w1, r1, h1) = >>=-eq-ok (seed_user c s) _ w h in
      let (here, keeps) = seed_user_seeds s w r1 in
      let (rest, keeps_rest) = seed_users_seeds ss w1 h1 in
      ((keeps_rest s here, rest), λ t seeded. keeps_rest t (keeps t seeded))

  IsSeeded-same :
      (w w' : World E) (ss : List UserSeed)
      → rows w' ≡ rows w
      → All (IsSeeded w) ss
      → All (IsSeeded w') ss
  IsSeeded-same w w' [] e h = tt
  IsSeeded-same w w' (s ∷ ss) e (h, hs) =
      (ap (is_taken s.email s.username) e ∙ h, IsSeeded-same w w' ss e hs)

  seed_users_again :
      (ss : List UserSeed) (w : World E) {x : Unit {0}} {w' : World E}
      → seed_users c ss w ≡ (ok x, w')
      → All (IsSeeded w) ss
      → rows w' ≡ rows w
  unfolding seed_users
  seed_users_again [] w h seeded = ap rows (ground arith)
  seed_users_again (s ∷ ss) w h (here, rest) =
      let (x1, w1, r1, h1) = >>=-eq-ok (seed_user c s) _ w h in
      let same = seed_user_again s w r1 here in
      seed_users_again ss w1 h1 (IsSeeded-same w w1 ss same rest) ∙ same

  -- A seeding that succeeds leaves, for each account of the seed, an account with its email or its
  -- username; and a second seeding that succeeds changes no row.
  pub main_again :
      (w : World E) {x y : Unit {0}} {w1 w2 : World E}
      → main c w ≡ (ok x, w1)
      → main c w1 ≡ (ok y, w2)
      → All (IsSeeded w1) users × (rows w2 ≡ rows w1)
  unfolding main
  main_again w first second =
      let (seeded, keeps) = seed_users_seeds users w first in
      (seeded, seed_users_again users _ second seeded)
