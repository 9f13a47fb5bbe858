-- ===== src/Tenant/Masking.antt =====
-- About what is logged of a database URL that the runtime cannot read.
use nestjs_order_api.Base.{
  ℕ, Bool, true, false, none, some, List, [], ◌∷◌, ◌++◌, ◌≡◌, ◌≢◌, refl, arith, All,
}
use nestjs_order_api.Tenant.Urls.{UrlClass, after_secret, stars, mask_manually, mask_database_url}

-- No character of the text is at sign or colon.
abbrev pub IsSecret : List ℕ → Type 0
IsSecret = All (λ c. (c ≢ b'@') × (c ≢ b':'))

after_secret-secret :
    (seen : Bool) (s rest : List ℕ)
    → IsSecret s
    → seen ≡ true
    → after_secret seen (s ++ b'@' ∷ rest) ≡ some rest
unfolding after_secret
after_secret-secret seen [] rest h e = ground arith
after_secret-secret seen (c ∷ s) rest (h, hs) e =
    ground (arith, after_secret-secret true s rest hs refl)

-- A run that meets a colon before an at sign is no match.
after_secret-colon :
    (seen : Bool) (s rest : List ℕ)
    → All (λ c. c ≢ b'@') s
    → after_secret seen (s ++ b':' ∷ rest) ≡ none
unfolding after_secret
after_secret-colon seen [] rest h = refl
after_secret-colon seen (c ∷ s) rest (h, hs) = ground (arith, after_secret-colon true s rest hs)

mask_manually-match :
    (before tail rest : List ℕ)
    → All (λ d. d ≢ b'@') before
    → after_secret false tail ≡ some rest
    → mask_manually (before ++ b':' ∷ tail) ≡ before ++ (stars ++ rest)
unfolding mask_manually
mask_manually-match [] tail rest h e = ground arith
mask_manually-match (d ∷ before) tail rest (h, hs) e =
    ground
      (arith, mask_manually-match before tail rest hs e, after_secret-colon false before tail hs)

module _ {U : Type 0} (class : UrlClass U) where
  -- Of a URL that the runtime cannot read, with one at sign or more, what stands between the last colon
  -- in front of the first at sign and that at sign is logged as three stars, whatever it is, if it is
  -- not empty; all else is logged as it is.
  pub mask_database_url-secret :
      (before : List ℕ) (c : ℕ) (secret rest : List ℕ)
      → All (λ d. d ≢ b'@') before
      → IsSecret (c ∷ secret)
      → class.new_url (before ++ (b':' ∷ c ∷ secret ++ b'@' ∷ rest)) ≡ none
      → mask_database_url class (before ++ (b':' ∷ c ∷ secret ++ b'@' ∷ rest))
        ≡ before ++ (stars ++ rest)
  unfolding mask_database_url after_secret
  mask_database_url-secret before c secret rest h (g, gs) unread =
      let tail = c ∷ secret ++ b'@' ∷ rest in
      rw (mask_database_url, unread)
        (mask_manually-match before tail rest h
          (ground (arith, after_secret-secret true secret rest gs refl)))
