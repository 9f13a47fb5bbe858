-- ===== src/Tenant/Isolation.antt =====
-- About the URLs of the clients of tenants.
use nestjs_order_api.Base.{
  ℕ, String, Option, none, some, List, [], ◌∷◌, ◌++◌, map, length, length-append, ◌≡◌, ◌≢◌, ◌↔◌,
  ◌⊎◌, refl, sym, ap, ◌∙◌, arith, eq_iff, Option-cases, inl, inr,
}
use nestjs_order_api.Base.Chars.{codes}
use nestjs_order_api.Base.Keyed.{find, find-append, find-append_some}
use nestjs_order_api.User.{filled}
use nestjs_order_api.Database.Creation.{lower, database_name}
use nestjs_order_api.Tenant.Clients.{
  Connection, Pool, code_of, get_or_make, get_default_client, get_tenant_client, get_client,
  get_clients,
}
use nestjs_order_api.Tenant.Urls.{
  UrlClass, Environment, Manager, text_or, query_params, new_manager, new_creator, tenant_url,
}

append_cancel_left : (xs ys zs : List ℕ) → xs ++ ys ≡ xs ++ zs → ys ≡ zs
append_cancel_left [] ys zs e = e
append_cancel_left (x ∷ xs) ys zs e = append_cancel_left xs ys zs (ground arith)

append_cancel_right : (xs ys zs : List ℕ) → xs ++ zs ≡ ys ++ zs → xs ≡ ys
append_cancel_right [] [] zs e = refl
append_cancel_right [] (y ∷ ys) zs e =
    absurd (omega (arith, ap length e, length-append (y ∷ ys) zs))
append_cancel_right (x ∷ xs) [] zs e =
    absurd (omega (arith, ap length e, length-append (x ∷ xs) zs))
append_cancel_right (x ∷ xs) (y ∷ ys) zs e =
    let rest = append_cancel_right xs ys zs (ground arith) in ground arith

tenant_url-inj :
    {U : Type 0} (c : UrlClass U) (manager : Manager) (env : Environment) (a b : String)
    → tenant_url c manager env a ≡ tenant_url c manager env b
    → map lower (codes a) ≡ map lower (codes b)
unfolding tenant_url
tenant_url-inj c manager env a b e = append_cancel_left manager.database_prefix _ _ (
    append_cancel_right _ _ (query_params (text_or env.database_url []))
      (append_cancel_left (b'/' ∷ []) _ _ (append_cancel_left manager.base_database_url _ _ e)))

abbrev pub no_clients : Pool
no_clients = record { connections = []; made = 0 }

module _ (url_of : String → List ℕ) where
  -- A client that is kept for a tenant code has the URL of that code.
  abbrev IsSound : Pool → Type 0
  IsSound pool =
      (key : String) (c : Connection)
      → key ≢ "_default_"
      → find code_of key pool.connections ≡ some c
      → c.client.url ≡ some (url_of key)

  get_or_make-IsSound :
      (key : String) (url : Option (List ℕ)) (pool : Pool) (found : Option Connection)
      → (key ≡ "_default_") ⊎ (url ≡ some (url_of key))
      → IsSound pool
      → IsSound (get_or_make key url pool found).1
  get_or_make-IsSound key url pool (some d) h sound = sound
  get_or_make-IsSound key url pool none h sound = λ j c other e.
      let made : Connection = record {
        code = key;
        client = record { serial = pool.made; url = url };
      } in
      elim (Option-cases (find code_of j pool.connections)) [
        | inl fresh ↦ ground (
          arith,
          find-append code_of j pool.connections made fresh,
          eq_iff key j,
          ap Connection.client,
          h,
        )
        | inr (d, old) ↦
            sound j c other (old ∙ sym (find-append_some code_of j pool.connections made d old) ∙ e)
      ]

  get_tenant_client-IsSound :
      (t : Option String) (pool : Pool) → IsSound pool → IsSound (get_tenant_client url_of t pool).1
  unfolding get_default_client
  get_tenant_client-IsSound none pool sound =
      get_or_make-IsSound "_default_" none pool _ (inl refl) sound
  get_tenant_client-IsSound (some code) pool sound =
      get_or_make-IsSound code (some (url_of code)) pool _ (inr refl) sound

  get_clients-IsSound :
      (ts : List (Option String)) (pool : Pool)
      → IsSound pool
      → IsSound (get_clients url_of ts pool)
  unfolding get_clients get_client
  get_clients-IsSound [] pool sound = sound
  get_clients-IsSound (t ∷ ts) pool sound =
      get_clients-IsSound ts _ (get_tenant_client-IsSound (filled t) pool sound)

  answered_url :
      (code : String) (pool : Pool) (found : Option Connection)
      → find code_of code pool.connections ≡ found
      → code ≢ "_default_"
      → IsSound pool
      → (get_or_make code (some (url_of code)) pool found).0.url ≡ some (url_of code)
  answered_url code pool none e other sound = refl
  answered_url code pool (some c) e other sound = sound code c other e

  -- The client of a tenant code, after any requests, has the URL of that code.
  pub get_client-url :
      (earlier : List (Option String)) (code : String)
      → code ≢ ""
      → code ≢ "_default_"
      → (get_client url_of (some code) (get_clients url_of earlier no_clients)).0.url
        ≡ some (url_of code)
  unfolding get_client find
  get_client-url earlier code full other =
      let pool = get_clients url_of earlier no_clients in
      let sound = get_clients-IsSound earlier no_clients (λ key c h e. absurd (ground arith)) in
      let same = answered_url code pool (find code_of code pool.connections) refl other sound in
      ground (arith, eq_iff code "", same)

some_url : {a b : List ℕ} → some a ≡ some b → a ≡ b
some_url e = ground arith

prefixed_names :
    (prefix : Option (List ℕ)) (name : List ℕ)
    → (text_or prefix (codes "tenant_") ++ name ≡ text_or prefix (codes "tenant") ++ name)
      ↔ (text_or prefix [] ≢ [])
prefixed_names none name = (λ e. absurd (omega (arith, ap length e)), λ h. absurd (h refl))
prefixed_names (some []) name = (λ e. absurd (omega (arith, ap length e)), λ h. absurd (h refl))
prefixed_names (some (x ∷ s)) name = (λ e h. ground arith, λ h. refl)

module _ {U : Type 0} (c : UrlClass U) (env : Environment) where
  abbrev url_of : String → List ℕ
  url_of code = tenant_url c (new_manager c env) env code

  tenant_url-ap : (a b : String) → map lower (codes a) ≡ map lower (codes b) → url_of a ≡ url_of b
  unfolding tenant_url
  tenant_url-ap a b e =
      ap
        (λ name.
          (new_manager c env).base_database_url
          ++ (b'/' ∷ (new_manager c env).database_prefix
              ++ name
              ++ query_params (text_or env.database_url [])))
        e

  -- Two tenant codes, other than the empty one and _default_, get clients with the same URL exactly when
  -- they are equal up to the case of their letters, whatever clients were asked for before either.
  pub one_url :
      (earlier later : List (Option String)) (a b : String)
      → a ≢ ""
      → a ≢ "_default_"
      → b ≢ ""
      → b ≢ "_default_"
      → ((get_client url_of (some a) (get_clients url_of earlier no_clients)).0.url
          ≡ (get_client url_of (some b) (get_clients url_of later no_clients)).0.url)
        ↔ (map lower (codes a) ≡ map lower (codes b))
  one_url earlier later a b a_full a_other b_full b_other =
      let left = get_client-url url_of earlier a a_full a_other in
      let right = get_client-url url_of later b b_full b_other in
      (
        λ e. tenant_url-inj c (new_manager c env) env a b (ground (arith, sym left ∙ e ∙ right)),
        λ e. left ∙ ap some (tenant_url-ap a b e) ∙ sym right,
      )

  -- The client of a tenant code, other than the empty one and _default_, has the URL that ends in the
  -- name of the database that is created for that code, and the parameters, exactly when the variable
  -- DATABASE_PREFIX is set to a text that is not empty; whatever clients were asked for before.
  pub created_database :
      (earlier : List (Option String)) (code : String)
      → code ≢ ""
      → code ≢ "_default_"
      → ((get_client url_of (some code) (get_clients url_of earlier no_clients)).0.url
          ≡ some (
              (new_manager c env).base_database_url
              ++ (b'/' ∷ database_name (new_creator c env).database_prefix code
                  ++ query_params (text_or env.database_url []))))
        ↔ (text_or env.database_prefix [] ≢ [])
  unfolding tenant_url
  created_database earlier code full other =
      let asked = get_client-url url_of earlier code full other in
      let base = (new_manager c env).base_database_url in
      let params = query_params (text_or env.database_url []) in
      let (apart, together) = prefixed_names env.database_prefix (map lower (codes code)) in
      (
        λ e. apart (
            append_cancel_right _ _ params (
              append_cancel_left (b'/' ∷ []) _ _
                (append_cancel_left base _ _ (some_url (sym e ∙ asked))))),
        λ set. asked ∙ ap (λ name. some (base ++ (b'/' ∷ name ++ params))) (sym (together set)),
      )
