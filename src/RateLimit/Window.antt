-- ===== src/RateLimit/Window.antt =====
-- How many requests of one key pass in one window, whatever other keys do in between.
use nestjs_order_api.Base.{
  ℕ, ◌+◌, ◌-◌, ◌≤◌, ◌<◌, min, String, false, Option, none, some, List, [], ◌∷◌, All, leb, ◌===◌,
  ◌&&◌, if◌then◌else◌, ◌≡◌, inl, inr, refl, sym, ◌∙◌, arith, eq_iff, eq_refl, Bool-cases,
}
use mathlib.Core.Path.{subst}
use nestjs_order_api.RateLimit.{
  CounterState, Required, Counters, intercept, passes, counted, opened,
}

-- A request: its key, and the time at which it comes.
abbrev pub Arrival : Type 0
Arrival = String × ℕ

module _ (options : Required) where
  -- The requests of a key that pass, over a history of arrivals.
  unfoldable pub passed : String → Counters → List Arrival → ℕ
  passed key counters [] = 0
  passed key counters ((k, now) ∷ rest) =
      let seen = intercept options k now counters in
      (if k === key && passes seen.verdict then 1 else 0) + passed key seen.counters rest

  unfoldable pub asked : String → List Arrival → ℕ
  asked key [] = 0
  asked key ((k, now) ∷ rest) = (if k === key then 1 else 0) + asked key rest

  abbrev pub Within : ℕ → List Arrival → Type 0
  Within start = All (λ a. a.1 < start + options.window_ms)

  -- The counter of a key under an arrival of that key, and of another.
  intercept-same :
      (key : String) (now c s : ℕ) (counters : Counters)
      → counters key ≡ some (record { count = c; window_start = s })
      → now < s + options.window_ms
      → (intercept options key now counters).counters key
        ≡ some (record { count = c + 1; window_start = s })
  unfolding intercept
  intercept-same key now c s counters e h = ground (arith, eq_refl key)

  intercept_other :
      (key k : String) (now : ℕ) (counters : Counters)
      → (k === key) ≡ false
      → (intercept options k now counters).counters key ≡ counters key
  unfolding intercept
  intercept_other key k now counters e = rw e

  intercept-passes :
      (key : String) (now c s : ℕ) (counters : Counters)
      → counters key ≡ some (record { count = c; window_start = s })
      → now < s + options.window_ms
      → passes (intercept options key now counters).verdict ≡ leb (c + 1) options.max
  unfolding intercept
  intercept-passes key now c s counters e h = ground arith

  nothing :
      (key : String) (counters : Counters) (n : ℕ) → passed key counters [] ≡ min n (asked key [])
  unfolding passed asked
  nothing key counters n = omega arith

  passed_skip :
      (key k : String) (now : ℕ) (counters : Counters) (rest : List Arrival) (n : ℕ)
      → (k === key) ≡ false
      → passed key (intercept options k now counters).counters rest ≡ min n (asked key rest)
      → passed key counters ((k, now) ∷ rest) ≡ min n (asked key ((k, now) ∷ rest))
  unfolding passed asked
  passed_skip key k now counters rest n other ih = rw other (omega arith)

  passed_one :
      (key : String) (now c s : ℕ) (counters : Counters) (rest : List Arrival)
      → counters key ≡ some (record { count = c; window_start = s })
      → now < s + options.window_ms
      → passed key (intercept options key now counters).counters rest
        ≡ min (options.max - (c + 1)) (asked key rest)
      → passed key counters ((key, now) ∷ rest)
        ≡ min (options.max - c) (asked key ((key, now) ∷ rest))
  unfolding passed asked
  passed_one key now c s counters rest e h ih =
      ground (arith, eq_refl key, intercept-passes key now c s counters e h)

  -- With c requests counted in the open window, the next max - c pass and no more.
  passed_open :
      (key : String) (c s : ℕ) (counters : Counters) (rest : List Arrival)
      → counters key ≡ some (record { count = c; window_start = s })
      → Within s rest
      → passed key counters rest ≡ min (options.max - c) (asked key rest)
  passed_open key c s counters [] e h = nothing key counters (options.max - c)
  passed_open key c s counters ((k, now) ∷ rest) e (h, hs) = elim (Bool-cases (k === key)) [
    | inl same ↦
        subst
          (λ x.
            passed key counters ((x, now) ∷ rest)
            ≡ min (options.max - c) (asked key ((x, now) ∷ rest)))
          (sym ((eq_iff k key).0 same))
          (passed_one key now c s counters rest e h (
            passed_open key (c + 1) s (intercept options key now counters).counters rest
              (intercept-same key now c s counters e h) hs))
    | inr other ↦ passed_skip key k now counters rest _ other (
        passed_open key c s (intercept options k now counters).counters rest
          (intercept_other key k now counters other ∙ e) hs)
  ]

  -- The counter of the key is not there, or its window is over.
  abbrev pub IsExpired : ℕ → Option CounterState → Type 0
  IsExpired now none = Unit
  IsExpired now (some old) = old.window_start + options.window_ms ≤ now

  counted_opens :
      (now : ℕ) (old : Option CounterState)
      → IsExpired now old
      → counted options now old ≡ opened now
  counted_opens now none h = refl
  counted_opens now (some old) h = ground arith

  intercept_opens :
      (key : String) (now : ℕ) (counters : Counters)
      → IsExpired now (counters key)
      → ((intercept options key now counters).counters key
          ≡ some (record { count = 1; window_start = now }))
        × (passes (intercept options key now counters).verdict ≡ leb 1 options.max)
  unfolding intercept
  intercept_opens key now counters h =
      ground (arith, eq_refl key, counted_opens now (counters key) h)

  -- The first request of a key after its last window is over opens a window. Of the key's requests
  -- in that window, itself included and among those of any other keys, as many pass as there are, but
  -- never more than `max`.
  pub window_passes :
      (key : String) (now : ℕ) (counters : Counters) (rest : List Arrival)
      → IsExpired now (counters key)
      → Within now rest
      → passed key counters ((key, now) ∷ rest) ≡ min options.max (asked key ((key, now) ∷ rest))
  unfolding passed asked
  window_passes key now counters rest h hs =
      let (here, verdict) = intercept_opens key now counters h in
      let ih = passed_open key 1 now (intercept options key now counters).counters rest here hs in
      ground (arith, eq_refl key)
