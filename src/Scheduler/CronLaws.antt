-- ===== src/Scheduler/CronLaws.antt =====
-- The search of nextCron in source/internal/scheduler/scheduler.go finds the first minute that matches.
use bonghos.Base.{
  inr, inl, ℕ, zero, suc, ◌+◌, ◌%◌, ◌≤◌, ◌<◌, ◌≡◌, refl, sym, ap, ◌∙◌, true, false, some, ltb,
  Bool-cases, arith,
}
use bonghos.Base.Text.{Text}
use bonghos.Base.Parse.{fields_of}
use bonghos.Scheduler.Cron.{
  Reading, CronSets, matches, CronResult, found, bad_expression, no_match, out_of_fuel, cron_search,
  cron_sets, next_minute, next_cron,
}

module _ (reading : ℕ → Reading) (sets : CronSets) where
  -- A full minute at which the expression matches.
  abbrev pub IsMatch : ℕ → Type 0
  IsMatch t = (t % 60 ≡ 0) × (matches sets (reading t) ≡ true)

  -- The first such minute from `start` on.
  pub record IsFirst (start t : ℕ) : Type 0 where
    pub from : start ≤ t
    pub is_match : IsMatch t
    pub first : (u : ℕ) → start ≤ u → IsMatch u → t ≤ u

  module _ (limit : ℕ) where
    search : (fuel t : ℕ) → CronResult
    search fuel t = cron_search fuel reading sets limit t

    past_limit :
        (fuel t : ℕ) → ltb t limit ≡ false → cron_search (suc fuel) reading sets limit t ≡ no_match
    unfolding cron_search
    past_limit fuel t h = rw h refl

    at_match :
        (fuel t : ℕ)
        → ltb t limit ≡ true
        → matches sets (reading t) ≡ true
        → cron_search (suc fuel) reading sets limit t ≡ found t
    unfolding cron_search
    at_match fuel t h m = rw (h, m) refl

    at_mismatch :
        (fuel t : ℕ)
        → ltb t limit ≡ true
        → matches sets (reading t) ≡ false
        → cron_search (suc fuel) reading sets limit t ≡ cron_search fuel reading sets limit (t + 60)
    unfolding cron_search
    at_mismatch fuel t h m = rw (h, m) refl

    -- What the search from `t` means.
    abbrev pub IsAnswer : ℕ → CronResult → Type 0
    IsAnswer t (found x) = (x < limit) × IsFirst t x
    IsAnswer t no_match = (u : ℕ) → t ≤ u → IsMatch u → limit ≤ u
    IsAnswer t bad_expression = ⊥
    IsAnswer t out_of_fuel = ⊥

    next-IsAnswer :
        (t : ℕ) (r : CronResult)
        → t % 60 ≡ 0
        → matches sets (reading t) ≡ false
        → IsAnswer (t + 60) r
        → IsAnswer t r
    next-IsAnswer t (found x) g m (b, f) = (
      b,
      record {
        from = let c = f.from in omega arith;
        is_match = f.is_match;
        first = λ u s i. f.first u (later u s i) i;
      },
    )
      where
        later : (u : ℕ) → t ≤ u → IsMatch u → t + 60 ≤ u
        later u s (d, i) = elim (Bool-cases (ltb t u)) [
          | inl h ↦ ground (arith, h, g, d)
          | inr h ↦
              let e : u ≡ t = ground (arith, h, s) in
              absurd
                (let k : true ≡ false = sym i ∙ (ap (λ w. matches sets (reading w)) e ∙ m) in cc k)
        ]
    next-IsAnswer t no_match g m h = λ u s i. elim (Bool-cases (ltb t u)) [
      | inl k ↦ h u (let d = i.0 in ground (arith, k, g, d)) i
      | inr k ↦
          let e : u ≡ t = ground (arith, k, s) in
          absurd
            (let q : true ≡ false = sym i.1 ∙ (ap (λ w. matches sets (reading w)) e ∙ m) in cc q)
    ]
    next-IsAnswer t bad_expression g m h = h
    next-IsAnswer t out_of_fuel g m h = h

    pub cron_search-IsAnswer :
        (fuel t : ℕ)
        → t % 60 ≡ 0
        → 1 ≤ fuel
        → limit + 1 ≤ fuel + t
        → IsAnswer t (cron_search fuel reading sets limit t)
    cron_search-IsAnswer zero t g p q = absurd (omega arith)
    cron_search-IsAnswer (suc fuel) t g p q = elim (Bool-cases (ltb t limit)) [
      | inr h ↦ rw (past_limit fuel t h) (λ u s i. ground (arith, h, s))
      | inl h ↦ elim (Bool-cases (matches sets (reading t))) [
        | inl m ↦ rw (at_match fuel t h m) (
          ground (arith, h),
          record { from = omega arith; is_match = (g, m); first = λ u s i. s },
        )
        | inr m ↦ rw (at_mismatch fuel t h m) (
            next-IsAnswer t _ g m (
              cron_search-IsAnswer fuel (t + 60) (omega arith) (ground (arith, h, q))
                (omega arith)))
      ]
    ]

-- For an expression that stands for sets of minutes, hours, days, months and weekdays, the search ends: with
-- the first matching minute behind `after` if there is one before the limit, and else with no answer.
pub next_cron-IsAnswer :
    (reading : ℕ → Reading) (two_years_later : ℕ → ℕ) (expr : Text) (after : ℕ) (sets : CronSets)
    → cron_sets (fields_of expr) ≡ some sets
    → IsAnswer reading sets
        (two_years_later after)
        (next_minute after)
        (next_cron reading two_years_later expr after)
unfolding next_cron
next_cron-IsAnswer reading two_years_later expr after sets h = rw h (
    cron_search-IsAnswer reading sets (two_years_later after) (two_years_later after + 1)
      (next_minute after) (omega arith) (omega arith) (omega arith))

-- The minutes from where the search starts are those behind `after`.
pub next_minute_iff :
    (after u : ℕ)
    → u % 60 ≡ 0
    → (next_minute after ≤ u → after < u) × (after < u → next_minute after ≤ u)
next_minute_iff after u h = (λ p. omega arith, λ p. omega arith)
