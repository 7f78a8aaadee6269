-- ===== src/Scheduler/NextRunLaws.antt =====
-- The hourly, daily and weekly schedules of NextRun in source/internal/scheduler/scheduler.go: their loops
-- end, with the first instant that the schedule asks for.
use bonghos.Base.{
  ℕ, zero, suc, ◌+◌, ◌-◌, ◌*◌, ◌/◌, ◌%◌, ◌≤◌, ◌<◌, ◌≡◌, ◌≢◌, refl, sym, ap, ◌∙◌, ◌⊎◌, inl, inr,
  true, false, Option, some, eqb, ltb, leb, Bool-cases, arith,
}
use bonghos.Scheduler.NextRun.{
  weekday_of, until_after, until_weekday, next_hourly, next_daily, next_weekly,
}

-- The first instant behind `a` of which the predicate holds.
pub record IsNext (a : ℕ) (P : ℕ → Type 0) (t : ℕ) : Type 0 where
  pub later : a < t
  pub holds : P t
  pub first : (u : ℕ) → a < u → P u → t ≤ u

-- A loop has answered with the first such instant.
abbrev pub AnswersFirst : ℕ → (ℕ → Type 0) → Option ℕ → Type 0
AnswersFirst a P o = (t : ℕ) × ((o ≡ some t) × IsNext a P t)

until_after-now : (fuel step a t : ℕ) → a < t → until_after (suc fuel) step a t ≡ some t
unfolding until_after
until_after-now fuel step a t h = let e : ltb a t ≡ true = ground arith in rw e refl

until_after-later :
    (fuel step a t : ℕ)
    → t ≤ a
    → until_after (suc fuel) step a t ≡ until_after fuel step a (t + step)
unfolding until_after
until_after-later fuel step a t h = let e : ltb a t ≡ false = ground arith in rw e refl

le_cases : (a b : ℕ) → (a ≤ b) ⊎ (b < a)
le_cases a b = elim (Bool-cases (leb a b)) [
  | inl h ↦ inl (ground (arith, h))
  | inr h ↦ inr (ground (arith, h))
]

-- The second of the hour is the given one.
abbrev pub AtSecondOfHour : ℕ → ℕ → Type 0
AtSecondOfHour soh t = t % 3600 ≡ soh

abbrev pub AtSecondOfDay : ℕ → ℕ → Type 0
AtSecondOfDay sod t = t % 86400 ≡ sod

abbrev pub OnWeekday : ℕ → ℕ → ℕ → Type 0
OnWeekday wd sod t = (weekday_of t ≡ wd) × (t % 86400 ≡ sod)

-- Hourly: at the first instant that shows its minute and second.
pub next_hourly-AnswersFirst :
    (minute second a : ℕ)
    → minute ≤ 59
    → second ≤ 59
    → AnswersFirst a (AtSecondOfHour (minute * 60 + second)) (next_hourly minute second a)
unfolding next_hourly
next_hourly-AnswersFirst minute second a p q =
    elim (le_cases (a / 3600 * 3600 + minute * 60 + second) a) [
      | inl h ↦ (
        a / 3600 * 3600 + minute * 60 + second + 3600,
        (
          until_after-later 1 3600 a _ h ∙ until_after-now 0 3600 a _ (omega arith),
          record { later = omega arith; holds = omega arith; first = λ u b c. omega arith },
        ),
      )
      | inr h ↦ (
        a / 3600 * 3600 + minute * 60 + second,
        (
          until_after-now 1 3600 a _ h,
          record { later = h; holds = omega arith; first = λ u b c. omega arith },
        ),
      )
    ]

-- Daily: at the first instant that shows its time of the day.
pub next_daily-AnswersFirst :
    (sod a : ℕ) → sod < 86400 → AnswersFirst a (AtSecondOfDay sod) (next_daily sod a)
unfolding next_daily
next_daily-AnswersFirst sod a p = elim (le_cases (a / 86400 * 86400 + sod) a) [
  | inl h ↦ (
    a / 86400 * 86400 + sod + 86400,
    (
      until_after-later 1 86400 a _ h ∙ until_after-now 0 86400 a _ (omega arith),
      record { later = omega arith; holds = omega arith; first = λ u b c. omega arith },
    ),
  )
  | inr h ↦ (
    a / 86400 * 86400 + sod,
    (
      until_after-now 1 86400 a _ h,
      record { later = h; holds = omega arith; first = λ u b c. omega arith },
    ),
  )
]

hit : (fuel wd a t : ℕ) → a < t → weekday_of t ≡ wd → until_weekday (suc fuel) wd a t ≡ some t
unfolding until_weekday
hit fuel wd a t h k =
    let e : ltb a t ≡ true = ground arith in
    let f : eqb (weekday_of t) wd ≡ true = ground arith in rw (e, f) refl

miss :
    (fuel wd a t : ℕ)
    → (t ≤ a) ⊎ (eqb (weekday_of t) wd ≡ false)
    → until_weekday (suc fuel) wd a t ≡ until_weekday fuel wd a (t + 86400)
unfolding until_weekday
miss fuel wd a t (inr k) = rw k refl
miss fuel wd a t (inl h) =
    let e : ltb a t ≡ false = ground arith in
    elim (Bool-cases (eqb (weekday_of t) wd)) [ inl k ↦ rw (k, e) refl | inr k ↦ rw k refl ]

-- There is such a day in every week.
day_before :
    (wd t : ℕ)
    → wd < 7
    → 604800 < t
    → (u : ℕ) × ((t ≤ u + 604800) × ((u < t) × OnWeekday wd (t % 86400) u))
day_before wd t p q =
    let back = (t / 86400 + 7 - wd) % 7 + 1 in
    (t - back * 86400, (omega arith, (omega arith, (ground arith, omega arith))))

-- A day that is not the answer.
skip_day :
    (fuel wd sod a t : ℕ)
    → t % 86400 ≡ sod
    → ((u : ℕ) → a < u → OnWeekday wd sod u → t ≤ u)
    → (t ≤ a) ⊎ (eqb (weekday_of t) wd ≡ false)
    → ((u : ℕ) → a < u → OnWeekday wd sod u → u ≢ t)
    → (((u : ℕ) → a < u → OnWeekday wd sod u → t + 86400 ≤ u)
        → AnswersFirst a (OnWeekday wd sod) (until_weekday fuel wd a (t + 86400)))
    → AnswersFirst a (OnWeekday wd sod) (until_weekday (suc fuel) wd a t)
skip_day fuel wd sod a t m f c n rest =
    rw (miss fuel wd a t c)
      (rest (λ u b o. let d = f u b o in let e = n u b o in let w = o.1 in omega arith))

-- From day to day; every instant behind `a` of the weekday and time lies at `t` or later.
week :
    (fuel wd sod a t : ℕ)
    → wd < 7
    → t % 86400 ≡ sod
    → ((u : ℕ) → a < u → OnWeekday wd sod u → t ≤ u)
    → a + 604800 < t + fuel * 86400
    → AnswersFirst a (OnWeekday wd sod) (until_weekday fuel wd a t)
week zero wd sod a t p m f g = absurd (
    let b = day_before wd t p (omega arith) in
    let c = b.1.0 in
    let d = b.1.1.0 in let e = f b.0 (omega arith) (b.1.1.1.0, b.1.1.1.1 ∙ m) in omega arith)
week (suc fuel) wd sod a t p m f g = elim (Bool-cases (eqb (weekday_of t) wd)) [
  | inr k ↦
      skip_day fuel wd sod a t m f (inr k)
        (λ u b o e. let c = sym (ap weekday_of e) ∙ o.0 in ground (arith, k, c))
        (λ h. week fuel wd sod a (t + 86400) p (omega arith) h (omega arith))
  | inl k ↦ elim (le_cases t a) [
    | inl h ↦
        skip_day fuel wd sod a t m f (inl h) (λ u b o e. omega arith)
          (λ h. week fuel wd sod a (t + 86400) p (omega arith) h (omega arith))
    | inr h ↦ (
      t,
      (
        hit fuel wd a t h (ground (arith, k)),
        record { later = h; holds = (ground (arith, k), m); first = f },
      ),
    )
  ]
]

-- Weekly: at the first instant that shows its weekday and its time of the day.
pub next_weekly-AnswersFirst :
    (wd sod a : ℕ) → wd < 7 → sod < 86400 → AnswersFirst a (OnWeekday wd sod) (next_weekly wd sod a)
unfolding next_weekly
next_weekly-AnswersFirst wd sod a p q =
    week 8 wd sod a (a / 86400 * 86400 + sod) p (omega arith) (λ u b o. let w = o.1 in omega arith)
      (omega arith)

-- An hourly, a daily and a weekly schedule run at the first instant behind the present one that shows their
-- minute and second, their time of the day, and their weekday and time of the day, in a zone whose offset
-- does not change.
pub next-AnswersFirst :
    (minute second sod wd a : ℕ)
    → minute ≤ 59
    → second ≤ 59
    → sod < 86400
    → wd < 7
    → AnswersFirst a (AtSecondOfHour (minute * 60 + second)) (next_hourly minute second a)
      × (AnswersFirst a (AtSecondOfDay sod) (next_daily sod a)
          × AnswersFirst a (OnWeekday wd sod) (next_weekly wd sod a))
next-AnswersFirst minute second sod wd a m s d w = (
  next_hourly-AnswersFirst minute second a m s,
  (next_daily-AnswersFirst sod a d, next_weekly-AnswersFirst wd sod a w d),
)
