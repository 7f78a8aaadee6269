-- ===== src/Scheduler/MonthlyLaws.antt =====
-- The loop of the monthly schedules in source/internal/scheduler/scheduler.go ends, on the day it asks for.
use bonghos.Base.{
  ℕ, suc, ◌+◌, ◌-◌, ◌%◌, ◌≤◌, ◌<◌, ◌≡◌, ◌≢◌, refl, ap, ◌∙◌, ◌⊎◌, inl, inr, true, false, Option,
  some, if◌then◌else◌, eqb, leb, Bool-cases, arith,
}
use bonghos.Scheduler.Monthly.{month_length, Date, date, is_after, until_day, next_monthly}

-- The months that can lack a day.
abbrev IsBad : ℕ → Type 0
IsBad m = (m % 12 ≡ 1) ⊎ ((m % 12 ≡ 3) ⊎ ((m % 12 ≡ 5) ⊎ ((m % 12 ≡ 8) ⊎ (m % 12 ≡ 10))))

month_length_bounds : (m : ℕ) → (28 ≤ month_length m) × (month_length m ≤ 31)
unfolding month_length
month_length_bounds m = ground arith

lacking-IsBad : (m dd : ℕ) → dd ≤ 31 → month_length m < dd → IsBad m
unfolding month_length
lacking-IsBad m dd h k = ground arith

-- The date is behind `a`, on the day and at the second asked for.
pub record IsDue (dd sod : ℕ) (a d : Date) : Type 0 where
  pub later : is_after d a ≡ true
  pub day : d.day ≡ dd
  pub second : d.second ≡ sod

abbrev Due : ℕ → ℕ → Date → Option Date → Type 0
Due dd sod a o = (d : Date) × ((o ≡ some d) × IsDue dd sod a d)

date-fits :
    (m d s : ℕ) → d ≤ month_length m → date m d s ≡ record { month = m; day = d; second = s }
unfolding date
date-fits m d s h = let e : leb d (month_length m) ≡ true = ground arith in rw e refl

date-over :
    (m d s : ℕ)
    → month_length m < d
    → date m d s ≡ record { month = m + 1; day = d - month_length m; second = s }
unfolding date
date-over m d s h = let e : leb d (month_length m) ≡ false = ground arith in rw e refl

found :
    (fuel dd : ℕ) (a t : Date)
    → is_after t a ≡ true
    → t.day ≡ dd
    → until_day (suc fuel) dd a t ≡ some t
unfolding until_day
found fuel dd a t h k = let e : eqb t.day dd ≡ true = ground arith in rw (h, e) refl

goes_on :
    (fuel dd : ℕ) (a t : Date)
    → (is_after t a ≡ false) ⊎ (t.day ≢ dd)
    → until_day (suc fuel) dd a t ≡ until_day fuel dd a (date (t.month + 1) dd t.second)
unfolding until_day
goes_on fuel dd a t (inl h) = rw h refl
goes_on fuel dd a t (inr h) =
    let e : eqb t.day dd ≡ false = ground arith in
    elim (Bool-cases (is_after t a)) [ inl k ↦ rw (k, e) refl | inr k ↦ rw k refl ]

later_month :
    (a : Date) (m d s : ℕ)
    → a.month < m
    → is_after (record { month = m; day = d; second = s }) a ≡ true
unfolding is_after
later_month a m d s h = ground arith

module _ (dd sod : ℕ) (a : Date) (low : 1 ≤ dd) (high : dd ≤ 31) where
  abbrev loop : ℕ → ℕ → Option Date
  loop fuel m = until_day fuel dd a (date m dd sod)

  good_month : (fuel m : ℕ) → a.month < m → dd ≤ month_length m → Due dd sod a (loop (suc fuel) m)
  good_month fuel m h k = rw (date-fits m dd sod k) (
    record { month = m; day = dd; second = sod },
    (
      found fuel dd a _ (later_month a m dd sod h) refl,
      record { later = later_month a m dd sod h; day = refl; second = refl },
    ),
  )

  bad_month : (fuel m : ℕ) → month_length m < dd → loop (suc fuel) m ≡ loop fuel (m + 2)
  bad_month fuel m k =
      let b = (month_length_bounds m).0 in
      let e : m + 1 + 1 ≡ m + 2 = omega arith in
      rw (date-over m dd sod k) (
        goes_on fuel dd a (record { month = m + 1; day = dd - month_length m; second = sod })
          (inr (λ q. omega arith))
        ∙ ap (loop fuel) e)

  -- A month behind `a`: at most three that follow by two lack the day.
  next_month :
      (fuel m : ℕ)
      → a.month < m
      → (month_length m < dd → Due dd sod a (loop fuel (m + 2)))
      → Due dd sod a (loop (suc fuel) m)
  next_month fuel m h rest = elim (Bool-cases (leb dd (month_length m))) [
    | inl k ↦ good_month fuel m h (ground (arith, k))
    | inr k ↦ let l : month_length m < dd = ground (arith, k) in rw (bad_month fuel m l) (rest l)
  ]

  three_bad : (m : ℕ) → IsBad m → IsBad (m + 2) → IsBad (m + 2 + 2) → IsBad (m + 2 + 2 + 2) → ⊥
  three_bad m p q r s = omega arith

  behind : (m : ℕ) → a.month < m → Due dd sod a (loop 4 m)
  behind m h = next_month 3 m h λ p. next_month 2 (m + 2) (omega arith) λ q.
      next_month 1 (m + 2 + 2) (omega arith) λ r. next_month 0 (m + 2 + 2 + 2) (omega arith) λ s.
        absurd (three_bad m (bad m p) (bad (m + 2) q) (bad (m + 2 + 2) r) (bad (m + 2 + 2 + 2) s))
    where
      bad : (n : ℕ) → month_length n < dd → IsBad n
      bad n k = lacking-IsBad n dd high k

  this_month : dd ≤ month_length a.month → Due dd sod a (loop 5 a.month)
  this_month k =
      elim (Bool-cases (is_after (record { month = a.month; day = dd; second = sod }) a)) [
        | inl l ↦ rw (date-fits a.month dd sod k) (
          record { month = a.month; day = dd; second = sod },
          (found 4 dd a _ l refl, record { later = l; day = refl; second = refl }),
        )
        | inr l ↦
            rw
              (
                date-fits a.month dd sod k,
                goes_on 4 dd a (record { month = a.month; day = dd; second = sod }) (inl l),
              )
              (behind (a.month + 1) (omega arith))
      ]

  from_this_month : Due dd sod a (loop 5 a.month)
  from_this_month = elim (Bool-cases (leb dd (month_length a.month))) [
    | inl k ↦ this_month (ground (arith, k))
    | inr k ↦ rw (bad_month 4 a.month (ground (arith, k))) (behind (a.month + 2) (omega arith))
  ]

-- For every day of the month from 1 to 31 the loop of a monthly schedule ends, at a date behind the present
-- one that has this day and this time.
pub next_monthly-IsDue :
    (dd sod : ℕ) (a : Date)
    → 1 ≤ dd
    → dd ≤ 31
    → (d : Date) × ((next_monthly dd sod a ≡ some d) × IsDue dd sod a d)
unfolding next_monthly
next_monthly-IsDue dd sod a low high = from_this_month dd sod a low high

this_or_next :
    (dd sod : ℕ) (a : Date)
    → 1 ≤ dd
    → dd ≤ 28
    → next_monthly dd sod a ≡ (
        if is_after (record { month = a.month; day = dd; second = sod }) a
        then some (record { month = a.month; day = dd; second = sod })
        else some (record { month = a.month + 1; day = dd; second = sod }))
unfolding next_monthly
this_or_next dd sod a low high =
    elim (Bool-cases (is_after (record { month = a.month; day = dd; second = sod }) a)) [
      | inl l ↦
          rw
            (
              date-fits a.month dd sod (fits a.month),
              found 4 dd a (record { month = a.month; day = dd; second = sod }) l refl,
              l,
            )
            refl
      | inr l ↦
          rw
            (
              date-fits a.month dd sod (fits a.month),
              goes_on 4 dd a (record { month = a.month; day = dd; second = sod }) (inl l),
              date-fits (a.month + 1) dd sod (fits (a.month + 1)),
              found 3 dd a (record { month = a.month + 1; day = dd; second = sod })
                  (later_month a (a.month + 1) dd sod (omega arith)) refl,
              l,
            )
            refl
    ]
  where
    fits : (m : ℕ) → dd ≤ month_length m
    fits m = let b = (month_length_bounds m).0 in omega arith

-- Up to the 28th day no month is passed over: no date behind the present one with this day and this time lies
-- in an earlier month than the answer.
pub next_monthly-first :
    (dd sod : ℕ) (a d b : Date)
    → 1 ≤ dd
    → dd ≤ 28
    → next_monthly dd sod a ≡ some d
    → is_after b a ≡ true
    → b.day ≡ dd
    → b.second ≡ sod
    → d.month ≤ b.month
unfolding is_after
next_monthly-first dd sod a d b low high h l e f =
    ground (arith, this_or_next dd sod a low high, h, l, e, f)
