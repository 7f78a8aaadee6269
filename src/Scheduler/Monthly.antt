-- ===== src/Scheduler/Monthly.antt =====
-- The monthly schedules of NextRun in source/internal/scheduler/scheduler.go, in a zone whose offset does
-- not change. Months are counted from January of year 1.
use bonghos.Base.{
  ℕ, zero, suc, ◌+◌, ◌-◌, ◌/◌, ◌%◌, Bool, ◌&&◌, ◌||◌, not, Option, none, some, if◌then◌else◌, eqb,
  ltb, leb,
}

abbrev pub is_leap : ℕ → Bool
is_leap y = eqb (y % 4) 0 && (not (eqb (y % 100) 0) || eqb (y % 400) 0)

abbrev is_short : ℕ → Bool
is_short m = eqb m 3 || (eqb m 5 || (eqb m 8 || eqb m 10))

-- The days of a month.
unfoldable pub month_length : ℕ → ℕ
month_length m =
    if eqb (m % 12) 1
    then (if is_leap (m / 12 + 1) then 29 else 28)
    else if is_short (m % 12)
    then 30
    else 31

pub record Date : Type 0 where
  pub month : ℕ
  pub day : ℕ
  pub second : ℕ

-- time.Date, for a day that may lie beyond its month.
unfoldable pub date : ℕ → ℕ → ℕ → Date
date m d s =
    if leb d (month_length m)
    then record { month = m; day = d; second = s }
    else record { month = m + 1; day = d - month_length m; second = s }

-- t.After
unfoldable pub is_after : Date → Date → Bool
is_after t a =
    ltb a.month t.month
    || (eqb t.month a.month && (ltb a.day t.day || (eqb t.day a.day && ltb a.second t.second)))

-- `for !t.After(a) || t.Day() != dd`; `none` is out of fuel.
unfoldable pub until_day : ℕ → ℕ → Date → Date → Option Date
until_day zero dd a t = none
until_day (suc fuel) dd a t =
    let rest = until_day fuel dd a (date (t.month + 1) dd t.second) in
    if not (is_after t a) || not (eqb t.day dd) then rest else some t

unfoldable pub next_monthly : ℕ → ℕ → Date → Option Date
next_monthly dd sod a = until_day 5 dd a (date a.month dd sod)
