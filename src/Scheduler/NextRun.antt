-- ===== src/Scheduler/NextRun.antt =====
-- NextRun of source/internal/scheduler/scheduler.go, in a zone whose offset does not change. An instant is
-- the second that the zone's clock shows, counted from the first Monday of year 1.
use bonghos.Base.{
  ℕ, zero, suc, ◌+◌, ◌-◌, ◌*◌, ◌/◌, ◌%◌, ◌^◌, ◌&&◌, ◌||◌, not, List, [], ◌∷◌, Option, none, some,
  if◌then◌else◌, eqb, ltb, leb, ℤ, pos, negsuc, String, ◌==◌, map,
}
use bonghos.Base.Text.{Text, text_eq, codes, trim_space}
use bonghos.Base.Parse.{fields_of, atoi}
use bonghos.Scheduler.Times.{TimeOfDay, upto, parse_hms, parse_hourly, second_of_day}
use bonghos.Scheduler.Cron.{Reading, CronResult, next_cron}
use bonghos.Scheduler.Monthly.{Date, next_monthly}

abbrev pub day_seconds : ℕ
day_seconds = 86400

-- Sunday is 0; day 0 is a Monday.
abbrev pub weekday_of : ℕ → ℕ
weekday_of t = (t / day_seconds + 1) % 7

-- `for !t.After(a) { t = t.Add(step) }`; `none` is out of fuel.
unfoldable pub until_after : ℕ → ℕ → ℕ → ℕ → Option ℕ
until_after zero step a t = none
until_after (suc fuel) step a t =
    let rest = until_after fuel step a (t + step) in if ltb a t then some t else rest

-- `for t.Weekday() != wd || !t.After(a)`
unfoldable pub until_weekday : ℕ → ℕ → ℕ → ℕ → Option ℕ
until_weekday zero wd a t = none
until_weekday (suc fuel) wd a t =
    let rest = until_weekday fuel wd a (t + day_seconds) in
    if not (eqb (weekday_of t) wd) || not (ltb a t) then rest else some t

unfoldable pub next_hourly : ℕ → ℕ → ℕ → Option ℕ
next_hourly minute second a = until_after 2 3600 a (a / 3600 * 3600 + minute * 60 + second)

unfoldable pub next_daily : ℕ → ℕ → Option ℕ
next_daily sod a = until_after 2 day_seconds a (a / day_seconds * day_seconds + sod)

unfoldable pub next_weekly : ℕ → ℕ → ℕ → Option ℕ
next_weekly wd sod a = until_weekday 8 wd a (a / day_seconds * day_seconds + sod)

-- The next run: at an instant, on a date, the given nanoseconds later, or by a cron expression; none any
-- more, an error, or a loop that ran out of fuel.
pub data Next : Type 0 where
  at_instant : ℕ → Next
  on_date : Date → Next
  in_nanos : ℤ → Next
  by_cron : CronResult → Next
  no_more bad_schedule out_of_fuel : Next

abbrev pub instant : Option ℕ → Next
instant none = out_of_fuel
instant (some t) = at_instant t

abbrev pub dated : Option Date → Next
dated none = out_of_fuel
dated (some d) = on_date d

abbrev pub run_hourly : ℕ → Option (ℕ × ℕ) → Next
run_hourly a none = bad_schedule
run_hourly a (some p) = instant (next_hourly p.0 p.1 a)

abbrev pub run_daily : ℕ → Option TimeOfDay → Next
run_daily a none = bad_schedule
run_daily a (some t) = instant (next_daily (second_of_day t) a)

abbrev pub upper_rune : (ℕ → ℕ) → ℕ → ℕ
upper_rune beyond r =
    if leb b'a' r && leb r b'z' then r - 32 else if ltb r 0x80 then r else beyond r

abbrev pub one_later : Option ℕ → Option ℕ
one_later none = none
one_later (some n) = some (suc n)

-- The position of a name in a list of names.
unfoldable pub position : Text → List Text → Option ℕ
position w [] = none
position w (v ∷ vs) = let rest = position w vs in if text_eq w v then some 0 else one_later rest

abbrev pub weekday_names : List Text
weekday_names =
    codes "SUN"
    ∷ codes "MON"
    ∷ codes "TUE"
    ∷ codes "WED"
    ∷ codes "THU"
    ∷ codes "FRI"
    ∷ codes "SAT"
    ∷ []

abbrev pub run_weekly : ℕ → Option ℕ → Option TimeOfDay → Next
run_weekly a (some wd) (some t) = instant (next_weekly wd (second_of_day t) a)
run_weekly a (some wd) none = bad_schedule
run_weekly a none t = bad_schedule

abbrev pub weekly_parts : (ℕ → ℕ) → ℕ → List Text → Next
weekly_parts beyond a (d ∷ t ∷ []) =
    run_weekly a (position (map (upper_rune beyond) d) weekday_names) (parse_hms t)
weekly_parts beyond a _ = bad_schedule

abbrev pub at_least_one : Option ℕ → Option ℕ
at_least_one (some (suc n)) = some (suc n)
at_least_one _ = none

abbrev pub run_monthly : Date → Option ℕ → Option TimeOfDay → Next
run_monthly a (some dd) (some t) = dated (next_monthly dd (second_of_day t) a)
run_monthly a (some dd) none = bad_schedule
run_monthly a none t = bad_schedule

abbrev pub monthly_parts : Date → List Text → Next
monthly_parts a (d ∷ t ∷ []) = run_monthly a (at_least_one (upto 31 (atoi d))) (parse_hms t)
monthly_parts a _ = bad_schedule

-- A 64-bit value as a signed one.
abbrev pub signed64 : ℕ → ℤ
signed64 n = if ltb n (2 ^ 63) then pos n else negsuc (2 ^ 64 - 1 - n)

-- `time.Duration(sec) * time.Second`
abbrev pub interval : Option ℤ → Next
interval (some (pos n)) =
    if ltb n 60 then bad_schedule else in_nanos (signed64 ((n * 1000000000) % 2 ^ 64))
interval (some (negsuc n)) = bad_schedule
interval none = bad_schedule

abbrev pub run_once : ℕ → Option ℕ → Next
run_once a none = bad_schedule
run_once a (some t) = if ltb a t then at_instant t else no_more

abbrev pub or_else : Option ℕ → Option ℕ → Option ℕ
or_else none p = p
or_else (some t) p = some t

-- What the time package gives for the zone: a text read by a layout, the clock's date, and two years on.
pub record Zone : Type 0 where
  pub parse_layout : Text → Text → Option ℕ
  pub date_of : ℕ → Date
  pub reading : ℕ → Reading
  pub two_years_later : ℕ → ℕ

-- NextRun; `beyond` is strings.ToUpper outside ASCII.
unfoldable pub next_run : (ℕ → ℕ) → Zone → String → Text → ℕ → Next
next_run beyond zone schedule_type expression a =
    let expr = trim_space expression in
    if schedule_type == "once"
    then run_once a (
        or_else (zone.parse_layout (codes "2006-01-02 15:04:05") expr)
          (zone.parse_layout (codes "2006-01-02 15:04") expr))
    else if schedule_type == "hourly"
    then run_hourly a (parse_hourly expr)
    else if schedule_type == "daily"
    then run_daily a (parse_hms expr)
    else if schedule_type == "weekly"
    then weekly_parts beyond a (fields_of expr)
    else if schedule_type == "monthly"
    then monthly_parts (zone.date_of a) (fields_of expr)
    else if schedule_type == "fixed_interval"
    then interval (atoi expr)
    else if schedule_type == "advanced_cron"
    then by_cron (next_cron zone.reading zone.two_years_later expr a)
    else bad_schedule
