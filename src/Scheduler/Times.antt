-- ===== src/Scheduler/Times.antt =====
-- The times of day in a schedule: parseHMS and parseHourly of source/internal/scheduler/scheduler.go.
use bonghos.Base.{
  ℕ, ◌+◌, ◌*◌, List, [], ◌∷◌, Option, none, some, if◌then◌else◌, leb, ℤ, pos, negsuc,
}
use bonghos.Base.Text.{Text, trim_space}
use bonghos.Base.Parse.{split_on, atoi}

pub record TimeOfDay : Type 0 where
  pub hour : ℕ
  pub minute : ℕ
  pub second : ℕ

abbrev pub upto : ℕ → Option ℤ → Option ℕ
upto high (some (pos n)) = if leb n high then some n else none
upto high (some (negsuc n)) = none
upto high none = none

abbrev pub time_of : Option ℕ → Option ℕ → Option ℕ → Option TimeOfDay
time_of (some h) (some m) (some s) = some (record { hour = h; minute = m; second = s })
time_of (some h) (some m) none = none
time_of (some h) none s = none
time_of none m s = none

abbrev pub time_of_parts : List Text → Option TimeOfDay
time_of_parts (h ∷ m ∷ []) = time_of (upto 23 (atoi h)) (upto 59 (atoi m)) (some 0)
time_of_parts (h ∷ m ∷ s ∷ []) = time_of (upto 23 (atoi h)) (upto 59 (atoi m)) (upto 59 (atoi s))
time_of_parts _ = none

-- parseHMS; `none` is its error.
unfoldable pub parse_hms : Text → Option TimeOfDay
parse_hms value = time_of_parts (split_on b':' (trim_space value))

abbrev pub minute_of : Option ℕ → Option ℕ → Option (ℕ × ℕ)
minute_of (some m) (some s) = some (m, s)
minute_of (some m) none = none
minute_of none s = none

abbrev pub minute_of_parts : List Text → Option (ℕ × ℕ)
minute_of_parts (m ∷ []) = minute_of (upto 59 (atoi m)) (some 0)
minute_of_parts (m ∷ s ∷ []) = minute_of (upto 59 (atoi m)) (upto 59 (atoi s))
minute_of_parts _ = none

-- parseHourly
unfoldable pub parse_hourly : Text → Option (ℕ × ℕ)
parse_hourly value = minute_of_parts (split_on b':' (trim_space value))

-- The second of the day.
abbrev pub second_of_day : TimeOfDay → ℕ
second_of_day t = t.hour * 3600 + t.minute * 60 + t.second
