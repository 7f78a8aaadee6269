-- ===== src/Scheduler/Cron.antt =====
-- Cron expressions: cronField and nextCron of source/internal/scheduler/scheduler.go. An instant is its
-- second since year 1, and what the zone's clock shows then is given as `reading`.
use bonghos.Base.{
  ℕ, zero, suc, ◌+◌, ◌*◌, ◌/◌, ◌%◌, ◌^◌, Bool, ◌&&◌, ◌||◌, List, [], ◌∷◌, ◌++◌, Option, none, some,
  if◌then◌else◌, eqb, ltb, leb, any, ℤ, pos, negsuc,
}
use bonghos.Base.Text.{Text, text_eq}
use bonghos.Base.Parse.{split_on, cut_at, fields_of, atoi}

abbrev star : Text
star = b'*' ∷ []

-- `v <= end` for a 64-bit v, given as its value modulo 2 ^ 64.
abbrev pub at_most : ℕ → ℕ → Bool
at_most v end = leb (2 ^ 63) v || leb v end

abbrev pub add_value : ℕ → Option (List ℕ) → Option (List ℕ)
add_value v none = none
add_value v (some vs) = some (v ∷ vs)

-- The loop `for v := start; v <= end; v += step`; `none` is out of fuel.
unfoldable pub cron_values : ℕ → ℕ → ℕ → ℕ → Option (List ℕ)
cron_values zero v end step = none
cron_values (suc fuel) v end step =
    let rest = cron_values fuel ((v + step) % 2 ^ 64) end step in
    if at_most v end then add_value v rest else some []

abbrev pub enough : ℕ → ℕ
enough end = 2 * end + 4

abbrev positive : Text → Option ℤ → Option (Text × ℕ)
positive base (some (pos (suc n))) = some (base, suc n)
positive base (some (pos zero)) = none
positive base (some (negsuc n)) = none
positive base none = none

-- The part without its step, and the step.
abbrev pub step_of : Text → Option (Text × Text) → Option (Text × ℕ)
step_of part none = some (part, 1)
step_of part (some p) = positive p.0 (atoi p.1)

abbrev both : Option ℤ → Option ℤ → Option (ℤ × ℤ)
both (some a) (some b) = some (a, b)
both (some a) none = none
both none b = none

abbrev pub ends_of : Text → Option (Text × Text) → Option (ℤ × ℤ)
ends_of base none = both (atoi base) (atoi base)
ends_of base (some p) = both (atoi p.0) (atoi p.1)

abbrev pub range_of : ℕ → ℕ → Text → Option (ℤ × ℤ)
range_of lo hi base =
    if text_eq base star then some (pos lo, pos hi) else ends_of base (cut_at b'-' base)

abbrev pub values_between : ℕ → ℕ → ℕ → Option (ℤ × ℤ) → Option (List ℕ)
values_between lo hi step (some (pos start, pos end)) =
    if ltb start lo || ltb hi end || ltb end start
    then none
    else cron_values (enough end) start end step
values_between lo hi step _ = none

abbrev pub values_of : ℕ → ℕ → Option (Text × ℕ) → Option (List ℕ)
values_of lo hi none = none
values_of lo hi (some p) = values_between lo hi p.1 (range_of lo hi p.0)

abbrev union : Option (List ℕ) → Option (List ℕ) → Option (List ℕ)
union (some vs) (some ws) = some (vs ++ ws)
union (some vs) none = none
union none ws = none

unfoldable pub cron_parts : ℕ → ℕ → List Text → Option (List ℕ)
cron_parts lo hi [] = some []
cron_parts lo hi (part ∷ parts) =
    union (values_of lo hi (step_of part (cut_at b'/' part))) (cron_parts lo hi parts)

-- cronField; `none` is its error.
unfoldable pub cron_field : Text → ℕ → ℕ → Option (List ℕ)
cron_field f lo hi = cron_parts lo hi (split_on b',' f)

-- What the clock shows: the month, day of the month, day of the week, hour and minute.
pub record Reading : Type 0 where
  pub month : ℕ
  pub day : ℕ
  pub weekday : ℕ
  pub hour : ℕ
  pub minute : ℕ

-- The five sets that a cron expression stands for.
pub record CronSets : Type 0 where
  pub minutes : List ℕ
  pub hours : List ℕ
  pub days : List ℕ
  pub months : List ℕ
  pub weekdays : List ℕ

abbrev pub in_set : List ℕ → ℕ → Bool
in_set vs n = any (λ v. eqb v n) vs

abbrev pub matches : CronSets → Reading → Bool
matches s r =
    in_set s.months r.month
    && (in_set s.days r.day
        && (in_set s.weekdays r.weekday && (in_set s.hours r.hour && in_set s.minutes r.minute)))

pub data CronResult : Type 0 where
  found : ℕ → CronResult
  bad_expression no_match out_of_fuel : CronResult

-- The search of nextCron from minute to minute.
unfoldable pub cron_search : ℕ → (ℕ → Reading) → CronSets → ℕ → ℕ → CronResult
cron_search zero reading sets limit t = out_of_fuel
cron_search (suc fuel) reading sets limit t =
    let rest = cron_search fuel reading sets limit (t + 60) in
    if ltb t limit then (if matches sets (reading t) then found t else rest) else no_match

abbrev sets_of_fields :
    Option (List ℕ)
    → Option (List ℕ)
    → Option (List ℕ)
    → Option (List ℕ)
    → Option (List ℕ)
    → Option CronSets
sets_of_fields (some a) (some b) (some c) (some d) (some e) =
    some (record { minutes = a; hours = b; days = c; months = d; weekdays = e })
sets_of_fields _ _ _ _ _ = none

abbrev pub cron_sets : List Text → Option CronSets
cron_sets (a ∷ b ∷ c ∷ d ∷ e ∷ []) =
    sets_of_fields (cron_field a 0 59) (cron_field b 0 23) (cron_field c 1 31) (cron_field d 1 12)
      (cron_field e 0 6)
cron_sets _ = none

-- `after.Truncate(time.Minute).Add(time.Minute)`
abbrev pub next_minute : ℕ → ℕ
next_minute after = (after / 60 + 1) * 60

abbrev pub search_from : (ℕ → Reading) → ℕ → ℕ → Option CronSets → CronResult
search_from reading limit after none = bad_expression
search_from reading limit after (some sets) =
    cron_search (limit + 1) reading sets limit (next_minute after)

-- nextCron; `limit` is two years after `after`.
unfoldable pub next_cron : (ℕ → Reading) → (ℕ → ℕ) → Text → ℕ → CronResult
next_cron reading two_years_later expr after =
    search_from reading (two_years_later after) after (cron_sets (fields_of expr))
