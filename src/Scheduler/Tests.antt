-- ===== src/Scheduler/Tests.antt =====
-- Tests of the model of source/internal/scheduler, and the theorems at concrete inputs.
use bonghos.Base.Parse.{fields_of, cut_at, atoi, split_on}
use bonghos.Scheduler.Times.{parse_hms}
use bonghos.Scheduler.TimesLaws.{show_hms, parse_hms-show_hms}
use bonghos.Scheduler.Cron.{
  cron_parts, cron_field, cron_values, enough, Reading, CronSets, next_minute, next_cron,
}
use bonghos.Scheduler.CronValues.{cron_values_ends}
use bonghos.Scheduler.CronLaws.{IsAnswer, next_cron-IsAnswer}
use bonghos.Scheduler.NextRun.{
  position, until_weekday, next_hourly, next_daily, next_weekly, Zone, next_run, in_nanos,
  at_instant,
}
use bonghos.Scheduler.NextRunLaws.{
  AnswersFirst, AtSecondOfHour, AtSecondOfDay, OnWeekday, next-AnswersFirst,
}
use bonghos.Scheduler.Monthly.{month_length, date, is_after, until_day, Date, next_monthly}
use bonghos.Scheduler.MonthlyLaws.{IsDue, next_monthly-IsDue}
use bonghos.Base.{
  ◌%◌, ◌+◌, ◌/◌, ℕ, arith, ◌≢◌, ◌*◌, ◌≤◌, ◌≡◌, refl, negsuc, pos, true, false, List, [], ◌∷◌, none,
  some,
}
use bonghos.Base.Text.{trim_space, text_eq, codes}
use bonghos.Scheduler.Actions.{
  run_step, run_steps, call, safe_console_command, run_single, Payload, send_command, save_all,
  Answers, run_action,
}
use bonghos.Scheduler.Runs.{
  mark_running, valid_status, write_status, record_run, lease, tick_due, Schedule, Ledger, is_known,
  Situation, execute,
}
use bonghos.Scheduler.Once.{Happening, due, retry, manual, starts, starts-once}

abbrev all_well : Answers
all_well n c = none

abbrev calm : Situation
calm = record {
  operation_in_progress = false;
  online = true;
  online_later = true;
  start_error = none;
  answers = all_well;
  interrupted = λ k. false;
}

abbrev warn : Payload
warn = record {
  command = codes "say hi";
  message = [];
  backup_type = [];
  steps =
      record {
        offset_seconds = negsuc 59;
        action = "send_console_command";
        payload = codes "say one minute";
      }
      ∷ record { offset_seconds = pos 0; action = "save_all"; payload = [] }
      ∷ record { offset_seconds = pos 5; action = "send_console_command"; payload = codes " " }
      ∷ [];
}

abbrev nightly : Schedule
nightly = record {
  id = 4;
  action = "send_console_command";
  payload = warn;
  offline_policy = "skip_when_offline";
  missed_run_policy = "skip_missed_run";
  conflict_policy = "retry_later";
}

abbrev empty : Ledger
empty = record { runs = []; last_run = λ i. none }

abbrev leased : Ledger
leased = record {
  runs =
      record {
        schedule_id = 4;
        planned_at = 600;
        status = "queued";
        started_at = none;
        finished_at = none;
      }
      ∷ [];
  last_run = λ i. none;
}

abbrev busy_day : List Happening
busy_day =
    due false 600 calm nightly 600
    ∷ due false 601 calm nightly 600
    ∷ retry 720 calm nightly 600
    ∷ manual 800 calm nightly
    ∷ []

starts-once_example : starts 4 600 busy_day empty ≤ 1
starts-once_example = starts-once 4 600 busy_day empty

starts_test : starts 4 600 busy_day empty ≡ 1
unfolding starts tick_due lease is_known execute record_run write_status valid_status run_action
    run_single safe_console_command text_eq trim_space call mark_running
starts_test = refl

-- The third step is refused, after the two before it were carried out.
run_action_test :
    (run_action all_well (λ k. false) "sequence" warn).calls
    ≡ send_command (codes "say one minute") ∷ save_all ∷ []
unfolding run_action run_steps run_step run_single safe_console_command text_eq trim_space call
run_action_test = refl

parsed : parse_hms (codes " 7:05 ") ≡ some (record { hour = 7; minute = 5; second = 0 })
unfolding parse_hms split_on trim_space atoi
parsed = refl

no_such_hour : parse_hms (codes "24:00") ≡ none
unfolding parse_hms split_on trim_space atoi
no_such_hour = refl

parse_hms-show_hms_example :
    parse_hms (show_hms (record { hour = 4; minute = 30; second = 9 }))
    ≡ some (record { hour = 4; minute = 30; second = 9 })
parse_hms-show_hms_example =
    parse_hms-show_hms (record { hour = 4; minute = 30; second = 9 })
      (record { hour = omega arith; minute = omega arith; second = omega arith })

cron_list : cron_field (codes "1-10/4,20") 0 59 ≡ some (1 ∷ 5 ∷ 9 ∷ 20 ∷ [])
unfolding cron_field cron_parts split_on cut_at atoi text_eq cron_values
cron_list = refl

cron_reversed : cron_field (codes "10-1") 0 59 ≡ none
unfolding cron_field cron_parts split_on cut_at text_eq atoi
cron_reversed = refl

-- A step that overflows: the loop comes back below its start.
cron_overflow :
    cron_field (codes "5-59/9223372036854775807") 0 59
    ≡ some (
        5 ∷ 9223372036854775812 ∷ 3 ∷ 9223372036854775810 ∷ 1 ∷ 9223372036854775808
        ∷ 18446744073709551615 ∷ [])
unfolding cron_field cron_parts split_on cut_at atoi text_eq cron_values
cron_overflow = refl

cron_values_ends_example : cron_values (enough 59) 5 59 9223372036854775807 ≢ none
cron_values_ends_example =
    cron_values_ends 5 59 9223372036854775807 (omega arith) (omega arith) (omega arith)
      (omega arith)

-- A clock without months: every day is the first of a January and a Sunday.
abbrev plain_clock : ℕ → Reading
plain_clock t = record {
  month = 1;
  day = 1;
  weekday = 0;
  hour = t / 3600 % 24;
  minute = t / 60 % 60;
}

abbrev half_past_two : CronSets
half_past_two = record {
  minutes = 30 ∷ [];
  hours = 2 ∷ [];
  days = 1 ∷ [];
  months = 1 ∷ [];
  weekdays = 0 ∷ [];
}

next_cron-IsAnswer_example :
    IsAnswer plain_clock half_past_two 172800
      (next_minute 600)
      (next_cron plain_clock (λ t. 172800) (codes "30 2 1 1 0") 600)
unfolding fields_of cron_field cron_parts split_on cut_at text_eq atoi cron_values
next_cron-IsAnswer_example =
    next_cron-IsAnswer plain_clock (λ t. 172800) (codes "30 2 1 1 0") 600 half_past_two refl

next-AnswersFirst_example :
    AnswersFirst 90000 (AtSecondOfHour (15 * 60 + 30)) (next_hourly 15 30 90000)
    × (AnswersFirst 90000 (AtSecondOfDay 3600) (next_daily 3600 90000)
        × AnswersFirst 90000 (OnWeekday 1 3600) (next_weekly 1 3600 90000))
next-AnswersFirst_example =
    next-AnswersFirst 15 30 3600 1 90000 (omega arith) (omega arith) (omega arith) (omega arith)

-- Monday at one o'clock is an hour gone at 90000, on a Tuesday: six days on.
weekly_test : next_weekly 1 3600 90000 ≡ some 608400
unfolding next_weekly until_weekday
weekly_test = refl

-- The afternoon of the last day of March 2026.
abbrev end_of_march : Date
end_of_march = record { month = 24302; day = 31; second = 50000 }

-- From March on the 31st: May and July, which have a 31st day, are passed over.
monthly_skip :
    next_monthly 31 3600 end_of_march ≡ some (record { month = 24307; day = 31; second = 3600 })
unfolding next_monthly until_day is_after date month_length
monthly_skip = refl

next_monthly-IsDue_example :
    (d : Date) × ((next_monthly 31 3600 end_of_march ≡ some d) × IsDue 31 3600 end_of_march d)
next_monthly-IsDue_example = next_monthly-IsDue 31 3600 end_of_march (omega arith) (omega arith)

abbrev bare_zone : Zone
bare_zone = record {
  parse_layout = λ l t. none;
  date_of = λ t. end_of_march;
  reading = plain_clock;
  two_years_later = λ t. t;
}

-- The next run lies about 292 years in the past.
interval_overflow :
    next_run (λ c. c) bare_zone "fixed_interval" (codes "9223372037") 5
    ≡ in_nanos (negsuc 9223372036709551615)
unfolding next_run atoi trim_space
interval_overflow = refl

-- Monday at one o'clock, in lower case.
next_weekly_run : next_run (λ c. c) bare_zone "weekly" (codes "mon 01:00") 90000 ≡ at_instant 608400
unfolding next_run fields_of trim_space position text_eq parse_hms split_on atoi next_weekly
    until_weekday
next_weekly_run = refl
