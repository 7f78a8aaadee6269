-- ===== src/Scheduler/Runs.antt =====
-- The table of runs and the execution of a schedule: lease, recordRun, RunNow and execute of
-- source/internal/scheduler/scheduler.go, over migration 0001. Times are seconds; the key of a run,
-- "id@time", is the pair of both.
use bonghos.Base.{
  ℕ, String, Bool, true, false, ◌&&◌, ◌||◌, not, List, [], ◌∷◌, ◌++◌, Option, none, some, map, ◌==◌,
  if◌then◌else◌, eqb, any,
}
use bonghos.Scheduler.Actions.{Payload, Call, start_server, ActionError, Answers, run_action}

pub record Schedule : Type 0 where
  pub id : ℕ
  pub action : String
  pub payload : Payload
  pub offline_policy : String
  pub missed_run_policy : String
  pub conflict_policy : String

-- A row of `schedule_runs`, without its texts of detail.
pub record RunRow : Type 0 where
  pub schedule_id : ℕ
  pub planned_at : ℕ
  pub status : String
  pub started_at : Option ℕ
  pub finished_at : Option ℕ

-- The runs, and the columns `last_run_at` and `last_result` of a schedule.
pub record Ledger : Type 0 where
  pub runs : List RunRow
  pub last_run : ℕ → Option (ℕ × String)

-- The CHECK on `status`.
unfoldable pub valid_status : String → Bool
valid_status s =
    s == "queued"
    || (s == "running"
        || (s == "succeeded"
            || (s == "partially_succeeded"
                || (s == "failed" || (s == "skipped" || s == "cancelled")))))

abbrev pub has_key : ℕ → ℕ → RunRow → Bool
has_key id planned r = eqb r.schedule_id id && eqb r.planned_at planned

unfoldable pub is_known : ℕ → ℕ → Ledger → Bool
is_known id planned l = any (has_key id planned) l.runs

abbrev pub new_row : ℕ → ℕ → String → RunRow
new_row id planned status = record {
  schedule_id = id;
  planned_at = planned;
  status = status;
  started_at = none;
  finished_at = none;
}

-- lease: the insert fails on a key that is there, or for a reason (`fault`) of the database's own.
unfoldable pub lease : Bool → ℕ → ℕ → Ledger → Ledger × Bool
lease fault id planned l =
    if fault || is_known id planned l
    then (l, false)
    else (record l { runs = new_row id planned "queued" ∷ l.runs }, true)

abbrev pub finish_row : ℕ → ℕ → ℕ → String → RunRow → RunRow
finish_row now id planned status r =
    if has_key id planned r then record r { status = status; finished_at = some now } else r

abbrev pub start_row : ℕ → ℕ → ℕ → RunRow → RunRow
start_row now id planned r =
    if has_key id planned r then record r { status = "running"; started_at = some now } else r

-- The first two statements of recordRun. A status outside the CHECK makes INSERT OR IGNORE skip the
-- row and the UPDATE fail on every row it matches.
unfoldable pub write_status : ℕ → ℕ → ℕ → String → List RunRow → List RunRow
write_status now id planned status rows =
    if not (valid_status status)
    then rows
    else map (finish_row now id planned status)
        (if any (has_key id planned) rows then rows else new_row id planned status ∷ rows)

-- recordRun
unfoldable pub record_run : ℕ → ℕ → ℕ → String → Ledger → Ledger
record_run now id planned status l = record l {
  runs = write_status now id planned status l.runs;
  last_run = λ i. if eqb i id then some (now, status) else l.last_run i;
}

-- `UPDATE schedule_runs SET status='running'`
unfoldable pub mark_running : ℕ → ℕ → ℕ → Ledger → Ledger
mark_running now id planned l = record l { runs = map (start_row now id planned) l.runs }

-- What the Executor answers while a run executes: `online_later` is the end of the ten minutes of
-- waiting for the server.
pub record Situation : Type 0 where
  pub operation_in_progress : Bool
  pub online : Bool
  pub online_later : Bool
  pub start_error : Option String
  pub answers : Answers
  pub interrupted : ℕ → Bool

abbrev pub needs_online : String → Bool
needs_online action =
    action == "send_console_command" || (action == "broadcast_message" || action == "save_all")

-- The ledger, the calls that were made, and whether the run was put off by two minutes.
pub record Executed : Type 0 where
  pub ledger : Ledger
  pub calls : List Call
  pub retried : Bool

abbrev pub outcome : Option ActionError → String
outcome none = "succeeded"
outcome (some e) = "failed"

-- The end of execute: the action, and its result; `before` are the calls made so far.
unfoldable pub perform : ℕ → Situation → Schedule → ℕ → List Call → Ledger → Executed
perform now w s planned before l =
    let p = run_action w.answers w.interrupted s.action s.payload in
    record {
      ledger = record_run now s.id planned (outcome p.error) l;
      calls = before ++ p.calls;
      retried = false;
    }

abbrev pub give_up : ℕ → Schedule → ℕ → String → List Call → Ledger → Executed
give_up now s planned status calls l = record {
  ledger = record_run now s.id planned status l;
  calls = calls;
  retried = false;
}

abbrev pub started : Option String → Bool
started none = true
started (some e) = false

unfoldable pub when_offline : ℕ → Situation → Schedule → ℕ → Ledger → Executed
unfolding perform
when_offline now w s planned l =
    if s.offline_policy == "start_then_execute"
    then (if started w.start_error
        then perform now w s planned (start_server ∷ []) l
        else give_up now s planned "failed" (start_server ∷ []) l)
    else if s.offline_policy == "wait_until_online"
    then (if w.online_later
        then perform now w s planned [] l
        else give_up now s planned "skipped" [] l)
    else give_up now s planned "skipped" [] l

-- execute
unfoldable pub execute : ℕ → Situation → Schedule → ℕ → Ledger → Executed
unfolding when_offline
execute now w s planned l0 =
    let l = mark_running now s.id planned l0 in
    if w.operation_in_progress && not (s.action == "create_backup")
    then (if s.conflict_policy == "retry_later"
        then record { ledger = record_run now s.id planned "queued" l; calls = []; retried = true }
        else give_up now s planned "skipped" [] l)
    else if needs_online s.action && not w.online
    then when_offline now w s planned l
    else perform now w s planned [] l

abbrev pub manual_status : Option ActionError → String
manual_status none = "success"
manual_status (some e) = "failed"

-- RunNow
unfoldable pub run_now : ℕ → Situation → Schedule → Ledger → Executed
run_now now w s l =
    let p = run_action w.answers w.interrupted s.action s.payload in
    record {
      ledger = record_run now s.id now (manual_status p.error) l;
      calls = p.calls;
      retried = false;
    }

-- What tick does with a schedule that is due.
unfoldable pub tick_due : Bool → ℕ → Situation → Schedule → ℕ → Ledger → Option Executed
tick_due fault now w s planned l =
    let (leased, won) = lease fault s.id planned l in
    if won then some (execute now w s planned leased) else none

-- What handleMissed does with a schedule whose time has passed when Bonghos starts.
unfoldable pub handle_missed : ℕ → Situation → Schedule → ℕ → Ledger → Executed
handle_missed now w s planned l =
    if s.missed_run_policy == "run_once_after_startup"
    then execute now w s planned l
    else give_up now s planned "skipped" [] l
