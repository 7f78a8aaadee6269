-- ===== src/Scheduler/Outcome.antt =====
-- What execute, RunNow and runAction of scheduler.go leave behind.
use bonghos.Base.{
  eq_refl, ℕ, ◌+◌, ◌≡◌, refl, String, Bool, true, false, ◌&&◌, not, List, [], ◌∷◌, ◌++◌, Option,
  none, some, map, ◌==◌, if◌then◌else◌, if-elim, All, eqb_refl, any, arith,
}
use bonghos.Scheduler.Actions.{
  SequenceStep, Payload, Call, start_server, send_command, Performed, ActionError, Answers,
  safe_console_command, call, run_single, run_step, run_steps, run_action, and_then, count_calls,
}
use bonghos.Scheduler.Runs.{
  started, Schedule, RunRow, Ledger, valid_status, has_key, is_known, finish_row, write_status,
  record_run, mark_running, Situation, Executed, outcome, needs_online, perform, when_offline,
  execute, run_now,
}
use bonghos.Scheduler.Known.{Known, mark_running-Known}

-- The first row of a key says this.
abbrev says : ℕ → ℕ → String → List RunRow → Bool
says id planned status [] = false
says id planned status (r ∷ rows) =
    if has_key id planned r then r.status == status else says id planned status rows

finish-says :
    (now id planned : ℕ) (status : String) (rows : List RunRow)
    → any (has_key id planned) rows ≡ true
    → says id planned status (map (finish_row now id planned status) rows) ≡ true
finish-says now id planned status [] h = cc
finish-says now id planned status (r ∷ rows) h =
    ground (arith, finish-says now id planned status rows, eq_refl status)

-- A run that is in the table ends with the status of its row and the last result of its schedule both
-- being the given one.
pub record Ended (s : Schedule) (planned now : ℕ) (status : String) (l : Ledger) : Type 0 where
  pub row : says s.id planned status l.runs ≡ true
  pub result : l.last_run s.id ≡ some (now, status)

record_run-Ended :
    (now planned : ℕ) (s : Schedule) (status : String) (l : Ledger)
    → valid_status status ≡ true
    → Known s.id planned l
    → Ended s planned now status (record_run now s.id planned status l)
unfolding record_run write_status is_known
record_run-Ended now planned s status l v k = record {
  row = rw (v, k) (finish-says now s.id planned status l.runs k);
  result = rw (eqb_refl s.id) refl;
}

-- How a run can end: carried out, failed, skipped, or put off.
pub data HasOutcome (s : Schedule) (planned now : ℕ) (r : Executed) : Type 0 where
  succeeded : Ended s planned now "succeeded" r.ledger → HasOutcome s planned now r
  failed : Ended s planned now "failed" r.ledger → HasOutcome s planned now r
  skipped : Ended s planned now "skipped" r.ledger → r.calls ≡ [] → HasOutcome s planned now r
  put_off :
      Ended s planned now "queued" r.ledger
      → r.calls ≡ []
      → r.retried ≡ true
      → HasOutcome s planned now r

module _ (now planned : ℕ) (w : Situation) (s : Schedule) where
  abbrev Out : Executed → Type 0
  Out r = HasOutcome s planned now r

  ended :
      (status : String) (l : Ledger)
      → valid_status status ≡ true
      → Known s.id planned l
      → Ended s planned now status (record_run now s.id planned status l)
  ended status l v k = record_run-Ended now planned s status l v k

  performed :
      (error : Option ActionError) (calls : List Call) (l : Ledger)
      → Known s.id planned l
      → Out (record {
        ledger = record_run now s.id planned (outcome error) l;
        calls = calls;
        retried = false;
      })
  unfolding valid_status
  performed none calls l k = succeeded (ended "succeeded" l refl k)
  performed (some e) calls l k = failed (ended "failed" l refl k)

  perform-Out :
      (before : List Call) (l : Ledger)
      → Known s.id planned l
      → Out (perform now w s planned before l)
  unfolding perform
  perform-Out before l k =
      performed (run_action w.answers w.interrupted s.action s.payload).error _ l k

  skip-Out :
      (l : Ledger)
      → Known s.id planned l
      → Out
          (record { ledger = record_run now s.id planned "skipped" l; calls = []; retried = false })
  unfolding valid_status
  skip-Out l k = skipped (ended "skipped" l refl k) refl

  offline-Out : (l : Ledger) → Known s.id planned l → Out (when_offline now w s planned l)
  unfolding when_offline valid_status
  offline-Out l k =
      if-elim Out (s.offline_policy == "start_then_execute") _ _
        (λ _.
          if-elim Out (started w.start_error) _ _ (λ _. perform-Out (start_server ∷ []) l k)
            (λ _. failed (ended "failed" l refl k)))
        (λ _.
          if-elim Out (s.offline_policy == "wait_until_online") _ _
            (λ _. if-elim Out w.online_later _ _ (λ _. perform-Out [] l k) (λ _. skip-Out l k))
            (λ _. skip-Out l k))

-- If its run is in the table, execute does not leave it running: the row of the run and the last result
-- of the schedule agree on succeeded, failed, skipped or queued; a run that is skipped or queued has
-- called nothing, and one that is queued is to be tried again.
pub execute-HasOutcome :
    (now planned : ℕ) (w : Situation) (s : Schedule) (l : Ledger)
    → Known s.id planned l
    → HasOutcome s planned now (execute now w s planned l)
unfolding execute valid_status
execute-HasOutcome now planned w s l h =
    let k = mark_running-Known s.id planned now s.id planned l h in
    if-elim (Out now planned w s) (w.operation_in_progress && not (s.action == "create_backup")) _ _
      (λ _.
        if-elim (Out now planned w s) (s.conflict_policy == "retry_later") _ _
          (λ _.
            put_off (ended now planned w s "queued" (mark_running now s.id planned l) refl k) refl
              refl)
          (λ _. skip-Out now planned w s (mark_running now s.id planned l) k))
      (λ _.
        if-elim (Out now planned w s) (needs_online s.action && not w.online) _ _
          (λ _. offline-Out now planned w s (mark_running now s.id planned l) k)
          (λ _. perform-Out now planned w s [] (mark_running now s.id planned l) k))

-- A run by hand whose action succeeds leaves no row of the run if there was none, although the schedule
-- reports the result: the status that RunNow writes is not one that the table allows.
pub run_now-unrecorded :
    (now : ℕ) (w : Situation) (s : Schedule) (l : Ledger)
    → (run_action w.answers w.interrupted s.action s.payload).error ≡ none
    → is_known s.id now l ≡ false
    → (is_known s.id now (run_now now w s l).ledger ≡ false)
      × ((run_now now w s l).ledger.last_run s.id ≡ some (now, "success"))
unfolding run_now record_run write_status valid_status is_known
run_now-unrecorded now w s l e k = (rw (e, k) refl, rw (e, eqb_refl s.id) refl)

-- A call that sends a command sends one that passes the policy.
abbrev pub IsSafe : Call → Type 0
IsSafe (send_command c) = safe_console_command c ≡ true
IsSafe _ = Unit

abbrev Safe : Performed → Type 0
Safe p = All IsSafe p.calls

run_single-IsSafe :
    (answers : Answers) (n : ℕ) (action : String) (p : Payload)
    → Safe (run_single answers n action p)
unfolding run_single call
run_single-IsSafe answers n action p =
    if-elim Safe (action == "start_server") _ _ (λ _. (tt, tt))
      (λ _.
        if-elim Safe (action == "stop_server") _ _ (λ _. (tt, tt))
          (λ _.
            if-elim Safe (action == "restart_server") _ _ (λ _. (tt, tt))
              (λ _.
                if-elim Safe (action == "send_console_command") _ _
                  (λ _.
                    if-elim Safe (not (safe_console_command p.command)) _ _ (λ _. tt)
                      (λ h. (ground arith, tt)))
                  (λ _.
                    if-elim Safe (action == "broadcast_message") _ _ (λ _. (tt, tt))
                      (λ _.
                        if-elim Safe (action == "save_all") _ _ (λ _. (tt, tt))
                          (λ _.
                            if-elim Safe (action == "create_backup") _ _ (λ _. (tt, tt))
                              (λ _. tt)))))))

run_step-IsSafe : (answers : Answers) (n : ℕ) (step : SequenceStep) → Safe (run_step answers n step)
unfolding run_step
run_step-IsSafe answers n step =
    if-elim Safe (step.action == "sequence") _ _ (λ _. tt)
      (λ _. run_single-IsSafe answers n step.action _)

calls_append : (xs ys : List Call) → All IsSafe xs → All IsSafe ys → All IsSafe (xs ++ ys)
calls_append [] ys h k = k
calls_append (x ∷ xs) ys h k = (h.0, calls_append xs ys h.1 k)

and_then-IsSafe : (p q : Performed) → Safe p → Safe q → Safe (and_then p q)
and_then-IsSafe p q h k = both p.error
  where
    both :
        (e : Option ActionError)
        → Safe
            (elim e [ none ↦ record { calls = p.calls ++ q.calls; error = q.error } | some x ↦ p ])
    both none = calls_append p.calls q.calls h k
    both (some x) = h

run_steps-IsSafe :
    (answers : Answers) (interrupted : ℕ → Bool) (k n : ℕ) (steps : List SequenceStep)
    → Safe (run_steps answers interrupted k n steps)
unfolding run_steps
run_steps-IsSafe answers interrupted k n [] = tt
run_steps-IsSafe answers interrupted k n (step ∷ rest) =
    let m : ℕ = n + count_calls (run_step answers n step).calls in
    if-elim Safe (interrupted k) _ _ (λ _. tt)
      (λ _.
        and_then-IsSafe (run_step answers n step) (run_steps answers interrupted (k + 1) m rest)
          (run_step-IsSafe answers n step) (run_steps-IsSafe answers interrupted (k + 1) m rest))

-- Each command that an action sends to the console, alone or as a step of a sequence, passes
-- safeConsoleCommand.
pub run_action-IsSafe :
    (answers : Answers) (interrupted : ℕ → Bool) (action : String) (p : Payload)
    → All IsSafe (run_action answers interrupted action p).calls
unfolding run_action
run_action-IsSafe answers interrupted action p =
    if-elim Safe (action == "sequence") _ _ (λ _. run_steps-IsSafe answers interrupted 0 0 p.steps)
      (λ _. run_single-IsSafe answers 0 action p)
