-- ===== src/Scheduler/Actions.antt =====
-- What a schedule does when it runs: runAction and safeConsoleCommand of
-- source/internal/scheduler/scheduler.go.
use bonghos.Base.{
  ℕ, ◌+◌, ℤ, String, Bool, ◌||◌, not, List, [], ◌∷◌, ◌++◌, Option, none, some, ◌==◌, if◌then◌else◌,
  eqb, any,
}
use bonghos.Base.Text.{Text, codes, text_eq, trim_space}

pub record SequenceStep : Type 0 where
  pub offset_seconds : ℤ
  pub action : String
  pub payload : Text

-- The decoded payload; a field that is missing is empty.
pub record Payload : Type 0 where
  pub command : Text
  pub message : Text
  pub backup_type : Text
  pub steps : List SequenceStep

-- The calls of the Executor that change the server.
pub data Call : Type 0 where
  start_server stop_server restart_server save_all : Call
  send_command : Text → Call
  broadcast : Text → Call
  create_backup : Text → Call

pub data ActionError : Type 0 where
  executor_error : String → ActionError
  rejected_by_policy : ActionError
  unknown_action : String → ActionError
  cancelled : ActionError

-- What was called, in order, and the error.
pub record Performed : Type 0 where
  pub calls : List Call
  pub error : Option ActionError

-- safeConsoleCommand
unfoldable pub safe_console_command : Text → Bool
safe_console_command raw =
    let cmd = trim_space raw in not (text_eq cmd [] || any (λ r. eqb r 10 || eqb r 13) cmd)

-- The executor's answer to the n-th call; `none` is success.
abbrev pub Answers : Type 0
Answers = ℕ → Call → Option String

abbrev pub wrap : Option String → Option ActionError
wrap none = none
wrap (some e) = some (executor_error e)

unfoldable pub call : Answers → ℕ → Call → Performed
call answers n c = record { calls = c ∷ []; error = wrap (answers n c) }

abbrev pub backup_or_default : Text → Text
backup_or_default t = if text_eq t [] then codes "full_server" else t

-- runAction for everything but a sequence; `n` calls were made before.
unfoldable pub run_single : Answers → ℕ → String → Payload → Performed
run_single answers n action p =
    if action == "start_server"
    then call answers n start_server
    else if action == "stop_server"
    then call answers n stop_server
    else if action == "restart_server"
    then call answers n restart_server
    else if action == "send_console_command"
    then (if not (safe_console_command p.command)
        then record { calls = []; error = some rejected_by_policy }
        else call answers n (send_command p.command))
    else if action == "broadcast_message"
    then call answers n (broadcast p.message)
    else if action == "save_all"
    then call answers n save_all
    else if action == "create_backup"
    then call answers n (create_backup (backup_or_default p.backup_type))
    else record { calls = []; error = some (unknown_action action) }

-- The payload of a step has no steps of its own, so a sequence within a sequence does nothing.
unfoldable pub run_step : Answers → ℕ → SequenceStep → Performed
run_step answers n step =
    if step.action == "sequence"
    then record { calls = []; error = none }
    else run_single answers n step.action (record {
      command = step.payload;
      message = step.payload;
      backup_type = step.payload;
      steps = [];
    })

abbrev pub count_calls : List Call → ℕ
count_calls [] = 0
count_calls (c ∷ cs) = count_calls cs + 1

abbrev pub and_then : Performed → Performed → Performed
and_then p q = elim p.error [
  | none ↦ record { calls = p.calls ++ q.calls; error = q.error }
  | some e ↦ p
]

-- The loop over the steps; `interrupted k` is the context's end while step `k` is awaited.
unfoldable pub run_steps : Answers → (ℕ → Bool) → ℕ → ℕ → List SequenceStep → Performed
run_steps answers interrupted k n [] = record { calls = []; error = none }
run_steps answers interrupted k n (step ∷ rest) =
    let p = run_step answers n step in
    let q = run_steps answers interrupted (k + 1) (n + count_calls p.calls) rest in
    if interrupted k then record { calls = []; error = some cancelled } else and_then p q

-- runAction
unfoldable pub run_action : Answers → (ℕ → Bool) → String → Payload → Performed
run_action answers interrupted action p =
    if action == "sequence"
    then run_steps answers interrupted 0 0 p.steps
    else run_single answers 0 action p
