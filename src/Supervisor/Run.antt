-- ===== src/Supervisor/Run.antt =====
-- The life cycle of source/internal/supervisor/supervisor.go: New, Run, startOnce, wait, Stop,
-- Restart, ForceStop and the running detection of readConsole. Times and delays are seconds. Each
-- event is what happens in one hold of the mutex; the signals that Stop and ForceStop send to the
-- process come back as its exit.
use bonghos.Base.{
  ℕ, zero, suc, ◌+◌, ◌*◌, ℤ, pos, negsuc, String, Bool, true, false, ◌&&◌, ◌||◌, List, [], ◌∷◌,
  ◌++◌, Option, none, some, ◌==◌, if◌then◌else◌, ltb, leb, count_if,
}

pub data State : Type 0 where
  stopped starting running stopping restarting crashed : State

pub data Class : Type 0 where
  clean_stop requested_restart crash : Class

pub record Config : Type 0 where
  pub restart_policy : String
  pub restart_delay_seconds : ℕ
  pub graceful_stop_seconds : ℕ
  pub max_crash_loop : ℕ

abbrev positive_or : ℕ → ℤ → ℕ
positive_or default (pos zero) = default
positive_or default (pos (suc n)) = suc n
positive_or default (negsuc n) = default

-- New: the fields of a Config that are not positive take defaults.
unfoldable pub new_config : String → ℤ → ℤ → ℤ → Config
new_config policy delay graceful crash_loop = record {
  restart_policy = policy;
  restart_delay_seconds = positive_or 10 delay;
  graceful_stop_seconds = positive_or 120 graceful;
  max_crash_loop = positive_or 5 crash_loop;
}

pub record Supervisor : Type 0 where
  pub state : State
  pub attached : Bool
  pub script_pid : ℕ
  pub pgid : ℕ
  pub started_at : Option ℕ
  pub last_exit_code : ℤ
  pub last_signal : String
  pub last_class : Option Class
  pub restart_count : ℕ
  pub stop_intent : Bool
  pub restart_intent : Bool
  pub crash_times : List ℕ

unfoldable pub new : Supervisor
new = record {
  state = stopped;
  attached = false;
  script_pid = 0;
  pgid = 0;
  started_at = none;
  last_exit_code = pos 0;
  last_signal = "";
  last_class = none;
  restart_count = 0;
  stop_intent = false;
  restart_intent = false;
  crash_times = [];
}

-- A process that the pseudo-terminal started.
pub record Launch : Type 0 where
  pub pid : ℕ
  pub group : ℕ

abbrev pub is_live : State → Bool
is_live running = true
is_live starting = true
is_live _ = false

start_locked : ℕ → Option Launch → Supervisor → Supervisor × Bool
start_locked now none s = (record s { state = starting; started_at = some now }, false)
start_locked now (some l) s = (
  record s {
    state = starting;
    started_at = some now;
    attached = true;
    script_pid = l.pid;
    pgid = l.group;
  },
  true,
)

-- startOnce: `none` is a missing script or a pseudo-terminal that does not start.
unfoldable pub start_once : ℕ → Option Launch → Supervisor → Supervisor × Bool
unfolding start_locked
start_once now launch s = if is_live s.state then (s, false) else start_locked now launch s

-- What Run records of a start that failed.
unfoldable pub start_failed : Supervisor → Supervisor
start_failed s = record s { state = crashed; last_class = some crash }

abbrev pub is_zero : ℤ → Bool
is_zero (pos zero) = true
is_zero (pos (suc n)) = false
is_zero (negsuc n) = false

-- The block behind `wait`: the exit is classified, and both intents are taken back.
unfoldable pub classify : ℕ → Bool → ℤ → String → Supervisor → Supervisor
classify now cancelled code signal s =
    let t = record s {
      last_exit_code = code;
      last_signal = signal;
      stop_intent = false;
      restart_intent = false;
      attached = false;
    } in
    if s.restart_intent
    then record t { last_class = some requested_restart; state = restarting }
    else if s.stop_intent || cancelled
    then record t { last_class = some clean_stop; state = stopped }
    else if is_zero code
    then record t { last_class = some clean_stop; state = stopped }
    else record t {
      last_class = some crash;
      state = crashed;
      crash_times = s.crash_times ++ now ∷ [];
    }

abbrev pub crash_window : ℕ
crash_window = 600

-- `len(recentCrashes(10 * time.Minute))`
unfoldable pub recent_crashes : ℕ → Supervisor → ℕ
recent_crashes now s = count_if (λ t. ltb now (t + crash_window)) s.crash_times

unfoldable pub crash_looping : Config → ℕ → Supervisor → Bool
crash_looping cfg now s = leb cfg.max_crash_loop (recent_crashes now s)

-- `for i := 1; i < recent && i < 5; i++ { delay *= 2 }` with `rounds` rounds left to i = 5.
double_while : ℕ → ℕ → ℕ → ℕ → ℕ
double_while zero i recent delay = delay
double_while (suc rounds) i recent delay =
    let next = double_while rounds (i + 1) recent (delay * 2) in
    if ltb i recent then next else delay

unfoldable pub backoff : ℕ → ℕ → ℕ
unfolding double_while
backoff recent delay = double_while 4 1 recent delay

pub data Finish : Type 0 where
  done crash_loop : Finish

pub data Phase : Type 0 where
  launching waiting : Phase
  delaying : ℕ → Phase
  returned : Finish → Phase

pub record System : Type 0 where
  pub sup : Supervisor
  pub phase : Phase
  pub cancelled : Bool

unfoldable pub schedule_restart : Config → ℕ → System → System
schedule_restart cfg now y = record y {
  sup = record (y.sup) { restart_count = y.sup.restart_count + 1 };
  phase = delaying (backoff (recent_crashes now y.sup) cfg.restart_delay_seconds);
}

abbrev pub finish : Finish → System → System
finish f y = record y { phase = returned f }

decide_crashed : Config → ℕ → System → System
decide_crashed cfg now y =
    if cfg.restart_policy == "never"
    then finish done y
    else if (cfg.restart_policy == "on-failure" || cfg.restart_policy == "always")
        && crash_looping cfg now y.sup
    then finish crash_loop y
    else schedule_restart cfg now y

decide_state : Config → ℕ → System → State → System
unfolding decide_crashed
decide_state cfg now y stopped = finish done y
decide_state cfg now y crashed = decide_crashed cfg now y
decide_state cfg now y _ = schedule_restart cfg now y

-- The second switch of Run and what follows it, down to the timer.
unfoldable pub decide : Config → ℕ → System → System
unfolding decide_state
decide cfg now y = if y.cancelled then finish done y else decide_state cfg now y y.sup.state

-- The process is gone.
unfoldable pub settle : Config → ℕ → ℤ → String → System → System
settle cfg now code signal y =
    decide cfg now (record y { sup = classify now y.cancelled code signal y.sup })

-- Stop, up to the signals.
unfoldable pub stop : Supervisor → Supervisor
stop s = elim s.state [
  | stopped ↦ s
  | crashed ↦ s
  | _ ↦ record s { stop_intent = true; state = stopping }
]

-- Restart: the error of a server that is not running changes nothing.
unfoldable pub restart : Supervisor → Supervisor × Bool
restart s =
    if is_live s.state then (stop (record s { restart_intent = true }), true) else (s, false)

unfoldable pub force_stop : Supervisor → Supervisor
force_stop s = record s { stop_intent = true }

-- readConsole on the line "Done (…)!".
unfoldable pub detect_running : Supervisor → Supervisor
detect_running s = elim s.state [ starting ↦ record s { state = running } | _ ↦ s ]

pub data Event : Type 0 where
  launched : Option Launch → Event
  exited : ℤ → String → Event
  delay_over cancel stop_request restart_request force_request done_line : Event

abbrev pub on_sup : (Supervisor → Supervisor) → System → System
on_sup f y = record y { sup = f y.sup }

-- After startOnce: a start that failed has no process to wait for, and `wait` answers -1 at once.
after_start : Config → ℕ → System → Supervisor × Bool → System
after_start cfg now y (s, true) = record y { sup = s; phase = waiting }
after_start cfg now y (s, false) = settle cfg now (negsuc 0) "" (record y { sup = start_failed s })

-- One turn of the loop in Run, and the calls of the other goroutines, which may come in any phase.
unfoldable pub on_phase : Config → ℕ → System → Phase → Event → System
unfolding after_start
on_phase cfg now y launching (launched l) =
    if y.cancelled then finish done y else after_start cfg now y (start_once now l y.sup)
on_phase cfg now y waiting (exited code signal) = settle cfg now code signal y
on_phase cfg now y (delaying d) delay_over =
    if y.cancelled then finish done y else record y { phase = launching }
on_phase cfg now y (delaying d) cancel = finish done (record y { cancelled = true })
on_phase cfg now y phase cancel = record y { cancelled = true }
on_phase cfg now y phase stop_request = on_sup stop y
on_phase cfg now y phase restart_request = on_sup (λ s. (restart s).0) y
on_phase cfg now y phase force_request = on_sup force_stop y
on_phase cfg now y phase done_line = on_sup detect_running y
on_phase cfg now y phase _ = y

unfoldable pub step : Config → ℕ → System → Event → System
unfolding on_phase
step cfg now y e = on_phase cfg now y y.phase e

unfoldable pub run : Config → System → List (ℕ × Event) → System
run cfg y [] = y
run cfg y ((now, e) ∷ es) = run cfg (step cfg now y e) es
