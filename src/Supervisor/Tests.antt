-- ===== src/Supervisor/Tests.antt =====
-- Tests of the models of source/internal/supervisor, and the theorems at concrete inputs.
use bonghos.Base.{
  ◌-◌, ℕ, ◌-◌, ◌≡◌, refl, ◌⊎◌, pos, negsuc, true, false, List, [], ◌∷◌, ◌++◌, none, some, arith,
}
use bonghos.Base.Text.{Text, codes}
use bonghos.Supervisor.Run.{
  Config, Supervisor, System, running, crashed, waiting, delaying, crash, exited, delay_over,
  stop_request, step, run, new_config,
}
use bonghos.Supervisor.RunLaws.{IsStopping, IsStopped, stop_is_final}
use bonghos.Supervisor.History.{Fanout}
use bonghos.Supervisor.Suppress.{Suppression, send_operator, bookkeeping}
use bonghos.Supervisor.SuppressLaws.{operator_list_shown, concealed, Happening, line_read, poll}
use bonghos.Supervisor.Console.{Console}
use bonghos.Supervisor.ConsoleText.{sanitize_line, action, decode_rune, escape_length, escape}

abbrev cfg : Config
cfg = record {
  restart_policy = "on-failure";
  restart_delay_seconds = 10;
  graceful_stop_seconds = 120;
  max_crash_loop = 5;
}

abbrev busy : Supervisor
busy = record {
  state = running;
  attached = true;
  script_pid = 4100;
  pgid = 4100;
  started_at = some 1000;
  last_exit_code = pos 1;
  last_signal = "";
  last_class = some crash;
  restart_count = 1;
  stop_intent = false;
  restart_intent = false;
  crash_times = 900 ∷ [];
}

abbrev up : System
up = record { sup = busy; phase = waiting; cancelled = false }

abbrev resting : System
resting = record {
  sup = record busy { state = crashed; attached = false };
  phase = delaying 10;
  cancelled = false;
}

new_config_test : new_config "never" (pos 0) (negsuc 4) (pos 7) ≡ record {
  restart_policy = "never";
  restart_delay_seconds = 10;
  graceful_stop_seconds = 120;
  max_crash_loop = 7;
}
unfolding new_config
new_config_test = refl

stop_is_final_example :
    let z =
      run cfg
        (step cfg 1100 up stop_request)
        ((1110, exited (pos 1) "") ∷ (1120, delay_over) ∷ []) in
    IsStopping z ⊎ IsStopped z
stop_is_final_example =
    stop_is_final cfg 1100 up ((1110, exited (pos 1) "") ∷ (1120, delay_over) ∷ []) refl (λ e. cc)
      (λ e. cc) refl

abbrev fan : Fanout
fan = record {
  history = codes "Done (1.2s)!" ∷ [];
  history_size = 13;
  subs = record { name = 0; queue = codes "Done (1.2s)!" ∷ [] } ∷ [];
  internal_subs = record { name = 1; queue = [] } ∷ [];
  next_name = 2;
}

abbrev quiet : Suppression
quiet = record {
  until = none;
  pattern = false;
  echo = [];
  echo_pending = false;
  reply_pending = false;
  visible_command = [];
  visible_until = none;
}

abbrev polled : Suppression
polled = record quiet {
  until = some 105;
  pattern = true;
  echo = codes "list";
  echo_pending = true;
  reply_pending = true;
}

abbrev lines_after_poll : List (ℕ × Text)
lines_after_poll =
    (101, codes "list") ∷ (101, codes "There are 2 of a max of 20 players online: a, b") ∷ []

abbrev busy_console : List (ℕ × Happening)
busy_console =
    (101, poll true)
    ∷ (102, line_read (codes "There are 2 of a max of 20 players online: a, b"))
    ∷ []

operator_list_shown_example :
    concealed running busy_console (send_operator 100 running true true bookkeeping polled).state
    ≡ 0
operator_list_shown_example =
    operator_list_shown 100 running polled busy_console refl (omega arith, (omega arith, tt))

abbrev green : Text
green = codes "32"

sanitize_line_test :
    sanitize_line (
      codes "old"
      ++ 13 ∷ (escape ∷ codes "[32mDone" ++ (escape ∷ codes "[0m ") ++ 0xc2 ∷ 0xa7 ∷ 7 ∷ 0xff ∷ []))
    ≡ codes "Done §"
unfolding sanitize_line action decode_rune escape_length
sanitize_line_test = refl

abbrev console : Console
console = record {
  sup = busy;
  suppression = polled;
  fanout = fan;
  log = some (codes "Done (1.2s)!" ∷ []);
  parsed = [];
}

abbrev arriving : List (ℕ × Text)
arriving =
    (101, codes "list")
    ∷ (101, codes "There are 0 of a max of 20 players online")
    ∷ (102, codes "<ana> hi")
    ∷ []
