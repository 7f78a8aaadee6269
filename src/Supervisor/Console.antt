-- ===== src/Supervisor/Console.antt =====
-- What happens to a line that the process writes: readConsole of
-- source/internal/supervisor/supervisor.go. The line is a list of bytes.
use bonghos.Base.{
  ℕ, zero, suc, ◌-◌, Bool, true, ◌&&◌, not, List, [], ◌∷◌, ◌++◌, Option, none, some, if◌then◌else◌,
}
use bonghos.Base.Text.{Text, codes, text_eq, is_space}
use bonghos.Supervisor.Run.{Supervisor, detect_running}
use bonghos.Supervisor.History.{Fanout, broadcast, broadcast_internal}
use bonghos.Supervisor.Suppress.{Suppression, suppressed, is_prefix, somewhere}
use bonghos.Supervisor.ConsoleText.{decode_rune, sanitize_line}

-- `log` is `none` if the file could not be opened; `parsed` is what `onLine` was called with.
pub record Console : Type 0 where
  pub sup : Supervisor
  pub suppression : Suppression
  pub fanout : Fanout
  pub log : Option (List Text)
  pub parsed : List Text

-- `strings.TrimSpace(raw) == ""`: every code point is a space; `skip` bytes belong to the last one.
unfoldable pub is_blank : ℕ → Text → Bool
is_blank skip [] = true
is_blank (suc skip) (c ∷ rest) = is_blank skip rest
is_blank zero (c ∷ rest) =
    is_space (decode_rune (c ∷ rest)).0 && is_blank ((decode_rune (c ∷ rest)).1 - 1) rest

-- The line that says that the server has started.
unfoldable pub is_done_line : Text → Bool
is_done_line line =
    somewhere (is_prefix (codes "Done (")) line && somewhere (is_prefix (codes ")!")) line

abbrev pub append_log : Option (List Text) → List Text → Option (List Text)
append_log none lines = none
append_log (some log) lines = some (log ++ lines)

-- The body of the loop once the line is sanitised; `hidden` is the answer of `suppressed`.
unfoldable pub deliver : Text → Suppression → Bool → Console → Console
deliver line s hidden c = record c {
  sup = if is_done_line line then detect_running c.sup else c.sup;
  suppression = s;
  fanout = if hidden then broadcast_internal line c.fanout else broadcast line c.fanout;
  log = if hidden then c.log else append_log c.log (line ∷ []);
  parsed = c.parsed ++ line ∷ [];
}

-- One round of the loop. A line of nothing but control sequences is passed over.
unfoldable pub read_line : ℕ → Text → Console → Console
unfolding deliver
read_line now raw c =
    let line = sanitize_line raw in
    let verdict = suppressed now line c.suppression in
    if text_eq line [] && not (is_blank 0 raw) then c else deliver line verdict.0 verdict.1 c

unfoldable pub read_console : List (ℕ × Text) → Console → Console
read_console [] c = c
read_console ((now, raw) ∷ rest) c = read_console rest (read_line now raw c)
