-- ===== src/Supervisor/Suppress.antt =====
-- How Bonghos keeps its own polling out of the console: suppressed, sendCommand,
-- SendInternalCommand, SendCommand and cleanConsoleCommand of
-- source/internal/supervisor/supervisor.go. Times are seconds; the two clocks of a call are one.
use bonghos.Base.{
  ℕ, ◌+◌, Bool, true, false, ◌&&◌, ◌||◌, not, [], ◌∷◌, ◌++◌, Option, none, some, if◌then◌else◌, ltb,
  leb, eqb, filter,
}
use bonghos.Base.Text.{Text, codes, text_eq, trim_space}
use bonghos.Supervisor.Run.{State, starting, running, stopping}

-- `suppressUntil` and `visibleUntil` are `none` for the zero time. The one regular expression of
-- `internalReplies` is set exactly while a poll is pending.
pub record Suppression : Type 0 where
  pub until : Option ℕ
  pub pattern : Bool
  pub echo : Text
  pub echo_pending : Bool
  pub reply_pending : Bool
  pub visible_command : Text
  pub visible_until : Option ℕ

abbrev pub is_prefix : Text → Text → Bool
is_prefix [] t = true
is_prefix (p ∷ ps) [] = false
is_prefix (p ∷ ps) (r ∷ rs) = eqb p r && is_prefix ps rs

-- strings.HasSuffix
abbrev pub has_suffix : Text → Text → Bool
has_suffix [] s = text_eq [] s
has_suffix (r ∷ rs) s = text_eq (r ∷ rs) s || has_suffix rs s

-- A match somewhere in the text.
abbrev pub somewhere : (Text → Bool) → Text → Bool
somewhere p [] = p []
somewhere p (r ∷ rs) = p (r ∷ rs) || somewhere p rs

abbrev is_digit : ℕ → Bool
is_digit r = leb b'0' r && leb r b'9'

-- `\d* of a max`, behind at least one digit.
unfoldable pub digits_of_a_max : Text → Bool
digits_of_a_max [] = false
digits_of_a_max (r ∷ rs) =
    (is_digit r && digits_of_a_max rs) || is_prefix (codes " of a max") (r ∷ rs)

-- `\d+ of a max`
unfoldable pub count_of_a_max : Text → Bool
count_of_a_max [] = false
count_of_a_max (r ∷ rs) = is_digit r && digits_of_a_max rs

unfoldable pub strip : Text → Text → Option Text
strip [] t = some t
strip (p ∷ ps) [] = none
strip (p ∷ ps) (r ∷ rs) = if eqb p r then strip ps rs else none

abbrev counted : Option Text → Bool
counted none = false
counted (some rest) = count_of_a_max rest

-- The regular expression `players online|There are \d+ of a max`.
unfoldable pub matches_reply : Text → Bool
unfolding count_of_a_max digits_of_a_max strip
matches_reply line =
    somewhere (is_prefix (codes "players online")) line
    || somewhere (λ t. counted (strip (codes "There are ") t)) line

-- clearSuppressionLocked
unfoldable pub clear : Suppression → Suppression
clear s = record s {
  until = none;
  pattern = false;
  echo = [];
  echo_pending = false;
  reply_pending = false;
}

-- finishSuppressionLocked
unfoldable pub finish : Suppression → Suppression
unfolding clear
finish s = if not s.echo_pending && not s.reply_pending then clear s else s

abbrev pub expired : ℕ → Option ℕ → Bool
expired now none = true
expired now (some t) = ltb t now

abbrev pub echoes : Text → Text → Bool
echoes echo line =
    not (text_eq echo [])
    && (text_eq (trim_space line) echo || has_suffix (trim_space line) (codes "> " ++ echo))

-- suppressed: the new state, and whether the line is hidden.
unfoldable pub suppressed : ℕ → Text → Suppression → Suppression × Bool
unfolding finish
suppressed now line s =
    if expired now s.until
    then (clear s, false)
    else if s.echo_pending && echoes s.echo line
    then (finish (record s { echo_pending = false }), true)
    else if s.reply_pending && (s.pattern && matches_reply line)
    then (finish (record s { reply_pending = false }), true)
    else (s, false)

-- cleanConsoleCommand
unfoldable pub clean_command : Text → Text
clean_command cmd = trim_space (filter (λ r. not (eqb r 10 || eqb r 13)) cmd)

abbrev pub bookkeeping : Text
bookkeeping = codes "list"

abbrev pub accepts_commands : State → Bool
accepts_commands running = true
accepts_commands starting = true
accepts_commands stopping = true
accepts_commands _ = false

pub data SendError : Type 0 where
  empty_command not_running not_attached write_failed : SendError

-- What a call did: the state, the text that went to the console, and the error.
pub record Sent : Type 0 where
  pub state : Suppression
  pub written : Option Text
  pub error : Option SendError

abbrev not_sent : Suppression → SendError → Sent
not_sent s e = record { state = s; written = none; error = some e }

abbrev pub lease : ℕ
lease = 5

-- `now.Before(t)`; nothing is before the zero time.
abbrev pub before : ℕ → Option ℕ → Bool
before now none = false
before now (some t) = ltb now t

abbrev pub is_visible : ℕ → Text → Suppression → Bool
is_visible now cmd s = text_eq s.visible_command cmd && before now s.visible_until

poll_written : Bool → Text → Suppression → Sent
unfolding clear
poll_written true cmd s = record { state = s; written = some (cmd ++ 10 ∷ []); error = none }
poll_written false cmd s = not_sent (clear s) write_failed

-- The branch of sendCommand for a bookkeeping command; `write_ok` is what the terminal answers.
unfoldable pub send_poll : ℕ → Bool → Text → Suppression → Sent
unfolding poll_written
send_poll now write_ok cmd s =
    if is_visible now cmd s
    then record { state = s; written = none; error = none }
    else poll_written write_ok cmd (record s {
      until = some (now + lease);
      pattern = true;
      echo = cmd;
      echo_pending = true;
      reply_pending = true;
    })

-- The operator's own `list` takes the place of a pending poll.
unfoldable pub take_over : ℕ → Text → Suppression → Suppression
unfolding clear
take_over now cmd s =
    if text_eq cmd bookkeeping
    then record (clear s) { visible_command = cmd; visible_until = some (now + lease) }
    else s

ordinary_written : Bool → Text → Suppression → Sent
ordinary_written true cmd s = record { state = s; written = some (cmd ++ 10 ∷ []); error = none }
ordinary_written false cmd s =
    not_sent
      (if text_eq s.visible_command cmd
        then record s { visible_command = []; visible_until = none }
        else s)
      write_failed

-- sendCommand; `internal` is a non-nil reply pattern.
unfoldable pub send_command : ℕ → State → Bool → Bool → Text → Bool → Suppression → Sent
unfolding send_poll take_over ordinary_written
send_command now state attached write_ok cmd internal s =
    if text_eq cmd []
    then not_sent s empty_command
    else if not (accepts_commands state)
    then not_sent s not_running
    else if not attached
    then not_sent s not_attached
    else if internal
    then send_poll now write_ok cmd s
    else ordinary_written write_ok cmd (take_over now cmd s)

-- SendCommand
unfoldable pub send_operator : ℕ → State → Bool → Bool → Text → Suppression → Sent
send_operator now state attached write_ok raw s =
    send_command now state attached write_ok (clean_command raw) false s

-- SendInternalCommand: only the commands of `internalReplies` can be hidden.
unfoldable pub send_internal : ℕ → State → Bool → Bool → Text → Suppression → Sent
send_internal now state attached write_ok raw s =
    let cmd = clean_command raw in
    if text_eq cmd bookkeeping
    then send_command now state attached write_ok cmd true s
    else send_operator now state attached write_ok cmd s
