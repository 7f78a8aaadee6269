-- ===== src/Supervisor/SuppressLaws.antt =====
-- What of the console is hidden from the operator: suppressed, sendCommand and SendInternalCommand of
-- supervisor.go.
use bonghos.Base.{
  ℕ, ◌+◌, ◌≤◌, ◌<◌, ◌≡◌, refl, ap, ◌⊎◌, Bool, true, false, not, List, [], ◌∷◌, none, some, if-elim,
  arith,
}
use bonghos.Base.Text.{
  is_space, keep_right, trim_right, trim_left, trim_space, Text, text_eq, text_eq_refl,
}
use bonghos.Supervisor.Run.{State}
use bonghos.Supervisor.Suppress.{
  Suppression, matches_reply, clear, finish, expired, echoes, suppressed, clean_command,
  bookkeeping, accepts_commands, Sent, lease, is_visible, send_poll, take_over, send_command,
  send_operator, send_internal,
}

-- A line is hidden only in the window after a poll, as its pending echo or as its pending reply.
pub suppressed_sound :
    (now : ℕ) (line : Text) (s : Suppression)
    → (suppressed now line s).1 ≡ true
    → (expired now s.until ≡ false)
      × (((s.echo_pending ≡ true) × (echoes s.echo line ≡ true))
          ⊎ ((s.reply_pending ≡ true) × (matches_reply line ≡ true)))
unfolding suppressed
suppressed_sound now line s h = ground arith

abbrev weight : Bool → ℕ
weight true = 1
weight false = 0

-- How many lines may still be hidden.
abbrev pub pending : Suppression → ℕ
pending s = weight s.echo_pending + weight s.reply_pending

pending-finish : (s : Suppression) → pending (finish s) ≤ pending s
unfolding finish clear
pending-finish s = ground arith

pending-suppressed :
    (now : ℕ) (line : Text) (s : Suppression)
    → pending (suppressed now line s).0 + weight (suppressed now line s).1 ≤ pending s
unfolding suppressed clear
pending-suppressed now line s = ground (
  arith,
  pending-finish (record s { echo_pending = false }),
  pending-finish (record s { reply_pending = false }),
)

-- The lines that are hidden of those that arrive while nothing is sent.
pub hidden : List (ℕ × Text) → Suppression → ℕ
hidden [] s = 0
hidden ((now, line) ∷ rest) s =
    weight (suppressed now line s).1 + hidden rest (suppressed now line s).0

hidden-le-pending : (lines : List (ℕ × Text)) (s : Suppression) → hidden lines s ≤ pending s
unfolding hidden
hidden-le-pending [] s = omega arith
hidden-le-pending ((now, line) ∷ rest) s =
    omega (arith, pending-suppressed now line s, hidden-le-pending rest (suppressed now line s).0)

-- A call of SendInternalCommand hides at most two of the lines that come before the next command,
-- whatever they are.
pub poll_hides_two :
    (now : ℕ) (state : State) (attached write_ok : Bool) (raw : Text) (s : Suppression)
    (lines : List (ℕ × Text))
    → hidden lines (send_internal now state attached write_ok raw s).state ≤ 2
poll_hides_two now state attached write_ok raw s lines = omega (
  arith,
  hidden-le-pending lines (send_internal now state attached write_ok raw s).state,
  most (send_internal now state attached write_ok raw s).state,
)
  where
    most : (t : Suppression) → pending t ≤ 2
    most t = ground arith

-- The operator has just asked for the list of players.
pub record IsLeased (t : ℕ) (s : Suppression) : Type 0 where
  pub idle : s.until ≡ none
  pub command : s.visible_command ≡ bookkeeping
  pub leased : s.visible_until ≡ some (t + lease)

-- What happens at the console while the operator sends nothing.
pub data Happening : Type 0 where
  line_read : Text → Happening
  poll : Bool → Happening

happen : ℕ → State → Happening → Suppression → Suppression × Bool
happen now state (line_read line) s = suppressed now line s
happen now state (poll write_ok) s =
    ((send_internal now state true write_ok bookkeeping s).state, false)

-- The hidden lines among what happens.
pub concealed : State → List (ℕ × Happening) → Suppression → ℕ
unfolding happen
concealed state [] s = 0
concealed state ((now, h) ∷ rest) s =
    weight (happen now state h s).1 + concealed state rest (happen now state h s).0

abbrev pub Within : ℕ → List (ℕ × Happening) → Type 0
Within t [] = Unit
Within t ((now, h) ∷ rest) = (now < t + lease) × Within t rest

line-IsLeased :
    (t now : ℕ) (line : Text) (s : Suppression)
    → IsLeased t s
    → IsLeased t (suppressed now line s).0 × ((suppressed now line s).1 ≡ false)
unfolding suppressed clear
line-IsLeased t now line s h =
    rw h.idle (record { idle = refl; command = h.command; leased = h.leased }, refl)

clean-bookkeeping : clean_command bookkeeping ≡ bookkeeping
unfolding clean_command trim_space trim_left trim_right keep_right is_space
clean-bookkeeping = refl

visible-IsLeased :
    (t now : ℕ) (s : Suppression)
    → now < t + lease
    → IsLeased t s
    → is_visible now bookkeeping s ≡ true
unfolding text_eq
visible-IsLeased t now s b h = rw (h.command, h.leased, text_eq_refl bookkeeping) (ground arith)

send_poll-IsLeased :
    (t now : ℕ) (write_ok : Bool) (s : Suppression)
    → now < t + lease
    → IsLeased t s
    → (send_poll now write_ok bookkeeping s).state ≡ s
unfolding send_poll
send_poll-IsLeased t now write_ok s b h = rw (visible-IsLeased t now s b h)

poll-IsLeased :
    (t now : ℕ) (state : State) (write_ok : Bool) (s : Suppression)
    → now < t + lease
    → IsLeased t s
    → (send_internal now state true write_ok bookkeeping s).state ≡ s
unfolding send_internal send_command text_eq
poll-IsLeased t now state write_ok s b h =
    rw (clean-bookkeeping, visible-IsLeased t now s b h)
      (if-elim {A = Sent} (λ r. r.state ≡ s) (not (accepts_commands state)) _ _ (λ _. refl)
        (λ _. refl))

-- While the lease lasts, nothing is hidden: not a line, whatever polls come between.
leased-concealed :
    (t : ℕ) (state : State) (events : List (ℕ × Happening)) (s : Suppression)
    → Within t events
    → IsLeased t s
    → concealed state events s ≡ 0
unfolding concealed
leased-concealed t state [] s w h = refl
leased-concealed t state ((now, line_read line) ∷ rest) s w h =
    let step = line-IsLeased t now line s h in
    omega
      (arith, ap weight step.1, leased-concealed t state rest (suppressed now line s).0 w.1 step.0)
leased-concealed t state ((now, poll write_ok) ∷ rest) s w h =
    rw (poll-IsLeased t now state write_ok s w.0 h)
      (omega (arith, leased-concealed t state rest s w.1 h))

operator-IsLeased :
    (t : ℕ) (state : State) (s : Suppression)
    → accepts_commands state ≡ true
    → IsLeased t (send_operator t state true true bookkeeping s).state
unfolding send_operator send_command take_over clear text_eq
operator-IsLeased t state s h =
    rw (clean-bookkeeping, h) (record { idle = refl; command = refl; leased = refl })

-- After the operator's own `list` has gone to a server that takes commands, no line that comes within
-- the lease is hidden, whatever the console had pending and however often the server is polled for its
-- players within it.
pub operator_list_shown :
    (t : ℕ) (state : State) (s : Suppression) (events : List (ℕ × Happening))
    → accepts_commands state ≡ true
    → Within t events
    → concealed state events (send_operator t state true true bookkeeping s).state ≡ 0
operator_list_shown t state s events h w =
    leased-concealed t state events _ w (operator-IsLeased t state s h)
