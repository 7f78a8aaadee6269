-- ===== src/Supervisor/History.antt =====
-- The console fan-out of source/internal/supervisor/supervisor.go: broadcast, broadcastInternal,
-- Subscribe and SubscribeInternal. A channel is the list of the lines that wait in it.
use bonghos.Base.{
  All, if-elim, ℕ, suc, ◌+◌, ◌-◌, ◌*◌, ◌≤◌, ◌≡◌, refl, ◌⊎◌, Bool, false, ◌&&◌, ◌||◌, List, [], ◌∷◌,
  ◌++◌, map, if◌then◌else◌, ltb, eqb, length, drop, arith, length-append,
}
use bonghos.Base.Text.{Text, byte_length}

abbrev pub history_lines : ℕ
history_lines = 500

abbrev pub history_bytes : ℕ
history_bytes = 48 * 1024

-- A subscriber: the name of its channel and what waits in it.
pub record Channel : Type 0 where
  pub name : ℕ
  pub queue : List Text

pub record Fanout : Type 0 where
  pub history : List Text
  pub history_size : ℕ
  pub subs : List Channel
  pub internal_subs : List Channel
  pub next_name : ℕ

abbrev pub subscriber_capacity : ℕ
subscriber_capacity = 256

abbrev pub internal_capacity : ℕ
internal_capacity = 32

-- `select { case ch <- line: default: }` on a channel with room for `capacity` lines.
abbrev pub offer : ℕ → Text → Channel → Channel
offer capacity line c =
    if ltb (length c.queue) capacity then record c { queue = c.queue ++ line ∷ [] } else c

abbrev pub over : List Text → ℕ → Bool
over history size =
    ltb history_lines (length history) || (ltb history_bytes size && ltb 1 (length history))

-- The loop that drops lines from the front. `historySize` is a Go int, and never below the length
-- of the line that is dropped.
unfoldable pub shrink : List Text → ℕ → List Text × ℕ
shrink [] size = ([], size)
shrink (line ∷ history) size =
    let rest = shrink history (size - (byte_length line + 1)) in
    if over (line ∷ history) size then rest else (line ∷ history, size)

unfoldable pub broadcast : Text → Fanout → Fanout
broadcast line f =
    let kept = shrink (f.history ++ line ∷ []) (f.history_size + (byte_length line + 1)) in
    record f {
      history = kept.0;
      history_size = kept.1;
      subs = map (offer subscriber_capacity line) f.subs;
    }

unfoldable pub broadcast_internal : Text → Fanout → Fanout
broadcast_internal line f = record f {
  internal_subs = map (offer internal_capacity line) f.internal_subs;
}

abbrev pub without : ℕ → List Channel → List Channel
without name [] = []
without name (c ∷ cs) = if eqb c.name name then without name cs else c ∷ without name cs

-- Subscribe: the history so far, the new channel's name; and the cancel function.
unfoldable pub subscribe : Fanout → List Text × ℕ × Fanout
subscribe f = (
  f.history,
  f.next_name,
  record f {
    subs = record { name = f.next_name; queue = [] } ∷ f.subs;
    next_name = f.next_name + 1;
  },
)

unfoldable pub cancel : ℕ → Fanout → Fanout
cancel name f = record f { subs = without name f.subs }

unfoldable pub subscribe_internal : Fanout → ℕ × Fanout
subscribe_internal f = (
  f.next_name,
  record f {
    internal_subs = record { name = f.next_name; queue = [] } ∷ f.internal_subs;
    next_name = f.next_name + 1;
  },
)

unfoldable pub cancel_internal : ℕ → Fanout → Fanout
cancel_internal name f = record f { internal_subs = without name f.internal_subs }

-- The bytes that the history stands for, a line break after each line.
abbrev pub bytes : List Text → ℕ
bytes [] = 0
bytes (line ∷ rest) = byte_length line + 1 + bytes rest

bytes-append : (xs ys : List Text) → bytes (xs ++ ys) ≡ bytes xs + bytes ys
bytes-append [] ys = omega arith
bytes-append (x ∷ xs) ys = omega (arith, bytes-append xs ys)

-- What holds of the fan-out between two calls.
pub record IsTidy (f : Fanout) : Type 0 where
  pub counted : f.history_size ≡ bytes f.history
  pub lines : length f.history ≤ history_lines
  pub size : (f.history_size ≤ history_bytes) ⊎ (length f.history ≤ 1)

-- What the loop leaves: an exact count, within the bounds, and only lines from the end.
abbrev Shrunk : List Text → List Text × ℕ → Type 0
Shrunk history r = (r.1 ≡ bytes r.0) × (over r.0 r.1 ≡ false) × ((n : ℕ) × (r.0 ≡ drop n history))

shrink-Shrunk :
    (history : List Text) (size : ℕ) → size ≡ bytes history → Shrunk history (shrink history size)
unfolding shrink
shrink-Shrunk [] size e = (e, ground arith, (0, refl))
shrink-Shrunk (line ∷ history) size e =
    let ih = shrink-Shrunk history (size - (byte_length line + 1)) (omega arith) in
    if-elim (Shrunk (line ∷ history)) (over (line ∷ history) size) _ _
      (λ o. (ih.0, ih.1, (suc ih.2.0, ih.2.1))) (λ o. (e, o, (0, refl)))

-- broadcast keeps the count of the history exact and the history within 500 lines and 48 KiB, or
-- at one line; what it keeps is an end of the old history with the new line.
pub broadcast-IsTidy :
    (line : Text) (f : Fanout)
    → IsTidy f
    → IsTidy (broadcast line f)
      × ((n : ℕ) × ((broadcast line f).history ≡ drop n (f.history ++ line ∷ [])))
unfolding broadcast
broadcast-IsTidy line f t =
    let grown : f.history_size + (byte_length line + 1) ≡ bytes (f.history ++ line ∷ []) =
      omega (arith, t.counted, bytes-append f.history (line ∷ [])) in
    let (e, o, n) =
      shrink-Shrunk (f.history ++ line ∷ []) (f.history_size + (byte_length line + 1)) grown in
    (record { counted = e; lines = ground (arith, o); size = ground (arith, o) }, n)

-- No channel holds more lines than it has room for, however slow its reader is.
abbrev pub Fits : ℕ → List Channel → Type 0
Fits capacity cs = All (λ c. length c.queue ≤ capacity) cs

offer-Fits :
    (capacity : ℕ) (line : Text) (cs : List Channel)
    → Fits capacity cs
    → Fits capacity (map (offer capacity line) cs)
offer-Fits capacity line [] h = tt
offer-Fits capacity line (c ∷ cs) h =
    (ground (arith, h.0, length-append c.queue (line ∷ [])), offer-Fits capacity line cs h.1)

-- broadcast leaves every subscriber's channel within its capacity, and the internal ones alone.
pub broadcast-Fits :
    (line : Text) (f : Fanout)
    → Fits subscriber_capacity f.subs
    → Fits subscriber_capacity (broadcast line f).subs
      × ((broadcast line f).internal_subs ≡ f.internal_subs)
unfolding broadcast
broadcast-Fits line f h = (offer-Fits subscriber_capacity line f.subs h, refl)

-- Bookkeeping lines reach only the internal channels, within their capacity.
pub broadcast_internal-Fits :
    (line : Text) (f : Fanout)
    → Fits internal_capacity f.internal_subs
    → Fits internal_capacity (broadcast_internal line f).internal_subs
      × ((broadcast_internal line f).history ≡ f.history)
      × ((broadcast_internal line f).subs ≡ f.subs)
unfolding broadcast_internal
broadcast_internal-Fits line f h = (offer-Fits internal_capacity line f.internal_subs h, refl, refl)
