-- ===== src/Hub/Cadence.antt =====
-- How often BroadcastDue of hub.go sends a topic to a client.
use bonghos.Base.{
  inl, inr, ℕ, ◌+◌, ◌≤◌, ◌<◌, ◌≡◌, refl, sym, ap, subst, ◌∙◌, String, true, false, ◌&&◌, List, [],
  ◌∷◌, some, ◌==◌, eq_iff, eq_refl, if◌then◌else◌, if-elim, Bool-cases, ltb, length, arith,
}
use bonghos.Hub.Clients.{Event, Client, set_at, send_capacity, cadence, is_due, broadcast_due_to}

-- How many of the broadcasts are due for a client on a topic.
unfoldable pub dues : ℕ → String → List (ℕ × Event) → Client → ℕ
dues fallback topic [] c = 0
dues fallback topic ((now, e) ∷ rest) c =
    (if e.topic == topic && is_due now fallback topic c then 1 else 0)
    + dues fallback topic rest (broadcast_due_to now fallback e c)

-- All times lie in the interval that begins with `start`.
abbrev pub Within : ℕ → ℕ → List (ℕ × Event) → Type 0
Within start d [] = Unit
Within start d ((now, e) ∷ rest) = (start ≤ now) × ((now < start + d) × Within start d rest)

-- The topic was sent within the interval.
record IsQuiet (fallback d start : ℕ) (topic : String) (c : Client) : Type 0 where
  since : ℕ
  last : c.last_topic_sent topic ≡ some since
  late : start ≤ since
  every : cadence fallback (c.topic_intervals topic) ≡ d

quiet-is_due :
    (fallback d start now : ℕ) (topic : String) (c : Client)
    → IsQuiet fallback d start topic c
    → now < start + d
    → is_due now fallback topic c ≡ false
unfolding is_due
quiet-is_due fallback d start now topic c q b = rw (q.last, q.every) (ground (arith, q.late))

module _ (fallback d start : ℕ) (topic : String) (now : ℕ) (e : Event) (c : Client) where
  -- A send that is due marks the topic, whether or not the channel has room.
  marks :
      is_due now fallback e.topic c ≡ true
      → ((broadcast_due_to now fallback e c).last_topic_sent
          ≡ set_at c.last_topic_sent e.topic (some now))
        × ((broadcast_due_to now fallback e c).topic_intervals ≡ c.topic_intervals)
  unfolding broadcast_due_to
  marks h = rw h (
      if-elim
        (λ (x : Client).
          (x.last_topic_sent ≡ set_at c.last_topic_sent e.topic (some now))
          × (x.topic_intervals ≡ c.topic_intervals))
        (ltb (length c.send) send_capacity) _ _ (λ _. (refl, refl)) (λ _. (refl, refl)))

  not_due : is_due now fallback e.topic c ≡ false → broadcast_due_to now fallback e c ≡ c
  unfolding broadcast_due_to
  not_due h = rw h refl

  same-every :
      cadence fallback (c.topic_intervals topic) ≡ d
      → cadence fallback ((broadcast_due_to now fallback e c).topic_intervals topic) ≡ d
  same-every h = elim (Bool-cases (is_due now fallback e.topic c)) [
    | inl due ↦ ap (λ f. cadence fallback (f topic)) ((marks due).1) ∙ h
    | inr idle ↦ ap (λ x. cadence fallback (x.topic_intervals topic)) (not_due idle) ∙ h
  ]

  due-IsQuiet :
      is_due now fallback e.topic c ≡ true
      → (topic == e.topic) ≡ true
      → start ≤ now
      → cadence fallback (c.topic_intervals topic) ≡ d
      → IsQuiet fallback d start topic (broadcast_due_to now fallback e c)
  due-IsQuiet due same b h = record {
    since = now;
    last = ap (λ f. f topic) ((marks due).0) ∙ (rw same refl);
    late = b;
    every = same-every h;
  }

  other-IsQuiet :
      is_due now fallback e.topic c ≡ true
      → (topic == e.topic) ≡ false
      → IsQuiet fallback d start topic c
      → IsQuiet fallback d start topic (broadcast_due_to now fallback e c)
  other-IsQuiet due other q = record {
    since = q.since;
    last = ap (λ f. f topic) ((marks due).0) ∙ ((rw other refl) ∙ q.last);
    late = q.late;
    every = same-every q.every;
  }

  IsQuiet-kept :
      IsQuiet fallback d start topic c
      → start ≤ now
      → IsQuiet fallback d start topic (broadcast_due_to now fallback e c)
  IsQuiet-kept q b = elim (Bool-cases (is_due now fallback e.topic c)) [
    | inr idle ↦ subst (IsQuiet fallback d start topic) (sym (not_due idle)) q
    | inl due ↦ elim (Bool-cases (topic == e.topic)) [
      | inl same ↦ due-IsQuiet due same b q.every
      | inr other ↦ other-IsQuiet due other q
    ]
  ]

dues-quiet :
    (fallback d start : ℕ) (topic : String) (events : List (ℕ × Event)) (c : Client)
    → IsQuiet fallback d start topic c
    → Within start d events
    → dues fallback topic events c ≡ 0
unfolding dues
dues-quiet fallback d start topic [] c q w = refl
dues-quiet fallback d start topic ((now, e) ∷ rest) c q w =
    let ih =
      dues-quiet fallback d start topic rest (broadcast_due_to now fallback e c)
        (IsQuiet-kept fallback d start topic now e c q w.0) w.1.1 in
    ground (arith, quiet-is_due fallback d start now topic c q w.1.0, ih)

-- Within one interval of a client's cadence on a topic (its own, or the server's if it named none), at
-- most one of the timed broadcasts is due for it on that topic, however many come, of whatever topics.
pub dues_spaced :
    (fallback d start : ℕ) (topic : String) (events : List (ℕ × Event)) (c : Client)
    → cadence fallback (c.topic_intervals topic) ≡ d
    → Within start d events
    → dues fallback topic events c ≤ 1
unfolding dues
dues_spaced fallback d start topic [] c h w = omega arith
dues_spaced fallback d start topic ((now, e) ∷ rest) c h w =
    elim (Bool-cases (e.topic == topic && is_due now fallback topic c)) [
      | inr idle ↦ rw idle (
          omega (
            arith,
            dues_spaced fallback d start topic rest (broadcast_due_to now fallback e c)
                (same-every fallback d start topic now e c h) w.1.1,
          ))
      | inl sent ↦
          let same : e.topic ≡ topic = ground (arith, eq_iff e.topic topic) in
          let due : is_due now fallback topic c ≡ true = ground arith in
          let q : IsQuiet fallback d start topic (broadcast_due_to now fallback e c) =
            due-IsQuiet fallback d start topic now e c
              (subst (λ t. is_due now fallback t c ≡ true) (sym same) due)
              (subst (λ t. (topic == t) ≡ true) (sym same) (eq_refl topic)) w.0 h in
          rw sent (
            omega (
              arith,
              dues-quiet fallback d start topic rest (broadcast_due_to now fallback e c) q w.1.1,
            ))
    ]
