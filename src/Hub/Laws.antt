-- ===== src/Hub/Laws.antt =====
-- What a client of hub.go can get, and how often.
use bonghos.Base.{
  Bool-cases, length-append, ℕ, ◌≤◌, ◌<◌, ◌≡◌, refl, subst, ◌∙◌, ◌⊎◌, inl, inr, ℤ, pos, negsuc,
  String, Bool, true, ◌&&◌, List, [], ◌∷◌, ◌++◌, Option, some, ◌==◌, eq_iff, if◌then◌else◌, if-elim,
  ltb, length, arith,
}
use bonghos.Hub.Clients.{
  Event, Client, Message, may_use, set_at, has_cadence, clamp, requested_interval, new_client,
  subscribe, unsubscribe, verb_of, receive, send_capacity, enqueue, broadcast_to, is_due,
  broadcast_due_to,
}

-- What a client holds: topics that its role may use, intervals of at most a minute, and no more messages
-- than its channel takes.
pub record IsAllowed (c : Client) : Type 0 where
  pub permitted : (t : String) → c.topics t ≡ true → may_use c.can_use t ≡ true
  pub bounded : (t : String) → c.topic_intervals t ≤ 60
  pub fits : length c.send ≤ send_capacity

clamp-le : (s : ℤ) → clamp s ≤ 60
clamp-le (pos n) = ground arith
clamp-le (negsuc n) = omega arith

requested-le : (topic : String) (s : ℤ) → requested_interval topic s ≤ 60
unfolding requested_interval
requested-le topic s =
    if-elim (λ n. n ≤ 60) (has_cadence topic) _ _ (λ _. clamp-le s) (λ _. omega arith)

set-le :
    (f : String → ℕ) (k : String) (v : ℕ)
    → ((t : String) → f t ≤ 60)
    → v ≤ 60
    → (t : String) → set_at f k v t ≤ 60
set-le f k v h b t = if-elim (λ n. n ≤ 60) (t == k) _ _ (λ _. b) (λ _. h t)

subscribe-IsAllowed :
    (topic : String) (s : ℤ) (c : Client) → IsAllowed c → IsAllowed (subscribe topic s c)
unfolding subscribe
subscribe-IsAllowed topic s c h =
    if-elim IsAllowed (may_use c.can_use topic) _ _
      (λ m. record {
        permitted = λ t e. permitted m t e;
        bounded =
            set-le c.topic_intervals topic (requested_interval topic s) h.bounded
              (requested-le topic s);
        fits = h.fits;
      })
      (λ _. h)
  where
    permitted :
        may_use c.can_use topic ≡ true
        → (t : String) → set_at c.topics topic true t ≡ true
        → may_use c.can_use t ≡ true
    permitted m t e = elim (Bool-cases (t == topic)) [
      | inl same ↦ rw ((eq_iff t topic).0 same) m
      | inr other ↦ h.permitted t (ground (arith, e, other))
    ]

unsubscribe-IsAllowed :
    (topic : String) (c : Client) → IsAllowed c → IsAllowed (unsubscribe topic c)
unfolding unsubscribe
unsubscribe-IsAllowed topic c h = record {
  permitted = λ t e. h.permitted t (ground (arith, e));
  bounded = set-le c.topic_intervals topic 0 h.bounded (omega arith);
  fits = h.fits;
}

-- What happens to a client.
pub data Happening : Type 0 where
  message : Bool → Message → Happening
  event : Event → Happening
  timed : ℕ → ℕ → Event → Happening

unfoldable pub happen : Happening → Client → Client × List String
happen (message handler m) c = receive handler m c
happen (event e) c = (broadcast_to e c, [])
happen (timed now fallback e) c = (broadcast_due_to now fallback e c, [])

-- The client after all of it, and the commands that went to the console.
unfoldable pub serve : List Happening → Client → Client × List String
serve [] c = (c, [])
serve (h ∷ hs) c = ((serve hs (happen h c).0).0, (happen h c).1 ++ (serve hs (happen h c).0).1)

enqueue-length :
    (e : Event) (c : Client)
    → length c.send ≤ send_capacity
    → length (enqueue e c).send ≤ send_capacity
enqueue-length e c h = ground (arith, length-append c.send (e ∷ []))

enqueue-IsAllowed : (e : Event) (c : Client) → IsAllowed c → IsAllowed (enqueue e c)
enqueue-IsAllowed e c h =
    if-elim IsAllowed (ltb (length c.send) send_capacity) _ _
      (λ b. record {
        permitted = h.permitted;
        bounded = h.bounded;
        fits = omega (arith, ltb_lt b, length-append c.send (e ∷ []));
      })
      (λ _. h)
  where
    ltb_lt : ltb (length c.send) send_capacity ≡ true → length c.send < send_capacity
    ltb_lt b = ground arith

-- Between two states of a client its rights do not change.
abbrev Same : Client → Client → Type 0
Same c d = d.can_use ≡ c.can_use

abbrev Console : Option (String → Bool) → List String → Type 0
Console can_use commands = (commands ≡ []) ⊎ (may_use can_use "console_use" ≡ true)

abbrev Step : Client → Client × List String → Type 0
Step c r = IsAllowed r.0 × Same c r.0 × Console c.can_use r.1

subscribe-Same : (topic : String) (s : ℤ) (c : Client) → Same c (subscribe topic s c)
unfolding subscribe
subscribe-Same topic s c = if-elim (Same c) (may_use c.can_use topic) _ _ (λ _. refl) (λ _. refl)

receive-Step :
    (handler : Bool) (m : Message) (c : Client) → IsAllowed c → Step c (receive handler m c)
unfolding receive
receive-Step handler m c h =
    if-elim (Step c) (verb_of m == "subscribe") _ _
      (λ _. (
        subscribe-IsAllowed m.topic m.interval_seconds c h,
        subscribe-Same m.topic m.interval_seconds c,
        inl refl,
      ))
      (λ _.
        if-elim (Step c) (verb_of m == "unsubscribe") _ _
          (λ _. (unsubscribe-IsAllowed m.topic c h, unfold unsubscribe in refl, inl refl))
          (λ _.
            if-elim (Step c) (verb_of m == "console_command") _ _ (λ _. (h, refl, command))
              (λ _. (h, refl, inl refl))))
  where
    command :
        Console c.can_use
          (if may_use c.can_use "console_use" && handler then m.command ∷ [] else [])
    command =
        if-elim (Console c.can_use) (may_use c.can_use "console_use" && handler) _ _
          (λ e. inr (ground arith)) (λ _. inl refl)

happen-Step : (h : Happening) (c : Client) → IsAllowed c → Step c (happen h c)
unfolding happen broadcast_to broadcast_due_to
happen-Step (message handler m) c a = receive-Step handler m c a
happen-Step (event e) c a =
    if-elim (λ (d : Client). IsAllowed d × Same c d × Console c.can_use []) (c.topics e.topic) _ _
      (λ _. (enqueue-IsAllowed e c a, enqueue-Same e c, inl refl)) (λ _. (a, refl, inl refl))
  where
    enqueue-Same : (e : Event) (d : Client) → Same d (enqueue e d)
    enqueue-Same e d =
        if-elim (Same d) (ltb (length d.send) send_capacity) _ _ (λ _. refl) (λ _. refl)
happen-Step (timed now fallback e) c a =
    if-elim (λ (d : Client). IsAllowed d × Same c d × Console c.can_use [])
      (is_due now fallback e.topic c) _ _
      (λ _. (
        enqueue-IsAllowed e marked
            (record { permitted = a.permitted; bounded = a.bounded; fits = a.fits }),
        enqueue-Same,
        inl refl,
      ))
      (λ _. (a, refl, inl refl))
  where
    marked : Client
    marked = record c { last_topic_sent = set_at c.last_topic_sent e.topic (some now) }

    enqueue-Same : Same c (enqueue e marked)
    enqueue-Same = if-elim (Same c) (ltb (length c.send) send_capacity) _ _ (λ _. refl) (λ _. refl)

serve-Step : (hs : List Happening) (c : Client) → IsAllowed c → Step c (serve hs c)
unfolding serve
serve-Step [] c a = (a, refl, inl refl)
serve-Step (h ∷ hs) c a =
    let first = happen-Step h c a in
    let rest = serve-Step hs (happen h c).0 first.0 in
    (
      rest.0,
      rest.1 ∙ first.1,
      both (happen h c).1 (serve hs (happen h c).0).1 first.2
          (subst (λ f. Console f (serve hs (happen h c).0).1) first.1 rest.2),
    )
  where
    both :
        (xs ys : List String)
        → Console c.can_use xs
        → Console c.can_use ys
        → Console c.can_use (xs ++ ys)
    both xs ys (inr e) k = inr e
    both xs ys (inl e) (inr f) = inr f
    both xs ys (inl e) (inl f) = inl (rw (e, f) refl)

-- Whatever messages a connection sends and whatever is broadcast meanwhile: the client is subscribed only
-- to topics that its role may use, asks for no interval above a minute, holds at most 256 waiting
-- messages, and no command of it reaches the console unless its role may use the console.
pub serve-IsAllowed :
    (name user_id : ℕ) (can_use : Option (String → Bool)) (hs : List Happening)
    → let r = serve hs (new_client name user_id can_use) in
      IsAllowed r.0
      × (r.0.can_use ≡ can_use)
      × ((r.1 ≡ []) ⊎ (may_use can_use "console_use" ≡ true))
unfolding new_client
serve-IsAllowed name user_id can_use hs =
    serve-Step hs (new_client name user_id can_use)
      (record { permitted = λ t e. cc; bounded = λ t. omega arith; fits = omega arith })
