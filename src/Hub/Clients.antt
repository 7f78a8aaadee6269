-- ===== src/Hub/Clients.antt =====
-- The clients of source/internal/websocket/hub.go: readLoop, Broadcast, broadcastDueAt, SubscriberCount,
-- MinimumInterval and DisconnectUser. Times and intervals are seconds. A map's missing key is the zero
-- value, as the code reads it; a channel is the list of the messages that wait in it.
use bonghos.Base.{
  ℕ, zero, suc, ◌+◌, ℤ, pos, negsuc, String, Bool, true, false, ◌&&◌, ◌||◌, List, [], ◌∷◌, ◌++◌,
  Option, none, some, map, ◌==◌, if◌then◌else◌, eqb, ltb, leb, length, count_if,
}

pub record Event : Type 0 where
  pub topic : String
  pub kind : String
  pub body : String

pub record Client : Type 0 where
  pub name : ℕ
  pub user_id : ℕ
  pub can_use : Option (String → Bool)
  pub topics : String → Bool
  pub topic_intervals : String → ℕ
  pub last_topic_sent : String → Option ℕ
  pub send : List Event

pub record Message : Type 0 where
  pub action : String
  pub type : String
  pub topic : String
  pub command : String
  pub interval_seconds : ℤ

-- `c.canUse == nil || c.canUse(topic)`
abbrev pub may_use : Option (String → Bool) → String → Bool
may_use none topic = true
may_use (some f) topic = f topic

abbrev pub set_at {ℓ} : {A : Type ℓ} → (String → A) → String → A → String → A
set_at f k v x = if x == k then v else f x

-- The client that Serve registers.
unfoldable pub new_client : ℕ → ℕ → Option (String → Bool) → Client
new_client name user_id can_use = record {
  name = name;
  user_id = user_id;
  can_use = can_use;
  topics = λ t. false;
  topic_intervals = λ t. 0;
  last_topic_sent = λ t. none;
  send = [];
}

abbrev pub has_cadence : String → Bool
has_cadence topic = topic == "performance" || topic == "overview_performance"

-- The seconds, between 1 and 60, when they are positive.
abbrev pub clamp : ℤ → ℕ
clamp (pos n) = if ltb 60 n then 60 else n
clamp (negsuc n) = 0

unfoldable pub requested_interval : String → ℤ → ℕ
requested_interval topic seconds = if has_cadence topic then clamp seconds else 0

unfoldable pub subscribe : String → ℤ → Client → Client
subscribe topic seconds c =
    if may_use c.can_use topic
    then record c {
      topics = set_at c.topics topic true;
      topic_intervals = set_at c.topic_intervals topic (requested_interval topic seconds);
      last_topic_sent = set_at c.last_topic_sent topic none;
    }
    else c

unfoldable pub unsubscribe : String → Client → Client
unsubscribe topic c = record c {
  topics = set_at c.topics topic false;
  topic_intervals = set_at c.topic_intervals topic 0;
  last_topic_sent = set_at c.last_topic_sent topic none;
}

abbrev pub verb_of : Message → String
verb_of m = if m.action == "" then m.type else m.action

-- One message of readLoop: the client, and the commands that went to `onCommand`.
unfoldable pub receive : Bool → Message → Client → Client × List String
receive has_handler m c =
    if verb_of m == "subscribe"
    then (subscribe m.topic m.interval_seconds c, [])
    else if verb_of m == "unsubscribe"
    then (unsubscribe m.topic c, [])
    else if verb_of m == "console_command"
    then (c, if may_use c.can_use "console_use" && has_handler then m.command ∷ [] else [])
    else (c, [])

abbrev pub send_capacity : ℕ
send_capacity = 256

-- `select { case c.send <- msg: default: }`
abbrev pub enqueue : Event → Client → Client
enqueue e c = if ltb (length c.send) send_capacity then record c { send = c.send ++ e ∷ [] } else c

unfoldable pub broadcast_to : Event → Client → Client
broadcast_to e c = if c.topics e.topic then enqueue e c else c

-- Broadcast
unfoldable pub broadcast : Event → List Client → List Client
broadcast e clients = map (broadcast_to e) clients

abbrev pub cadence : ℕ → ℕ → ℕ
cadence fallback zero = fallback
cadence fallback (suc n) = suc n

abbrev pub is_over : ℕ → ℕ → Option ℕ → Bool
is_over now interval none = true
is_over now interval (some last) = leb (last + interval) now

unfoldable pub is_due : ℕ → ℕ → String → Client → Bool
is_due now fallback topic c =
    c.topics topic
    && is_over now (cadence fallback (c.topic_intervals topic)) (c.last_topic_sent topic)

unfoldable pub broadcast_due_to : ℕ → ℕ → Event → Client → Client
broadcast_due_to now fallback e c =
    if is_due now fallback e.topic c
    then enqueue e (record c { last_topic_sent = set_at c.last_topic_sent e.topic (some now) })
    else c

-- broadcastDueAt
unfoldable pub broadcast_due : ℕ → ℕ → Event → List Client → List Client
broadcast_due now fallback e clients = map (broadcast_due_to now fallback e) clients

-- SubscriberCount
unfoldable pub subscriber_count : String → List Client → ℕ
subscriber_count topic clients = count_if (λ c. c.topics topic) clients

-- MinimumInterval
unfoldable pub minimum_interval : String → ℕ → List Client → ℕ
minimum_interval topic minimum [] = minimum
minimum_interval topic minimum (c ∷ rest) =
    let interval = c.topic_intervals topic in
    minimum_interval topic
      (if c.topics topic && (ltb 0 interval && ltb interval minimum) then interval else minimum)
      rest

-- DisconnectUser: the clients whose connection is closed.
unfoldable pub disconnect_user : ℕ → List Client → List ℕ
disconnect_user user_id [] = []
disconnect_user user_id (c ∷ rest) =
    let others = disconnect_user user_id rest in
    if eqb c.user_id user_id then c.name ∷ others else others
