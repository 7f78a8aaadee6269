-- ===== src/Hub/Tests.antt =====
-- The theorems on source/internal/websocket at concrete inputs.
use bonghos.Base.{
  if◌then◌else◌, ◌≡◌, refl, ◌⊎◌, pos, String, Bool, true, List, [], ◌∷◌, Option, none, some, ◌==◌,
}
use bonghos.Hub.Clients.{
  Event, Client, Message, may_use, new_client, subscriber_count, minimum_interval,
}
use bonghos.Hub.Laws.{IsAllowed, Happening, message, event, timed, serve, serve-IsAllowed}

-- A viewer of the performance page.
abbrev viewer : Option (String → Bool)
viewer = some (λ t. t == "performance")

abbrev ask : String → Message
ask topic = record {
  action = "";
  type = "subscribe";
  topic = topic;
  command = "";
  interval_seconds = pos 90;
}

abbrev tick : Event
tick = record { topic = "performance"; kind = "sample"; body = "{}" }

abbrev session : List Happening
session =
    message true (ask "performance")
    ∷ message true (ask "console")
    ∷ message true (record {
      action = "console_command";
      type = "";
      topic = "";
      command = "op me";
      interval_seconds = pos 0;
    })
    ∷ event tick
    ∷ timed 100 5 tick
    ∷ []

serve-IsAllowed_example :
    let r = serve session (new_client 1 7 viewer) in
    IsAllowed r.0 × (r.0.can_use ≡ viewer) × ((r.1 ≡ []) ⊎ (may_use viewer "console_use" ≡ true))
serve-IsAllowed_example = serve-IsAllowed 1 7 viewer session

abbrev watching : Client
watching = record {
  name = 1;
  user_id = 7;
  can_use = viewer;
  topics = λ t. t == "performance";
  topic_intervals = λ t. if t == "performance" then 60 else 0;
  last_topic_sent = λ t. none;
  send = [];
}

-- The slowest one has asked for a minute, the server's default is the faster one.
minimum_interval_test :
    (minimum_interval "performance" 90 (watching ∷ new_client 2 8 none ∷ []) ≡ 60)
    × (subscriber_count "performance" (watching ∷ new_client 2 8 none ∷ []) ≡ 1)
unfolding minimum_interval subscriber_count new_client
minimum_interval_test = (refl, refl)
