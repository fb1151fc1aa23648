-- ===== src/Sync/Link/Examples.antt =====
-- A run of the transition system: a ping goes out between two deltas, and the peer is behind for a
-- while.
use tx2_link.Common.{ℕ, ◌≡◌, ◌+◌, refl, ap, [], ◌∷◌, List, true, drop}
use tx2_link.Common.Maps.{insert, get, contains_key, string_key, nat_key}
use tx2_link.Error.{ok}
use tx2_link.Protocol.{Message, field_value_eq}
use tx2_link.RateLimit.Window as Window
use tx2_link.Compression.Delta.{updated_change}
use tx2_link.Compression.Field.{with_enabled}
use tx2_link.Compression.World.{view, SameWorld}
use tx2_link.Compression.Replay.Content.{content}
use tx2_link.Sync.{default_config, new}
use tx2_link.Sync.Send.{send_delta, ping}
use tx2_link.Sync.Receive.{process_message}
use tx2_link.Sync.Hears.{apply_event}
use tx2_link.Sync.Link.{Link, sends_delta, pings, hears, Reach, here, next}
use tx2_link.Sync.Link.CaughtUp.{starts, caught_up-SameWorld}
use tx2_link.Samples.Managers.{components, entities, at, kept_log}
use tx2_link.Samples.{
  no_json, ping_at, no_json-HasUniqueKeys, no_json-HasEquality, billionths, at_first, later,
  at_first-IsDiffable, later-IsDiffable, log_transport,
}

abbrev Pair : Type 0
Pair = Link (List Message) (List Message)

abbrev start : Pair
start = starts kept_log billionths no_json [] default_config (new [] default_config)

abbrev after_delta : Pair
after_delta = record start {
  sender = (send_delta billionths no_json components entities (at 1) at_first start.sender 0).1;
}

abbrev after_ping : Pair
after_ping = record after_delta { sender = (ping 1500 after_delta.sender 1).1 }

abbrev after_later : Pair
after_later = record after_ping {
  sender = (send_delta billionths no_json components entities (at 2) later after_ping.sender 2).1;
}

delta_ok :
    (send_delta billionths no_json components entities (at 1) at_first start.sender 0).0 ≡ ok tt
unfolding send_delta new Window.new insert get field_value_eq contains_key updated_change
delta_ok = refl

later_ok :
    (send_delta billionths no_json components entities (at 2) later after_ping.sender 2).0 ≡ ok tt
unfolding send_delta ping new Window.new insert get field_value_eq contains_key updated_change
later_ok = refl

abbrev three_said : Reach kept_log billionths no_json (with_enabled true) start after_later
three_said =
    next
      (next
        (next here
          (sends_delta start components entities (at 1) at_first 0 at_first-IsDiffable delta_ok))
        (pings after_delta 1500 1))
      (sends_delta after_ping components entities (at 2) later 2 later-IsDiffable later_ok)

-- The messages as they stand in the log.
abbrev first : List Message → Message
first (m ∷ ms) = m
first [] = ping_at 0

abbrev all_said : List Message
all_said = after_later.sender.transport

abbrev hear_next : ℕ → Pair → Pair
hear_next n l =
    let message = first (drop n all_said) in
    record l {
      peer = (process_message billionths 0 message l.peer 3).1;
      processed = n + 1;
      world =
          apply_event (content no_json (with_enabled true))
            (process_message billionths 0 message l.peer 3).0 l.world;
    }

abbrev all_heard : Pair
all_heard = hear_next 2 (hear_next 1 (hear_next 0 after_later))

all_three : all_said ≡ first all_said ∷ first (drop 1 all_said) ∷ first (drop 2 all_said) ∷ []
unfolding send_delta ping new Window.new insert get field_value_eq contains_key updated_change
all_three = refl

abbrev run : Reach kept_log billionths no_json (with_enabled true) start all_heard
run =
    next
      (next (next three_said (hears after_later 0 3 _ _ all_three))
        (hears (hear_next 0 after_later) 0 3 _ _ (ap (drop 1) all_three)))
      (hears (hear_next 1 (hear_next 0 after_later)) 0 3 _ _ (ap (drop 2) all_three))

caught_up-SameWorld_example :
    SameWorld all_heard.world (view (content no_json (with_enabled true)) later)
unfolding view
caught_up-SameWorld_example =
    caught_up-SameWorld kept_log billionths no_json no_json-HasUniqueKeys no_json-HasEquality []
      default_config (new [] default_config) all_heard run refl (ap (drop 3) all_three)
