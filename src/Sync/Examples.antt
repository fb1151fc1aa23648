-- ===== src/Sync/Examples.antt =====
-- Tests of the sync manager, after those of sync.rs, and its theorems at concrete inputs.
mod Snapshots
mod Memory
use tx2_link.Common.{
  ◌%◌, ◌^◌, ℕ, ◌≡◌, ◌≤◌, ◌*◌, refl, arith, List, [], ◌∷◌, length, All, some, true,
}
use tx2_link.Error.{ok, err, rate_limit_exceeded}
use tx2_link.Protocol.{
  ComponentId, EntityId, SerializedComponent, SerializedEntity, Message, MessagePayload,
  CompressionType, field_value_eq,
}
use tx2_link.Protocol.Messages as Messages
use tx2_link.Common.Maps.{HashOrder, insert, get, contains_key, string_key, nat_key}
use tx2_link.Serialization.{BinaryFormat, WorldSnapshot}
use tx2_link.RateLimit.Window as Window
use tx2_link.Compression.Delta.{updated_change}
use tx2_link.Common.Text.{show}
use tx2_link.Sync.Logged.{MessageLog}
use tx2_link.Samples.Managers.{components, entities, at, kept_log}
use tx2_link.Samples.{
  ping_at, no_json, no_json-HasUniqueKeys, no_json-HasEquality, billionths, at_first, later,
  at_first-IsDiffable, at_first-IsReflexive, later-IsDiffable, log_transport,
}
use tx2_link.Compression.World.{nowhere, view, overlay, SameWorld}
use tx2_link.Compression.Field.{with_enabled}
use tx2_link.Compression.Replay.Content.{content}
use tx2_link.RateLimit.Window.{default_config as default_limits, with_max_messages}
use tx2_link.Sync.{SyncConfig, SyncManager, default_config, with_rate_limit_config, new}
use tx2_link.Sync.Send.{Clocks, send_snapshot, send_delta}
use tx2_link.Sync.Hears.{hear}
use tx2_link.Sync.Follow.{send_deltas, send_deltas-SameWorld}
use tx2_link.Sync.Reset.{received_snapshot_overlays}
use tx2_link.Sync.Receive.{SyncEvent, process_message}
use tx2_link.Sync.Resync.{send_snapshot_recovers, send_snapshot_strands}
use tx2_link.Sync.Memory.{sent_over, listen, listen-SameWorld}
use tx2_link.Sync.Dialogue.{dialogue, dialogue_answers}
use tx2_link.Samples.Requests.{request_codec, request_formats, request_formats-TakesBack}
use tx2_link.Transport.Memory.{MemoryTransport, connect_to}
use tx2_link.Samples.Deltas.{
  bare_first, bare_later, delta_codec, delta_formats, delta_formats-TakesBack,
}
use tx2_link.Sync.Paced.{IsReliable, count_accepted, send_snapshots, send_snapshots-reference}
use tx2_link.RateLimit.Window.Reference.{reference}
use tx2_link.Sync.Limits.{checks_of, posted_in, stamp, sends_within_limits}
use tx2_link.RateLimit.Window.{burst_window}
use tx2_link.RateLimit.Window.Weigh.{weigh, one}
use tx2_link.RateLimit.Window.Tracks.{between}
use tx2_link.Sync.Faults.{send_delta_loses}

abbrev three_turns : List (Clocks × WorldSnapshot)
three_turns = (at 1, at_first) ∷ (at 2, at_first) ∷ (at 3, later) ∷ []

abbrev manager : SyncManager (List Message)
manager = new [] default_config

abbrev peer : SyncManager (List Message)
peer = new [] default_config

-- The second delta is empty, and not sent.
three_turns_send_two :
    length (send_deltas billionths no_json components entities three_turns manager 0).1.transport
    ≡ 2
unfolding send_deltas new Window.new insert get field_value_eq contains_key updated_change
three_turns_send_two = refl

three_turns_ok :
    All
      (λ r. r ≡ ok tt)
      (send_deltas billionths no_json components entities three_turns manager 0).0
unfolding send_deltas new Window.new insert get field_value_eq contains_key updated_change
three_turns_ok = (refl, (refl, (refl, tt)))

send_deltas-SameWorld_example :
    SameWorld
      (hear
        (content no_json (with_enabled true))
        billionths
        0
        (send_deltas billionths no_json components entities three_turns manager 0).1.transport
        peer
        0
        nowhere)
      (view (content no_json (with_enabled true)) later)
send_deltas-SameWorld_example =
    send_deltas-SameWorld kept_log billionths no_json no_json-HasUniqueKeys no_json-HasEquality
      components entities 0 peer 0 [] default_config (at 1, at_first)
      ((at 2, at_first) ∷ (at 3, later) ∷ []) 0 refl
      (at_first-IsDiffable, (at_first-IsDiffable, (later-IsDiffable, tt))) three_turns_ok

-- A limit of no messages rejects the first delta.
abbrev muted : SyncManager (List Message)
muted = new [] (with_rate_limit_config (with_max_messages 0 default_limits) default_config)

rejected :
    (send_delta billionths no_json components entities (at 1) at_first muted 0).0
    ≡ err (rate_limit_exceeded "Message rate limit exceeded: 0 msgs/sec")
unfolding send_delta new Window.new Window.message_limit_text show with_max_messages insert get
    field_value_eq contains_key updated_change
rejected = refl

send_delta_loses_example :
    (let after = (send_delta billionths no_json components entities (at 1) at_first muted 0).1 in
      (after.transport ≡ []) × (after.delta_compressor.previous_snapshot ≡ some at_first))
unfolding new
send_delta_loses_example =
    send_delta_loses kept_log billionths no_json components entities (at 1) at_first muted 0
      (rate_limit_exceeded "Message rate limit exceeded: 0 msgs/sec") refl rejected

-- One message a second: the second of these is refused.
abbrev slow : SyncConfig
slow = with_rate_limit_config (with_max_messages 1 default_limits) default_config

abbrev hasty_turns : List (Clocks × WorldSnapshot)
hasty_turns = (at 1, at_first) ∷ (at 1, later) ∷ (at 3, at_first) ∷ []

hasty_turns_post_two :
    posted_in (λ l. l) billionths no_json components entities hasty_turns (new [] slow) 0 []
    ≡ stamp (at 3) ∷ stamp (at 1) ∷ []
unfolding posted_in new Window.new with_max_messages insert get field_value_eq contains_key
    updated_change
hasty_turns_post_two = refl

sends_within_limits_example :
    (let posted =
        posted_in (λ l. l) billionths no_json components entities hasty_turns (new [] slow) 0 [] in
      let limits = slow.rate_limit_config in
      (weigh one (between 3_000_000_000 limits.window_duration) posted
        ≤ limits.max_messages_per_second)
      × (weigh one (between 3_000_000_000 burst_window) posted ≤ limits.burst_size))
unfolding with_max_messages
sends_within_limits_example =
    sends_within_limits kept_log billionths no_json components entities [] slow hasty_turns 0 0
      3_000_000_000 refl (omega arith) (omega arith)
