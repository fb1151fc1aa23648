-- ===== src/Sync/Examples/Memory.antt =====
-- Managers over memory transports, at concrete inputs.
use tx2_link.Common.{arith, ◌%◌, ◌^◌, everywhere, ◌≡◌, refl, List, [], ◌∷◌, length, All, some, true}
use tx2_link.Error.{ok}
use tx2_link.Protocol.Messages as Messages
use tx2_link.Common.Maps.{insert, get, contains_key, string_key, nat_key}
use tx2_link.Serialization.{
  BinarySerializer, serialize_message, BinaryFormat, TakesBack, WorldSnapshot,
}
use tx2_link.RateLimit.Window as Window
use tx2_link.Samples.Managers.{components, entities, at}
use tx2_link.Samples.{
  ping_formats, no_json, no_json-HasUniqueKeys, no_json-HasEquality, billionths, log_transport,
}
use tx2_link.Compression.World.{nowhere, view, SameWorld}
use tx2_link.Compression.Field.{with_enabled}
use tx2_link.Compression.Replay.Content.{content}
use tx2_link.RateLimit.Window.{default_config as default_limits, with_max_messages}
use tx2_link.Sync.{SyncConfig, with_rate_limit_config, SyncManager, default_config, new}
use tx2_link.Sync.Send.{Clocks}
use tx2_link.Sync.Follow.{send_deltas}
use tx2_link.Sync.Receive.{SyncEvent}
use tx2_link.Sync.Memory.{sent_over, said_over, listen, listen-SameWorld}
use tx2_link.Sync.Dialogue.{dialogue, question, reply, dialogue_answers}
use tx2_link.Samples.Requests.{request_codec, request_formats, request_formats-TakesBack}
use tx2_link.Sync.Paced.{
  count_accepted, memory_transport-IsReliable, send_snapshots, send_snapshots-reference,
}
use tx2_link.Sync.Limits.{checks_of}
use tx2_link.RateLimit.Window.Reference.{reference}
use tx2_link.Transport.Memory.{memory_transport, MemoryTransport, connect_to}
use tx2_link.Transport.Memory as Memory
use tx2_link.Samples.Deltas.{
  bare_first, bare_later, delta_codec, delta_formats, delta_formats-TakesBack,
}
use tx2_link.RateLimit.Window.{burst_window}

abbrev bare_turns : List (Clocks × WorldSnapshot)
bare_turns = (at 1, bare_first) ∷ (at 2, bare_later) ∷ []

bare_turns_ok :
    All
      (λ r. r ≡ ok tt)
      (sent_over delta_formats billionths no_json components entities BinaryFormat.json
        default_config bare_turns 0).0
unfolding send_deltas new Window.new insert contains_key Memory.send delta_codec Messages.delta get
bare_turns_ok = (refl, (refl, tt))

listen-SameWorld_example :
    (let m =
        (sent_over delta_formats billionths no_json components entities BinaryFormat.json
          default_config bare_turns 0).1 in
      let (mine, theirs) = connect_to m.transport (Memory.new BinaryFormat.json) in
      SameWorld
        (listen delta_formats
          (content no_json (with_enabled true))
          billionths
          0
          (length theirs.receive_buffer)
          (new theirs default_config)
          0
          nowhere)
        (view (content no_json (with_enabled true)) bare_later))
listen-SameWorld_example =
    listen-SameWorld delta_formats billionths no_json components entities no_json-HasUniqueKeys
      no_json-HasEquality 0 BinaryFormat.json default_config default_config (at 1, bare_first)
      ((at 2, bare_later) ∷ []) 0 0
      (everywhere (TakesBack delta_formats (record { format = BinaryFormat.json }))
        (delta_formats-TakesBack (record { format = BinaryFormat.json }))
        (said_over delta_formats billionths no_json components entities BinaryFormat.json
          default_config bare_turns 0))
      ((tt, (tt, tt)), ((tt, (tt, tt)), tt)) bare_turns_ok

abbrev empty_world : WorldSnapshot
empty_world = record { entities = []; timestamp = 12; version = "2.0.0" }

abbrev over_memory : SyncManager MemoryTransport
over_memory = new (Memory.new BinaryFormat.json) default_config

asks_and_answers :
    (let d =
        dialogue request_formats billionths (at 4) empty_world 3900 7 over_memory over_memory in
      (d.asked ≡ ok tt) × (d.answered ≡ ok tt))
unfolding dialogue new Window.new Memory.send Memory.receive request_codec connect_to
    Messages.request_snapshot Messages.snapshot
asks_and_answers = (refl, refl)

dialogue_answers_example :
    (let d =
        dialogue request_formats billionths (at 4) empty_world 3900 7 over_memory over_memory in
      (d.request ≡ ok (some SyncEvent.snapshot_requested))
      × (d.answer ≡ ok (some (SyncEvent.snapshot (record empty_world { version = "1.0.0" })))))
unfolding new
dialogue_answers_example =
    dialogue_answers request_formats billionths (at 4) empty_world 3900 7 BinaryFormat.json
      over_memory over_memory
      (request_formats-TakesBack (record { format = BinaryFormat.json })
        (question request_formats billionths (at 4) empty_world 3900 7 over_memory))
      (request_formats-TakesBack (record { format = BinaryFormat.json })
        (reply request_formats billionths (at 4) empty_world 3900 7 over_memory over_memory))
      asks_and_answers.0 asks_and_answers.1

-- One message a second: the second of these is refused.
abbrev slow : SyncConfig
slow = with_rate_limit_config (with_max_messages 1 default_limits) default_config

abbrev hasty_turns : List (Clocks × WorldSnapshot)
hasty_turns = (at 1, bare_first) ∷ (at 1, bare_later) ∷ (at 3, bare_first) ∷ []

abbrev slow_manager : SyncManager MemoryTransport
slow_manager = new (Memory.new BinaryFormat.message_pack) slow

abbrev packer : BinarySerializer
packer = record { format = BinaryFormat.message_pack }

send_snapshots-reference_example :
    (let (sent, last) =
        send_snapshots ⦃transport = memory_transport ping_formats⦄ hasty_turns slow_manager 0 in
      let (answers, accepted) = reference slow.rate_limit_config (checks_of hasty_turns) [] in
      (sent ≡ answers) × (last.sync_count ≡ count_accepted answers % 2 ^ 64))
unfolding with_max_messages serialize_message
send_snapshots-reference_example =
    send_snapshots-reference ⦃transport = memory_transport ping_formats⦄
      (λ t. (t.connected ≡ true) × (t.serializer ≡ packer))
      (memory_transport-IsReliable ping_formats packer
        (λ m. (m.header.schema_version ∷ 7 ∷ [], refl)))
      (Memory.new BinaryFormat.message_pack) slow hasty_turns 0 0 (refl, refl) refl (omega arith)
      (omega arith)
