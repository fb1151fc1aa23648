-- ===== src/Suite/Syncs.antt =====
-- The tests of sync.rs, with managers over memory transports.
use tx2_link.Common.{
  ℕ, ◌+◌, ◌≤◌, ◌≡◌, refl, arith, Bool, true, not, ◌&&◌, ◌==◌, String, inl, inr, none, some, [], ◌∷◌,
}
use tx2_link.Common.Maps.{insert, get, contains_key, string_key, nat_key}
use tx2_link.Error.{is_ok}
use tx2_link.Float.{FloatOps}
use tx2_link.Protocol.{Message}
use tx2_link.Protocol.Messages as Messages
use tx2_link.Protocol.Json.{from_json_value}
use tx2_link.Serialization.{Codec, Formats, Bytes, WorldSnapshot, BinaryFormat}
use tx2_link.RateLimit.Window.{default_config as default_limits, with_max_messages}
use tx2_link.RateLimit.Window as Window
use tx2_link.Compression.Json.{JsonValue, SerdeJson, done, member}
use tx2_link.Transport.{Transport}
use tx2_link.Transport.Memory.{MemoryTransport, memory_transport}
use tx2_link.Transport.Memory as Memory
use tx2_link.Sync.{
  SyncMode, SyncConfig, SyncManager, default_config, with_mode, with_rate_limiting,
  with_rate_limit_config, new, get_stats,
}
use tx2_link.Sync.Send.{Clocks, send_snapshot, send_delta}
use tx2_link.Samples.{entity}
use tx2_link.Samples.OneCodec.{formats_of}
use tx2_link.Samples.Managers.{components, entities}

abbrev empty_at_100 : WorldSnapshot
empty_at_100 = record { entities = []; timestamp = 0x4059_0000_0000_0000; version = "1.0.0" }

-- `json!({"x": 10.0})`
abbrev x_is_ten : JsonValue
x_is_ten = JsonValue.object (
    member "x"
      (JsonValue.number
        (record { as_i64 = none; as_u64 = none; as_f64 = some 0x4024_0000_0000_0000 }))
      done)

abbrev one_entity_at_200 : (JsonValue → String) → WorldSnapshot
one_entity_at_200 to_string = record {
  entities =
      entity 1 (record { id = "Position"; payload = from_json_value to_string x_is_ten } ∷ []) ∷ [];
  timestamp = 0x4069_0000_0000_0000;
  version = "1.0.0";
}

module _ (f : Formats Message) where
  instance abbrev over_memory : Transport MemoryTransport
  over_memory = memory_transport f

  abbrev manager_with : SyncConfig → SyncManager MemoryTransport
  manager_with config = new (Memory.new BinaryFormat.message_pack) config

  unfoldable test_sync_manager_snapshot : Clocks → (counter : ℕ) → Bool
  unfolding new send_snapshot get_stats
  test_sync_manager_snapshot now counter =
      let manager = manager_with (with_mode SyncMode.full default_config) in
      let (r, manager1, counter1) = send_snapshot now empty_at_100 manager counter in
      is_ok r && (get_stats manager1).sync_count == 1

  unfoldable test_sync_manager_delta :
      FloatOps → SerdeJson → (JsonValue → String) → Clocks → Clocks → (counter : ℕ) → Bool
  unfolding new send_delta get_stats
  test_sync_manager_delta floats json to_string now now1 counter =
      let manager = manager_with (with_mode SyncMode.delta default_config) in
      let (r, manager1, counter1) =
        send_delta floats json components entities now empty_at_100 manager counter in
      let (r1, manager2, counter2) =
        send_delta floats json components entities now1 (one_entity_at_200 to_string) manager1
          counter1 in
      is_ok r && is_ok r1 && (get_stats manager2).sync_count == 1

  unfoldable test_sync_manager_rate_limiting : Clocks → Clocks → Clocks → (counter : ℕ) → Bool
  unfolding new send_snapshot with_max_messages
  test_sync_manager_rate_limiting now now1 now2 counter =
      let config =
        with_rate_limit_config (with_max_messages 2 default_limits)
          (with_rate_limiting true (with_mode SyncMode.full default_config)) in
      let (r, manager1, counter1) = send_snapshot now empty_at_100 (manager_with config) counter in
      let (r1, manager2, counter2) = send_snapshot now1 empty_at_100 manager1 counter1 in
      let (r2, manager3, counter3) = send_snapshot now2 empty_at_100 manager2 counter2 in
      is_ok r && is_ok r1 && not (is_ok r2)

-- Formats that carry any message.
abbrev carries_all : (Message → Bytes) → Codec Message
carries_all encode = record { to_vec = λ m. inr (encode m); from_slice = λ bs. inl "not read" }

module _ (encode : Message → Bytes) where
  -- At any time, and wherever the counter stands.
  test_sync_manager_snapshot_passes :
      (now : Clocks) (counter : ℕ)
      → test_sync_manager_snapshot (formats_of (carries_all encode)) now counter ≡ true
  unfolding test_sync_manager_snapshot Window.new Memory.send Messages.snapshot
  test_sync_manager_snapshot_passes now counter = refl

  -- The first world is empty, and so is its delta, which is not sent.
  test_sync_manager_delta_passes :
      (floats : FloatOps) (json : SerdeJson) (to_string : JsonValue → String) (now now1 : Clocks)
      (counter : ℕ)
      → test_sync_manager_delta
          (formats_of (carries_all encode))
          floats
          json
          to_string
          now
          now1
          counter
        ≡ true
  unfolding test_sync_manager_delta Window.new Memory.send Messages.delta insert get contains_key
  test_sync_manager_delta_passes floats json to_string now now1 counter = refl

  -- If the clock does not go back, and the window's second has not passed.
  test_sync_manager_rate_limiting_passes :
      (now now1 now2 : Clocks) (counter : ℕ)
      → now.at_limiter ≤ now1.at_limiter
      → now1.at_limiter ≤ now2.at_limiter
      → now2.at_limiter ≤ now.at_limiter + 1_000_000_000
      → test_sync_manager_rate_limiting (formats_of (carries_all encode)) now now1 now2 counter
        ≡ true
  unfolding test_sync_manager_rate_limiting Window.new Memory.send Messages.snapshot
  test_sync_manager_rate_limiting_passes now now1 now2 counter up up1 soon = ground arith
