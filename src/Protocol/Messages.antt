-- ===== src/Protocol/Messages.antt =====
-- `MessageHeader::new` and the constructors of `Message`. The process-wide counter
-- `SEQUENCE_COUNTER` is passed in and out, and the system clock, in milliseconds since the epoch,
-- is an argument. The clock stands after the epoch (the source panics before it).
use tx2_link.Common.{
  ℕ, ◌*◌, ◌%◌, ◌^◌, bit_and, bit_or, String, Bool, true, false, List, [], ◌∷◌, length, keep, as_u32,
  add32, add64,
}
use tx2_link.Protocol.{
  SerializedEntity, DeltaChange, MessageType, MessageHeader, MessagePayload, DeltaMetadata,
  CompressionType, Message,
}

-- `(timestamp << 20) | (sequence & 0xFFFFF)` on u64
unfoldable pub message_id : ℕ → ℕ → ℕ
message_id timestamp sequence = bit_or (timestamp * 2 ^ 20 % 2 ^ 64) (bit_and sequence 0xf_ffff)

-- What reads the clock and the counter, and leaves the counter changed.
abbrev pub Stamped : Type 0 → Type 0
Stamped A = (millis : ℕ) → (counter : ℕ) → A × ℕ

unfoldable pub new_header : MessageType → ℕ → Stamped MessageHeader
unfolding message_id
new_header msg_type schema_version millis counter =
    let sequence = add64 counter 1 in
    let timestamp = millis % 2 ^ 64 in
    (
      record {
        msg_type = msg_type;
        timestamp = timestamp;
        id = message_id timestamp sequence;
        sequence = sequence;
        schema_version = schema_version;
      },
      sequence,
    )

unfoldable pub new : MessageType → ℕ → MessagePayload → Stamped Message
unfolding new_header
new msg_type schema_version payload millis counter =
    let (header, counter') = new_header msg_type schema_version millis counter in
    (record { header = header; payload = payload }, counter')

-- `map(|e| e.components.len() as u32).sum()` on u32
unfoldable pub sum_components : List SerializedEntity → ℕ
sum_components [] = 0
sum_components (e ∷ es) = add32 (as_u32 (length e.components)) (sum_components es)

unfoldable pub snapshot : List SerializedEntity → ℕ → ℕ → Stamped Message
unfolding new sum_components
snapshot entities world_time schema_version = new MessageType.snapshot schema_version (
    MessagePayload.snapshot (record {
      entities = entities;
      metadata = record {
        world_time = world_time;
        entity_count = as_u32 (length entities);
        component_count = sum_components entities;
        compression = CompressionType.none;
      };
    }))

abbrev pub is_entity_added : DeltaChange → Bool
is_entity_added (DeltaChange.entity_added e) = true
is_entity_added _ = false

abbrev pub is_entity_removed : DeltaChange → Bool
is_entity_removed (DeltaChange.entity_removed e) = true
is_entity_removed _ = false

abbrev pub is_component_updated : DeltaChange → Bool
is_component_updated (DeltaChange.component_updated e c d) = true
is_component_updated (DeltaChange.fields_updated e c fs) = true
is_component_updated _ = false

unfoldable pub delta_metadata : List DeltaChange → DeltaMetadata
unfolding keep
delta_metadata changes = record {
  change_count = as_u32 (length changes);
  entities_added = as_u32 (length (keep is_entity_added changes));
  entities_removed = as_u32 (length (keep is_entity_removed changes));
  components_updated = as_u32 (length (keep is_component_updated changes));
}

unfoldable pub delta : List DeltaChange → ℕ → ℕ → Stamped Message
unfolding new delta_metadata
delta changes base_timestamp schema_version = new MessageType.delta schema_version (
    MessagePayload.delta (record {
      changes = changes;
      base_timestamp = base_timestamp;
      metadata = delta_metadata changes;
    }))

unfoldable pub request_snapshot : ℕ → Stamped Message
unfolding new
request_snapshot v = new MessageType.request_snapshot v MessagePayload.request_snapshot

unfoldable pub ack : ℕ → ℕ → Stamped Message
unfolding new
ack ack_id v = new MessageType.ack v (MessagePayload.ack ack_id)

unfoldable pub ping : ℕ → Stamped Message
unfolding new
ping v = new MessageType.ping v MessagePayload.ping

unfoldable pub pong : ℕ → Stamped Message
unfolding new
pong v = new MessageType.pong v MessagePayload.pong

unfoldable pub error : ℕ → String → ℕ → Stamped Message
unfolding new
error code message v = new MessageType.error v (MessagePayload.error code message)
