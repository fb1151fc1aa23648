-- ===== src/Sync/Receive.antt =====
-- `SyncManager::receive` and the events that it makes of messages.
use tx2_link.Common.{ℕ, not, String, Option, none, some, List, if◌then◌else◌, add64}
use tx2_link.Error.{connection_closed, Result, ok, err}
use tx2_link.Float.{FloatOps}
use tx2_link.Protocol.{ComponentSchemaInfo, Message, MessageHeader, MessagePayload}
use tx2_link.Protocol.Messages as Messages
use tx2_link.Serialization.{WorldSnapshot}
use tx2_link.Serialization as Wire
use tx2_link.Transport.{Transport}
use tx2_link.Sync.{SyncManager, is_connected, reset_delta_compressor}
use tx2_link.Sync.Send.{transmit}

pub data SyncEvent : Type 0 where
  snapshot : WorldSnapshot → SyncEvent
  delta : Wire.Delta → SyncEvent
  snapshot_requested : SyncEvent
  ack : ℕ → SyncEvent
  ping pong : SyncEvent
  schema_sync : List ComponentSchemaInfo → SyncEvent
  error : ℕ → String → SyncEvent

-- An event in place of a success.
abbrev pub as_event : Result (Unit {0}) → SyncEvent → Result SyncEvent
as_event (ok u) event = ok event
as_event (err e) event = err e

abbrev pub as_some : Result SyncEvent → Result (Option SyncEvent)
as_some (ok event) = ok (some event)
as_some (err e) = err e

-- `millis as f64 / 1000.0`
seconds : FloatOps → ℕ → ℕ
seconds floats millis = floats.div (floats.of_nat millis) (floats.of_nat 1000)

module _ {T : Type 0} ⦃transport : Transport T⦄ (floats : FloatOps) where
  unfoldable pub handle :
      ℕ → MessageHeader → MessagePayload → SyncManager T → ℕ → Result SyncEvent × SyncManager T × ℕ
  unfolding reset_delta_compressor transmit seconds
  handle millis header (MessagePayload.snapshot payload) m counter = (
    ok (
        SyncEvent.snapshot (record {
          entities = payload.entities;
          timestamp = payload.metadata.world_time;
          version = "1.0.0";
        })),
    reset_delta_compressor m,
    counter,
  )
  handle millis header (MessagePayload.delta payload) m counter = (
    ok (
        SyncEvent.delta (record {
          changes = payload.changes;
          timestamp = seconds floats header.timestamp;
          base_timestamp = seconds floats payload.base_timestamp;
        })),
    m,
    counter,
  )
  handle millis header MessagePayload.request_snapshot m counter =
      (ok SyncEvent.snapshot_requested, m, counter)
  handle millis header (MessagePayload.ack ack_id) m counter =
      (ok (SyncEvent.ack ack_id), m, counter)
  handle millis header MessagePayload.ping m counter =
      let (answer, counter') = Messages.pong m.schema_version millis counter in
      let (r, m') = transmit answer m in (as_event r SyncEvent.ping, m', counter')
  handle millis header MessagePayload.pong m counter = (ok SyncEvent.pong, m, counter)
  handle millis header (MessagePayload.schema_sync payload) m counter =
      (ok (SyncEvent.schema_sync payload.schemas), m, counter)
  handle millis header (MessagePayload.error code text) m counter =
      (ok (SyncEvent.error code text), record m { error_count = add64 m.error_count 1 }, counter)

  unfoldable pub process_message :
      ℕ → Message → SyncManager T → ℕ → Result SyncEvent × SyncManager T × ℕ
  unfolding handle
  process_message millis message m counter = handle millis message.header message.payload m counter

  unfoldable pub after_receive :
      ℕ
      → Result (Option Message)
      → SyncManager T
      → ℕ
      → Result (Option SyncEvent) × SyncManager T × ℕ
  unfolding process_message
  after_receive millis (err e) m counter = (err e, m, counter)
  after_receive millis (ok none) m counter = (ok none, m, counter)
  after_receive millis (ok (some message)) m counter =
      let (r, m', counter') = process_message millis message m counter in (as_some r, m', counter')

  unfoldable pub receive : ℕ → SyncManager T → ℕ → Result (Option SyncEvent) × SyncManager T × ℕ
  unfolding after_receive
  receive millis m counter =
      if not (is_connected m)
      then (err connection_closed, m, counter)
      else let (r, t) = transport.receive m.transport in
        after_receive millis r (record m { transport = t }) counter
