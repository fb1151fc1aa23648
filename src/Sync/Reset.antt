-- ===== src/Sync/Reset.antt =====
-- The delta after a reset of the sender's compressor: a manager resets it whenever it receives a
-- snapshot, and a caller may.
use tx2_link.Common.{ℕ, ◌≡◌, refl, ap, ◌∙◌, none}
use tx2_link.Common.Maps.{HashOrder, string_key, nat_key}
use tx2_link.Error.{ok}
use tx2_link.Float.{FloatOps}
use tx2_link.Protocol.{
  EntityId, ComponentId, ComponentData, SerializedComponent, SerializedEntity, Message,
  MessageHeader, MessagePayload, SnapshotPayload,
}
use tx2_link.Serialization.{WorldSnapshot}
use tx2_link.Compression.Json.{SerdeJson}
use tx2_link.Compression.Delta.{changes_since}
use tx2_link.Compression.World.{World, overlay, replay}
use tx2_link.Compression.Replay.Added.{replay-create_initial_delta_over}
use tx2_link.Transport.{Transport}
use tx2_link.Sync.{SyncManager}
use tx2_link.Sync.Send.{Clocks, send_delta}
use tx2_link.Sync.Receive.{handle, process_message}
use tx2_link.Sync.Logged.{MessageLog}
use tx2_link.Sync.Hears.{hear}
use tx2_link.Sync.Said.{send_delta-IsSaid, IsSaid-heard}

module _ {T : Type 0} ⦃transport : Transport T⦄ (log : MessageLog T) (floats : FloatOps)
    (json : SerdeJson) (order : HashOrder ComponentId SerializedComponent)
    (entities : HashOrder EntityId SerializedEntity) {P : Type 0} ⦃line : Transport P⦄
    (shown : ComponentData → ComponentData) (millis : ℕ) (peer : SyncManager P) (number : ℕ)
    (start : World) where
  abbrev heard : SyncManager T → World
  heard m = hear shown floats millis (log.sent m.transport) peer number start

  -- With no base, a delta that succeeds lays the snapshot over what the peer has.
  send_delta_overlays :
      (now : Clocks) (s : WorldSnapshot) (m : SyncManager T) (counter : ℕ)
      → m.delta_compressor.previous_snapshot ≡ none
      → (send_delta floats json order entities now s m counter).0 ≡ ok tt
      → heard (send_delta floats json order entities now s m counter).1 ≡ overlay shown s (heard m)
  unfolding changes_since
  send_delta_overlays now s m counter p h =
      IsSaid-heard log floats millis
        (send_delta-IsSaid log floats json order entities now s m counter h) shown peer number start
      ∙ ap
          (λ o.
            replay shown (changes_since json order entities m.delta_compressor.field_compressor o s)
              (heard m))
          p
      ∙ replay-create_initial_delta_over shown s (heard m)

  -- A manager that receives a snapshot, and then sends a delta that succeeds, does not tell its peer
  -- what is gone: the entities of the delta's snapshot take the place of those that the peer has under
  -- the same numbers, and any other that the peer has stays, although the manager no longer has it.
  pub received_snapshot_overlays :
      (header : MessageHeader) (payload : SnapshotPayload) (now : Clocks) (s : WorldSnapshot)
      (m : SyncManager T) (counter : ℕ)
      → (let message : Message = record {
        header = header;
        payload = MessagePayload.snapshot payload;
      } in
          let (event, m', counter') = process_message floats millis message m counter in
          (send_delta floats json order entities now s m' counter').0 ≡ ok tt)
      → (let message : Message = record {
        header = header;
        payload = MessagePayload.snapshot payload;
      } in
          let (event, m', counter') = process_message floats millis message m counter in
          let after = (send_delta floats json order entities now s m' counter').1 in
          heard after ≡ overlay shown s (heard m))
  unfolding process_message handle
  received_snapshot_overlays header payload now s m counter h =
      send_delta_overlays now s _ counter refl h
