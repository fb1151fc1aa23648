-- ===== src/Sync/Link.antt =====
-- A manager and its peer as a transition system: they take steps in any order, and messages may be on
-- their way while others are sent.
mod InStep
mod Told
pub mod CaughtUp
mod Examples
use tx2_link.Common.{
  ℕ, zero, suc, ◌+◌, ◌≤◌, ◌≡◌, refl, sym, ap, ◌∙◌, subst, false, some, some_inj, List, [], ◌∷◌,
  ◌++◌, length, drop, Option, none,
}
use tx2_link.Common.Maps.{HashOrder, string_key, nat_key}
use tx2_link.Error.{ok}
use tx2_link.Float.{FloatOps}
use tx2_link.Protocol.{
  EntityId, ComponentId, ComponentData, SerializedComponent, SerializedEntity, Message,
}
use tx2_link.Serialization.{WorldSnapshot}
use tx2_link.Compression.Json.{SerdeJson}
use tx2_link.Compression.Field.{FieldCompressor, with_enabled}
use tx2_link.Compression.Delta.{DeltaCompressor}
use tx2_link.Compression.World.{World, nowhere, view, SameWorld}
use tx2_link.Compression.Replay.Json.{HasUniqueKeys, HasEquality}
use tx2_link.Compression.Replay.Content.{content}
use tx2_link.Compression.Replay.Whole.{IsDiffableSnapshot}
use tx2_link.Compression.Replay.Follow.{
  assumed, IsDiffableBase, changes_since-SameWorld, SameWorld-refl,
}
use tx2_link.Transport.{Transport}
use tx2_link.Sync.{SyncConfig, SyncManager, new, is_connected}
use tx2_link.Sync.Send.{Clocks, send_snapshot, send_delta, request_snapshot, send_ack, ping}
use tx2_link.Sync.Receive.{process_message, receive}
use tx2_link.Sync.Logged.{MessageLog}
use tx2_link.Sync.Hears.{
  apply_event, hear_messages, hear_messages-append, process_message-hear_payload,
}
use tx2_link.Sync.Said.{Effect, IsSaid, send_delta-IsSaid}
use tx2_link.Sync.Remarks.{
  IsNoSnapshot, SaysNothing, shows, request_snapshot-SaysNothing, send_ack-SaysNothing,
  ping-SaysNothing, refused-SaysNothing, receive-SaysNothing, send_snapshot-IsSaid,
}

-- The sender, its peer, how many of the sender's messages the peer has processed, and the world that
-- the peer has made of them.
pub record Link (T P : Type 0) : Type 0 where
  pub sender : SyncManager T
  pub peer : SyncManager P
  pub processed : ℕ
  pub world : World

module _ {T P : Type 0} ⦃transport : Transport T⦄ ⦃line : Transport P⦄ (log : MessageLog T)
    (floats : FloatOps) (json : SerdeJson) (f : FieldCompressor) where
  -- The messages that are on their way.
  abbrev pub on_their_way : Link T P → List Message
  on_their_way l = drop l.processed (log.sent l.sender.transport)

  -- One of the two acts. The clocks, the message counter and the orders of the hash maps are any.
  -- The sender's deltas succeed, or are refused since the transport is not connected; a snapshot is
  -- of the entities of the last delta; and the sender receives no snapshot.
  pub data Step : Link T P → Link T P → Type 0 where
    sends_delta :
        (l : Link T P) (order : HashOrder ComponentId SerializedComponent)
        (entities : HashOrder EntityId SerializedEntity) (now : Clocks) (s : WorldSnapshot)
        (counter : ℕ)
        → IsDiffableSnapshot s
        → (send_delta floats json order entities now s l.sender counter).0 ≡ ok tt
        → Step l
            (record l { sender = (send_delta floats json order entities now s l.sender counter).1 })
    is_refused :
        (l : Link T P) (order : HashOrder ComponentId SerializedComponent)
        (entities : HashOrder EntityId SerializedEntity) (now : Clocks) (s : WorldSnapshot)
        (counter : ℕ)
        → is_connected l.sender ≡ false
        → Step l
            (record l { sender = (send_delta floats json order entities now s l.sender counter).1 })
    repeats :
        (l : Link T P) (now : Clocks) (s base : WorldSnapshot) (counter : ℕ)
        → l.sender.delta_compressor.previous_snapshot ≡ some base
        → s.entities ≡ base.entities
        → Step l (record l { sender = (send_snapshot now s l.sender counter).1 })
    asks :
        (l : Link T P) (millis counter : ℕ)
        → Step l (record l { sender = (request_snapshot millis l.sender counter).1 })
    acknowledges :
        (l : Link T P) (id millis counter : ℕ)
        → Step l (record l { sender = (send_ack id millis l.sender counter).1 })
    pings :
        (l : Link T P) (millis counter : ℕ)
        → Step l (record l { sender = (ping millis l.sender counter).1 })
    receives :
        (l : Link T P) (millis counter : ℕ)
        → IsNoSnapshot (receive floats millis l.sender counter).0
        → Step l (record l { sender = (receive floats millis l.sender counter).1 })
    hears :
        (l : Link T P) (millis counter : ℕ) (message : Message) (rest : List Message)
        → on_their_way l ≡ message ∷ rest
        → Step l (record l {
          peer = (process_message floats millis message l.peer counter).1;
          processed = l.processed + 1;
          world =
              apply_event
                (content json f)
                (process_message floats millis message l.peer counter).0
                l.world;
        })
    acts : (l : Link T P) (peer : SyncManager P) → Step l (record l { peer = peer })

  pub data Reach (l : Link T P) : Link T P → Type 0 where
    here : Reach l l
    next : {m n : Link T P} → Reach l m → Step m n → Reach l n

  -- The snapshot of the last delta that succeeded.
  abbrev pub told : {l m : Link T P} → Step l m → Option WorldSnapshot → Option WorldSnapshot
  told (sends_delta l order entities now s counter h k) before = some s
  told _ before = before

  abbrev pub last_told : {l m : Link T P} → Reach l m → Option WorldSnapshot
  last_told here = none
  last_told (next r x) = told x (last_told r)

  -- What is on its way brings the peer to the world that the sender's compressor takes it to have.
  pub record IsInStep (l : Link T P) : Type 0 where
    pub compressing : l.sender.delta_compressor.field_compressor ≡ f
    pub base : IsDiffableBase l.sender.delta_compressor
    pub within : l.processed ≤ length (log.sent l.sender.transport)
    pub following :
        SameWorld
          (hear_messages (content json f) (on_their_way l) l.world)
          (assumed (content json f) l.sender.delta_compressor.previous_snapshot)
