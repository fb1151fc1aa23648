-- ===== src/Sync/Faults.antt =====
-- What a call of `send` does on each of its branches, and what an error leaves behind.
use tx2_link.Common.{ℕ, ◌≡◌, refl, ap, subst, true, false, Option, none, some, List, [], ◌∷◌}
use tx2_link.Common.Maps.{HashOrder, string_key, nat_key}
use tx2_link.Error.{LinkError, connection_closed, Result, ok, err}
use tx2_link.Float.{FloatOps}
use tx2_link.Protocol.{
  EntityId, ComponentId, SerializedComponent, SerializedEntity, DeltaChange, Message,
}
use tx2_link.Protocol.Messages as Messages
use tx2_link.Serialization.{WorldSnapshot}
use tx2_link.Serialization as Wire
use tx2_link.Compression.Json.{SerdeJson}
use tx2_link.Compression.Delta.{DeltaCompressor, create_delta, changes_since, base_of}
use tx2_link.Transport.{Transport}
use tx2_link.Sync.{SyncMode, SyncManager, is_connected}
use tx2_link.Sync.Send.{Clocks, base_millis, count_attempt, post, send_changes, send_delta}
use tx2_link.Sync.Logged.{MessageLog, IsLogged, IsCounted, post-IsPosted}

module _ {T : Type 0} ⦃transport : Transport T⦄ where
  -- Manual mode does not look at the connection.
  abbrev pub IsOpenFor : SyncMode → SyncManager T → Type 0
  IsOpenFor SyncMode.manual m = Unit
  IsOpenFor _ m = is_connected m ≡ true

  abbrev pub IsShutFor : SyncMode → SyncManager T → Type 0
  IsShutFor SyncMode.manual m = ⊥
  IsShutFor _ m = is_connected m ≡ false

-- The compressor after a call that was not refused: that of a delta has the snapshot for its base.
abbrev pub base_after : SyncMode → WorldSnapshot → DeltaCompressor → DeltaCompressor
base_after SyncMode.delta s c = record c { previous_snapshot = some s }
base_after _ s c = c

-- The message of some changes, with the message counter after it; no changes need none.
abbrev pub due_changes : (base version millis counter : ℕ) → List DeltaChange → Option (Message × ℕ)
due_changes base version millis counter [] = none
due_changes base version millis counter (c ∷ cs) =
    some (Messages.delta (c ∷ cs) base version millis counter)

module _ {T : Type 0} ⦃transport : Transport T⦄ (log : MessageLog T) where
  -- What was due, if anything, was posted: the message is in the log and counted if the result is a
  -- success, and neither if it is not; the counter has moved on. Where nothing was due nothing but
  -- the compressor has changed.
  abbrev pub IsDone :
      Clocks
      → DeltaCompressor
      → SyncManager T
      → ℕ
      → Option (Message × ℕ)
      → Result (Unit {0}) × SyncManager T × ℕ
      → Type 0
  IsDone now c m counter none p = p ≡ (ok tt, record m { delta_compressor = c }, counter)
  IsDone now c m counter (some (message, next)) (r, m', counter') =
      IsLogged log.sent message m.transport (r, m'.transport)
      × (m'.delta_compressor ≡ c)
      × IsCounted now m r m'
      × (counter' ≡ next)

  module _ (floats : FloatOps) (json : SerdeJson)
      (order : HashOrder ComponentId SerializedComponent)
      (entities : HashOrder EntityId SerializedEntity) where
    -- The message that a call has to send: in full mode the snapshot, in delta mode the changes since
    -- the compressor's base, if there are any, and in manual mode none.
    abbrev pub due : SyncMode → Clocks → WorldSnapshot → SyncManager T → ℕ → Option (Message × ℕ)
    due SyncMode.full now s m counter =
        some (Messages.snapshot s.entities s.timestamp m.schema_version now.millis counter)
    due SyncMode.delta now s m counter =
        let c = m.delta_compressor in
        due_changes (base_millis floats (base_of json order entities c.previous_snapshot))
          m.schema_version now.millis counter
          (changes_since json order entities c.field_compressor c.previous_snapshot s)
    due SyncMode.manual now s m counter = none

    -- A call does what is due, or is refused since there is no connection.
    pub data IsOutcome (mode : SyncMode) (now : Clocks) (s : WorldSnapshot) (m : SyncManager T)
        (counter : ℕ) (p : Result (Unit {0}) × SyncManager T × ℕ) : Type 0 where
      done :
          IsOpenFor mode m
          → IsDone now (base_after mode s m.delta_compressor) m counter (due mode now s m counter) p
          → IsOutcome mode now s m counter p
      refused :
          IsShutFor mode m
          → p ≡ (err connection_closed, count_attempt m, counter)
          → IsOutcome mode now s m counter p

    -- The compressor after `send_delta` on a connected transport, whatever the result.
    changes_kept :
        (now : Clocks) (delta : Wire.Delta) (changes : List DeltaChange) (m : SyncManager T)
        (counter : ℕ)
        → (send_changes floats json order entities now delta changes m counter).1.delta_compressor
          ≡ m.delta_compressor
    unfolding send_changes
    changes_kept now delta [] m counter = refl
    changes_kept now delta (c ∷ cs) m counter =
        (post-IsPosted log now
          (Messages.delta (c ∷ cs) (base_millis floats delta.base_timestamp) m.schema_version
            now.millis counter).0
          m).1

    -- An error leaves the log as it was.
    log_kept :
        (now : Clocks) (delta : Wire.Delta) (changes : List DeltaChange) (m : SyncManager T)
        (counter : ℕ) (e : LinkError)
        → (send_changes floats json order entities now delta changes m counter).0 ≡ err e
        → log.sent (send_changes floats json order entities now delta changes m counter).1.transport
          ≡ log.sent m.transport
    unfolding send_changes
    log_kept now delta [] m counter e failed = refl
    log_kept now delta (c ∷ cs) m counter e failed =
        let message =
          (Messages.delta (c ∷ cs) (base_millis floats delta.base_timestamp) m.schema_version
            now.millis counter).0 in
        subst (λ r. IsLogged log.sent message m.transport (r, (post now message m).1.transport))
          failed (post-IsPosted log now message m).0

    -- If `send_delta` fails on a connected transport, at the limiter or in the transport, the changes
    -- are lost: nothing is in the log, and yet the compressor takes the snapshot for the base of the
    -- next delta.
    pub send_delta_loses :
        (now : Clocks) (s : WorldSnapshot) (m : SyncManager T) (counter : ℕ) (e : LinkError)
        → is_connected m ≡ true
        → (send_delta floats json order entities now s m counter).0 ≡ err e
        → (let after = (send_delta floats json order entities now s m counter).1 in
            (log.sent after.transport ≡ log.sent m.transport)
            × (after.delta_compressor.previous_snapshot ≡ some s))
    unfolding send_delta create_delta
    send_delta_loses now s m counter e on failed =
        let (delta, c) = create_delta json order entities s m.delta_compressor in
        let m' = record m { delta_compressor = c } in
        let failed' : (send_changes floats json order entities now delta delta.changes m' counter).0
            ≡ err e =
          rw (send_delta, on) at failed in
        rw (send_delta, on)
          (
            log_kept now delta delta.changes m' counter e failed',
            ap (λ z. z.previous_snapshot) (changes_kept now delta delta.changes m' counter),
          )
