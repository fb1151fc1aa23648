-- ===== src/Sync/Send.antt =====
-- The sending methods of `SyncManager`. A step takes the clocks that it reads, and passes the
-- process-wide message counter in and out.
use tx2_link.Common.{ℕ, ltb, not, ◌&&◌, none, some, List, [], ◌∷◌, if◌then◌else◌, add32, add64}
use tx2_link.Common.Maps.{HashOrder, string_key, nat_key}
use tx2_link.Error.{connection_closed, Result, ok, err}
use tx2_link.Float.{FloatOps}
use tx2_link.Protocol.{
  EntityId, ComponentId, SerializedComponent, SerializedEntity, DeltaChange, Message,
}
use tx2_link.Protocol.Messages as Messages
use tx2_link.Serialization.{WorldSnapshot}
use tx2_link.Serialization as Wire
use tx2_link.RateLimit.Window.{Instant, check_and_record}
use tx2_link.Compression.Json.{SerdeJson}
use tx2_link.Compression.Delta.{create_delta}
use tx2_link.Transport.{Transport}
use tx2_link.Sync.{SyncMode, SyncManager, is_connected}

-- The system time in milliseconds, and the two instants that are read after it.
pub record Clocks : Type 0 where
  pub millis : ℕ
  pub at_limiter : Instant
  pub at_sync : Instant

-- `estimated_size`
abbrev pub estimated_size : ℕ
estimated_size = 1024

-- `(base_timestamp * 1000.0) as u64`
unfoldable pub base_millis : FloatOps → ℕ → ℕ
base_millis floats base_timestamp = floats.to_u64 (floats.mul base_timestamp (floats.of_nat 1000))

module _ {T : Type 0} ⦃transport : Transport T⦄ where
  -- The early return of both sending methods where the transport is not connected.
  unfoldable pub count_attempt : SyncManager T → SyncManager T
  count_attempt m =
      if m.config.auto_reconnect && ltb m.reconnect_attempts m.config.max_reconnect_attempts
      then record m { reconnect_attempts = add32 m.reconnect_attempts 1 }
      else m

  unfoldable pub limit : Instant → SyncManager T → Result (Unit {0}) × SyncManager T
  unfolding check_and_record
  limit now m = elim m.rate_limiter [
    | none ↦ (ok tt, m)
    | some limiter ↦
        let (r, limiter') = check_and_record now estimated_size limiter in
        (r, record m { rate_limiter = some limiter' })
  ]

  -- `self.transport.send(&message)?`
  unfoldable pub transmit : Message → SyncManager T → Result (Unit {0}) × SyncManager T
  transmit message m =
      let (r, t) = transport.send message m.transport in (r, record m { transport = t })

  -- What is counted once a message has been sent.
  abbrev pub count_sync : Instant → Result (Unit {0}) → SyncManager T → SyncManager T
  count_sync now (ok u) m = record m {
    last_sync = some now;
    sync_count = add64 m.sync_count 1;
    reconnect_attempts = 0;
  }
  count_sync now (err e) m = m

  unfoldable pub after_limit :
      Clocks → Message → Result (Unit {0}) → SyncManager T → Result (Unit {0}) × SyncManager T
  unfolding transmit
  after_limit now message (err e) m = (err e, m)
  after_limit now message (ok u) m =
      let (r, m') = transmit message m in (r, count_sync now.at_sync r m')

  -- The common end of both sending methods: the limiter, then the transport, then the counts.
  unfoldable pub post : Clocks → Message → SyncManager T → Result (Unit {0}) × SyncManager T
  unfolding limit after_limit
  post now message m = let (r, m') = limit now.at_limiter m in after_limit now message r m'

  unfoldable pub send_snapshot :
      Clocks → WorldSnapshot → SyncManager T → ℕ → Result (Unit {0}) × SyncManager T × ℕ
  unfolding count_attempt post
  send_snapshot now snapshot m counter =
      if not (is_connected m)
      then (err connection_closed, count_attempt m, counter)
      else let (message, counter') =
          Messages.snapshot snapshot.entities snapshot.timestamp m.schema_version now.millis
            counter in
        let (r, m') = post now message m in (r, m', counter')

  module _ (floats : FloatOps) (json : SerdeJson)
      (order : HashOrder ComponentId SerializedComponent)
      (entities : HashOrder EntityId SerializedEntity) where
    -- What is done with a delta: an empty one is not sent.
    unfoldable pub send_changes :
        Clocks
        → Wire.Delta
        → List DeltaChange
        → SyncManager T
        → ℕ
        → Result (Unit {0}) × SyncManager T × ℕ
    unfolding post base_millis
    send_changes now delta [] m counter = (ok tt, m, counter)
    send_changes now delta (c ∷ cs) m counter =
        let (message, counter') =
          Messages.delta (c ∷ cs) (base_millis floats delta.base_timestamp) m.schema_version
            now.millis counter in
        let (r, m') = post now message m in (r, m', counter')

    unfoldable pub send_delta :
        Clocks → WorldSnapshot → SyncManager T → ℕ → Result (Unit {0}) × SyncManager T × ℕ
    unfolding count_attempt create_delta send_changes
    send_delta now snapshot m counter =
        if not (is_connected m)
        then (err connection_closed, count_attempt m, counter)
        else let (delta, compressor) =
            create_delta json order entities snapshot m.delta_compressor in
          send_changes now delta delta.changes (record m { delta_compressor = compressor }) counter

    unfoldable pub send_as :
        SyncMode
        → Clocks
        → WorldSnapshot
        → SyncManager T
        → ℕ
        → Result (Unit {0}) × SyncManager T × ℕ
    unfolding send_snapshot send_delta
    send_as SyncMode.full now snapshot m counter = send_snapshot now snapshot m counter
    send_as SyncMode.delta now snapshot m counter = send_delta now snapshot m counter
    send_as SyncMode.manual now snapshot m counter = (ok tt, m, counter)

    unfoldable pub send :
        Clocks → WorldSnapshot → SyncManager T → ℕ → Result (Unit {0}) × SyncManager T × ℕ
    unfolding send_as
    send now snapshot m counter = send_as m.config.mode now snapshot m counter

  -- The messages that no limiter stands before.
  unfoldable pub transmit_made : Message × ℕ → SyncManager T → Result (Unit {0}) × SyncManager T × ℕ
  unfolding transmit
  transmit_made (message, counter) m = let (r, m') = transmit message m in (r, m', counter)

  unfoldable pub request_snapshot : ℕ → SyncManager T → ℕ → Result (Unit {0}) × SyncManager T × ℕ
  unfolding transmit_made
  request_snapshot millis m counter =
      transmit_made (Messages.request_snapshot m.schema_version millis counter) m

  unfoldable pub send_ack : ℕ → ℕ → SyncManager T → ℕ → Result (Unit {0}) × SyncManager T × ℕ
  unfolding transmit_made
  send_ack message_id millis m counter =
      transmit_made (Messages.ack message_id m.schema_version millis counter) m

  unfoldable pub ping : ℕ → SyncManager T → ℕ → Result (Unit {0}) × SyncManager T × ℕ
  unfolding transmit_made
  ping millis m counter = transmit_made (Messages.ping m.schema_version millis counter) m
