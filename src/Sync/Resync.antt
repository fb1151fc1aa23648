-- ===== src/Sync/Resync.antt =====
-- Snapshots among deltas: what a snapshot mends, and what it leaves wrong.
use tx2_link.Common.{
  ℕ, ◌≡◌, refl, ap, ◌∙◌, true, some, [], ◌∷◌, ◌++◌, All, Bool-cases, inl, inr, arith,
}
use tx2_link.Common.Maps.{HashOrder, string_key, nat_key}
use tx2_link.Error.{ok}
use tx2_link.Float.{FloatOps}
use tx2_link.Protocol.{EntityId, ComponentId, ComponentData, SerializedComponent, SerializedEntity}
use tx2_link.Protocol.Messages as Messages
use tx2_link.Serialization.{WorldSnapshot}
use tx2_link.Compression.Json.{SerdeJson}
use tx2_link.Compression.Delta.{create_delta, changes_since}
use tx2_link.Compression.World.{World, view}
use tx2_link.Compression.Unchanged.{IsReflexiveEntity, compute_changes_unchanged}
use tx2_link.Transport.{Transport}
use tx2_link.Sync.{SyncManager, is_connected}
use tx2_link.Sync.Send.{Clocks, post, send_snapshot, send_changes, send_delta}
use tx2_link.Sync.Logged.{MessageLog, post-IsPosted, posted_ok}
use tx2_link.Sync.Hears.{hear, hear_messages-append, hear-hear_messages, hear-snapshot}

module _ {T : Type 0} ⦃transport : Transport T⦄ (log : MessageLog T) where
  -- A snapshot that is sent, and the compressor that does not learn of it.
  sends_snapshot :
      (now : Clocks) (s : WorldSnapshot) (m : SyncManager T) (counter : ℕ)
      → (send_snapshot now s m counter).0 ≡ ok tt
      → (let after = (send_snapshot now s m counter).1 in
          ((version : ℕ) × (log.sent after.transport
              ≡ log.sent m.transport
                ++ (Messages.snapshot s.entities s.timestamp version now.millis counter).0 ∷ []))
          × (after.delta_compressor ≡ m.delta_compressor))
  unfolding send_snapshot
  sends_snapshot now s m counter h = elim (Bool-cases (is_connected m)) [
    | inl on ↦
        let message =
          (Messages.snapshot s.entities s.timestamp m.schema_version now.millis counter).0 in
        let (e, q) =
          posted_ok log now message m (post now message m) (post-IsPosted log now message m)
            (rw (send_snapshot, on) at h) in
        rw (send_snapshot, on) ((m.schema_version, e), q)
    | inr off ↦ absurd (ground (arith, rw (send_snapshot, off) at h))
  ]

  module _ {P : Type 0} ⦃line : Transport P⦄ (shown : ComponentData → ComponentData)
      (floats : FloatOps) (millis : ℕ) (peer : SyncManager P) (number : ℕ) (start : World) where
    abbrev heard : SyncManager T → World
    heard m = hear shown floats millis (log.sent m.transport) peer number start

    -- A snapshot mends whatever was lost before it: a peer that hears all that was sent has, after a
    -- `send_snapshot` that succeeds, exactly the world of that snapshot, from whatever world the peer
    -- started, and whatever the manager has sent or failed to send before.
    pub send_snapshot_recovers :
        (now : Clocks) (s : WorldSnapshot) (m : SyncManager T) (counter : ℕ)
        → (send_snapshot now s m counter).0 ≡ ok tt
        → heard (send_snapshot now s m counter).1 ≡ view shown s
    send_snapshot_recovers now s m counter h =
        let ((version, e), q) = sends_snapshot now s m counter h in
        ap (λ ms. hear shown floats millis ms peer number start) e
        ∙ hear-hear_messages shown floats millis _ peer number start
        ∙ hear_messages-append shown (log.sent m.transport) _ start
        ∙ hear-snapshot shown s version now.millis counter _

module _ {T : Type 0} ⦃transport : Transport T⦄ (floats : FloatOps) (json : SerdeJson)
    (order : HashOrder ComponentId SerializedComponent)
    (entities : HashOrder EntityId SerializedEntity) where
  changes_unchanged :
      (now : Clocks) (a c : WorldSnapshot) (m : SyncManager T)
      → m.delta_compressor.previous_snapshot ≡ some a
      → a.entities ≡ c.entities
      → All IsReflexiveEntity c.entities
      → (create_delta json order entities c m.delta_compressor).0.changes ≡ []
  unfolding create_delta changes_since
  changes_unchanged now a c m p e r =
      rw (changes_since, p)
        (compute_changes_unchanged json m.delta_compressor.field_compressor order entities a c e r)

  -- On a connected transport the delta of a world that has not changed is a success, sends nothing,
  -- uses up no message number, and changes nothing but the compressor.
  send_delta_unchanged :
      (now : Clocks) (a c : WorldSnapshot) (m : SyncManager T) (counter : ℕ)
      → is_connected m ≡ true
      → m.delta_compressor.previous_snapshot ≡ some a
      → a.entities ≡ c.entities
      → All IsReflexiveEntity c.entities
      → send_delta floats json order entities now c m counter ≡ (
        ok tt,
        record m { delta_compressor = record (m.delta_compressor) { previous_snapshot = some c } },
        counter,
      )
  unfolding send_delta create_delta send_changes
  send_delta_unchanged now a c m counter on p e r =
      rw (send_delta, on, changes_unchanged now a c m p e r) refl

module _ {T : Type 0} ⦃transport : Transport T⦄ (log : MessageLog T) (floats : FloatOps)
    (json : SerdeJson) (order : HashOrder ComponentId SerializedComponent)
    (entities : HashOrder EntityId SerializedEntity) {P : Type 0} ⦃line : Transport P⦄
    (shown : ComponentData → ComponentData) (millis : ℕ) (peer : SyncManager P) (number : ℕ)
    (start : World) where
  -- A snapshot between deltas can leave the peer behind for good. The last delta was of the entities
  -- of `a`; `send_snapshot` sends `b`; the world goes back to the entities of `a`, whose components
  -- are equal to themselves by `==`. Then `send_delta` succeeds and sends nothing, since its base is
  -- still `a`: the transport is not touched, no message number is used, nothing is counted, and only
  -- the compressor's base changes, to `c`; a peer that has heard all has the world of `b`. The
  -- transport is connected.
  pub send_snapshot_strands :
      (now next : Clocks) (a b c : WorldSnapshot) (m : SyncManager T) (counter : ℕ)
      → m.delta_compressor.previous_snapshot ≡ some a
      → a.entities ≡ c.entities
      → All IsReflexiveEntity c.entities
      → (send_snapshot now b m counter).0 ≡ ok tt
      → is_connected (send_snapshot now b m counter).1 ≡ true
      → (let (r, m', counter') = send_snapshot now b m counter in
          let (r', m'', counter'') = send_delta floats json order entities next c m' counter' in
          (r' ≡ ok tt)
          × (m'' ≡ record m' {
            delta_compressor = record (m'.delta_compressor) { previous_snapshot = some c };
          })
          × (counter'' ≡ counter')
          × (hear shown floats millis (log.sent m''.transport) peer number start ≡ view shown b))
  send_snapshot_strands now next a b c m counter p e r h on =
      let (result, m', counter') = send_snapshot now b m counter in
      let (s, q) = sends_snapshot log now b m counter h in
      let quiet =
        send_delta_unchanged floats json order entities next a c m' counter' on
          (ap (λ z. z.previous_snapshot) q ∙ p) e r in
      rw quiet (
        refl,
        refl,
        refl,
        send_snapshot_recovers log shown floats millis peer number start now b m counter h,
      )
