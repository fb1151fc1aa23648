-- ===== src/Sync/Follow.antt =====
-- A peer that hears every message follows the sender: the deltas that are sent, and those that are
-- not because they are empty.
use tx2_link.Common.{ℕ, ◌≡◌, sym, subst, ap, ◌∙◌, some, some_inj, List, [], ◌∷◌, map, arith, All}
use tx2_link.Common.Maps.{HashOrder, string_key, nat_key}
use tx2_link.Error.{Result, ok}
use tx2_link.Float.{FloatOps}
use tx2_link.Protocol.{EntityId, ComponentId, ComponentData, SerializedComponent, SerializedEntity}
use tx2_link.Serialization.{WorldSnapshot}
use tx2_link.Compression.Json.{SerdeJson}
use tx2_link.Compression.Field.{with_enabled}
use tx2_link.Compression.Delta.{DeltaCompressor}
use tx2_link.Compression.World.{World, nowhere, view, SameWorld}
use tx2_link.Compression.Replay.Json.{HasUniqueKeys, HasEquality}
use tx2_link.Compression.Replay.Content.{content}
use tx2_link.Compression.Replay.Whole.{IsDiffableSnapshot}
use tx2_link.Compression.Replay.Follow.{
  assumed, last, IsDiffableBase, changes_since-SameWorld, SameWorld-refl,
}
use tx2_link.Transport.{Transport}
use tx2_link.Sync.{SyncConfig, SyncManager, new}
use tx2_link.Sync.Hears.{hear}
use tx2_link.Sync.Said.{send_delta-IsSaid, IsSaid-heard}
use tx2_link.Sync.Send.{Clocks, send_delta}
use tx2_link.Sync.Logged.{MessageLog}

module _ {T : Type 0} ⦃transport : Transport T⦄ (floats : FloatOps) (json : SerdeJson)
    (order : HashOrder ComponentId SerializedComponent)
    (entities : HashOrder EntityId SerializedEntity) where
  -- A manager sends the delta of each snapshot in turn.
  unfoldable pub send_deltas :
      List (Clocks × WorldSnapshot)
      → SyncManager T
      → ℕ
      → List (Result (Unit {0})) × SyncManager T × ℕ
  unfolding send_delta
  send_deltas [] m counter = ([], m, counter)
  send_deltas ((now, s) ∷ turns) m counter =
      let (r, m', counter') = send_delta floats json order entities now s m counter in
      let (rs, after, last_counter) = send_deltas turns m' counter' in (r ∷ rs, after, last_counter)

module _ {T : Type 0} ⦃transport : Transport T⦄ (log : MessageLog T) where
  module _ (floats : FloatOps) (json : SerdeJson) (keys : HasUniqueKeys json)
      (eq : HasEquality json) (order : HashOrder ComponentId SerializedComponent)
      (entities : HashOrder EntityId SerializedEntity) where
    module _ {P : Type 0} ⦃line : Transport P⦄ (millis : ℕ) (peer : SyncManager P)
        (number : ℕ) where
      abbrev heard : (ComponentData → ComponentData) → SyncManager T → World
      heard shown m = hear shown floats millis (log.sent m.transport) peer number nowhere

      -- What the peer of a manager keeps: its compressor says whether fields are sent.
      abbrev kept_of : SyncManager T → ComponentData → ComponentData
      kept_of m = content json m.delta_compressor.field_compressor

      -- What a delta leaves behind if it succeeds: the peer has the world of the snapshot, and the
      -- compressor takes it to have that.
      send_delta-heard :
          (now : Clocks) (s : WorldSnapshot) (m : SyncManager T) (counter : ℕ)
          → IsDiffableBase m.delta_compressor
          → IsDiffableSnapshot s
          → (send_delta floats json order entities now s m counter).0 ≡ ok tt
          → SameWorld
              (heard (kept_of m) m)
              (assumed (kept_of m) m.delta_compressor.previous_snapshot)
          → (let after = (send_delta floats json order entities now s m counter).1 in
              SameWorld (heard (kept_of m) after) (view (kept_of m) s)
              × (after.delta_compressor
                  ≡ record (m.delta_compressor) { previous_snapshot = some s }))
      send_delta-heard now s m counter d h k w =
          let c = m.delta_compressor in
          let said = send_delta-IsSaid log floats json order entities now s m counter k in
          rw (IsSaid-heard log floats millis said (kept_of m) peer number nowhere) (
            changes_since-SameWorld json keys eq order entities c c.previous_snapshot s
                (heard (kept_of m) m) d h w,
            said.compressor,
          )

      send_deltas-heard :
          (turn : Clocks × WorldSnapshot) (turns : List (Clocks × WorldSnapshot))
          (m : SyncManager T) (counter : ℕ)
          → IsDiffableBase m.delta_compressor
          → All (λ t. IsDiffableSnapshot t.1) (turn ∷ turns)
          → All (λ r. r ≡ ok tt) (send_deltas floats json order entities (turn ∷ turns) m counter).0
          → SameWorld
              (heard (kept_of m) m)
              (assumed (kept_of m) m.delta_compressor.previous_snapshot)
          → SameWorld
              (heard
                (kept_of m)
                (send_deltas floats json order entities (turn ∷ turns) m counter).1)
              (view (kept_of m) (last turn.1 (map (λ t. t.1) turns)))
      unfolding send_deltas
      send_deltas-heard (now, s) [] m counter d h k w =
          (send_delta-heard now s m counter d h.0 k.0 w).0
      send_deltas-heard (now, s) (turn ∷ turns) m counter d h k w =
          let (sent_now, m', counter') = send_delta floats json order entities now s m counter in
          let c = m.delta_compressor in
          let (same, e) = send_delta-heard now s m counter d h.0 k.0 w in
          let after = (send_deltas floats json order entities (turn ∷ turns) m' counter').1 in
          let rest =
            send_deltas-heard turn turns m' counter'
              (λ p q.
                subst IsDiffableSnapshot (some_inj.0 (ap (λ z. z.previous_snapshot) (sym e) ∙ q))
                  h.0)
              h.1 k.1 (rw e same) in
          subst
            (λ (z : DeltaCompressor).
              SameWorld (heard (content json z.field_compressor) after)
                (view (content json z.field_compressor) (last turn.1 (map (λ t. t.1) turns))))
            e rest

      -- A peer that hears, in order, all that a new manager has sent over a transport with an empty
      -- log, and takes over each event, has the world of the last snapshot, if each `send_delta`
      -- succeeded; the empty deltas, which are not sent, are not missed. Up to `Null` for a field that
      -- is gone and the `==` of values; with field compression, a world shows the members of a JSON
      -- text that is an object. The structured components have each field once; of the JSON parser, an
      -- object has each key once, and its values are equal only if their conversions are.
      pub send_deltas-SameWorld :
          (t : T) (config : SyncConfig) (turn : Clocks × WorldSnapshot)
          (turns : List (Clocks × WorldSnapshot)) (counter : ℕ)
          → log.sent t ≡ []
          → All (λ a. IsDiffableSnapshot a.1) (turn ∷ turns)
          → All
              (λ r. r ≡ ok tt)
              (send_deltas floats json order entities (turn ∷ turns) (new t config) counter).0
          → SameWorld
              (hear
                (content json (with_enabled config.enable_field_compression))
                floats
                millis
                (log.sent
                  (send_deltas floats json order entities
                    (turn ∷ turns)
                    (new t config)
                    counter).1.transport)
                peer
                number
                nowhere)
              (view
                (content json (with_enabled config.enable_field_compression))
                (last turn.1 (map (λ a. a.1) turns)))
      unfolding new hear
      send_deltas-SameWorld t config turn turns counter empty h k =
          send_deltas-heard turn turns (new t config) counter (λ p e. absurd (ground arith)) h k
            (rw empty (SameWorld-refl nowhere))
