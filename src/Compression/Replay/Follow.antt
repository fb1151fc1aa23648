-- ===== src/Compression/Replay/Follow.antt =====
-- A receiver that replays every delta of a compressor, over any run of snapshots.
use tx2_link.Common.{
  ◌≡◌, refl, arith, Option, none, some, some_inj, List, [], ◌∷◌, All, Option-cases, inl, inr, subst,
  Bool,
}
use tx2_link.Common.Maps.{HashOrder, string_key, nat_key}
use tx2_link.Protocol.{EntityId, ComponentId, ComponentData, SerializedComponent, SerializedEntity}
use tx2_link.Serialization.{WorldSnapshot}
use tx2_link.Compression.Json.{SerdeJson}
use tx2_link.Compression.Delta.{
  DeltaCompressor, with_field_compression, changes_since, create_delta, create_initial_delta,
  compute_changes,
}
use tx2_link.Compression.Field.{with_enabled}
use tx2_link.Compression.World.{World, nowhere, view, replay, SameWorld}
use tx2_link.Compression.Replay.Json.{HasUniqueKeys, HasEquality}
use tx2_link.Compression.Replay.Content.{content}
use tx2_link.Compression.Replay.Added.{replay-create_initial_delta}
use tx2_link.Compression.Replay.Whole.{
  IsDiffableSnapshot, SameComponents-refl, replay-compute_changes,
}
use tx2_link.Compression.Replay.Congruence.{SameWorld-trans, replay_cong}

pub SameWorld-refl : (w : World) → SameWorld w w
SameWorld-refl w e = elim (Option-cases (w e)) [
  | inl p ↦ rw p tt
  | inr (f, p) ↦ rw p (SameComponents-refl f)
]

-- The world that a compressor takes the receiver to have.
abbrev pub assumed : (ComponentData → ComponentData) → Option WorldSnapshot → World
assumed shown none = nowhere
assumed shown (some s) = view shown s

abbrev pub last : WorldSnapshot → List WorldSnapshot → WorldSnapshot
last s [] = s
last s (t ∷ ss) = last t ss

abbrev pub IsDiffableBase : DeltaCompressor → Type 0
IsDiffableBase c = (s : WorldSnapshot) → c.previous_snapshot ≡ some s → IsDiffableSnapshot s

module _ (j : SerdeJson) (order : HashOrder ComponentId SerializedComponent)
    (entities : HashOrder EntityId SerializedEntity) where
  -- The sender compresses the snapshots one after the other; the receiver replays each delta.
  unfoldable pub follow : List WorldSnapshot → DeltaCompressor → World → World
  unfolding create_delta replay
  follow [] c w = w
  follow (s ∷ ss) c w =
      let (delta, after) = create_delta j order entities s c in
      follow ss after (replay (content j c.field_compressor) delta.changes w)

module _ (j : SerdeJson) (keys : HasUniqueKeys j) (eq : HasEquality j)
    (order : HashOrder ComponentId SerializedComponent)
    (entities : HashOrder EntityId SerializedEntity) where
  -- What a receiver of a compressor shows.
  abbrev shows : DeltaCompressor → ComponentData → ComponentData
  shows c = content j c.field_compressor

  pub changes_since-SameWorld :
      (c : DeltaCompressor) (o : Option WorldSnapshot) (s : WorldSnapshot) (w : World)
      → ((p : WorldSnapshot) → o ≡ some p → IsDiffableSnapshot p)
      → IsDiffableSnapshot s
      → SameWorld w (assumed (shows c) o)
      → SameWorld
          (replay (shows c) (changes_since j order entities c.field_compressor o s) w)
          (view (shows c) s)
  unfolding changes_since
  changes_since-SameWorld c none s w d h q =
      rw (← replay-create_initial_delta (shows c) s)
        (replay_cong (shows c) (create_initial_delta s) w nowhere q)
  changes_since-SameWorld c (some p) s w d h q =
      let cs = compute_changes j c.field_compressor order entities p s in
      SameWorld-trans (replay (shows c) cs w) (replay (shows c) cs (view (shows c) p))
        (view (shows c) s) (replay_cong (shows c) cs w (view (shows c) p) q)
        (replay-compute_changes j keys eq c.field_compressor order entities p s (d p refl) h)

  follow-SameWorld :
      (c : DeltaCompressor) (s : WorldSnapshot) (ss : List WorldSnapshot) (w : World)
      → IsDiffableBase c
      → All IsDiffableSnapshot (s ∷ ss)
      → SameWorld w (assumed (shows c) c.previous_snapshot)
      → SameWorld (follow j order entities (s ∷ ss) c w) (view (shows c) (last s ss))
  unfolding follow create_delta
  follow-SameWorld c s [] w d h q = changes_since-SameWorld c c.previous_snapshot s w d h.0 q
  follow-SameWorld c s (t ∷ ss) w d h q =
      follow-SameWorld (record c { previous_snapshot = some s }) t ss
        (replay (shows c) (changes_since j order entities c.field_compressor c.previous_snapshot s)
          w)
        (λ p e. subst IsDiffableSnapshot (some_inj.0 e) h.0) h.1
        (changes_since-SameWorld c c.previous_snapshot s w d h.0 q)

  -- A receiver that starts with the empty world and replays every delta of a new compressor has, after
  -- any run of snapshots, the world of the last one, up to `Null` for a field that is gone and the
  -- `==` of values: nothing is lost on the way and no difference adds up. With field compression, a
  -- world shows the members of a JSON text that is an object. The snapshots' structured components
  -- have each field once; of the JSON parser, an object has each key once, and its values are equal
  -- only if their conversions are.
  pub follow-with_field_compression :
      (enable : Bool) (s : WorldSnapshot) (ss : List WorldSnapshot)
      → All IsDiffableSnapshot (s ∷ ss)
      → SameWorld
          (follow j order entities (s ∷ ss) (with_field_compression enable) nowhere)
          (view (content j (with_enabled enable)) (last s ss))
  follow-with_field_compression enable s ss h =
      follow-SameWorld (with_field_compression enable) s ss nowhere (λ p e. absurd (ground arith)) h
        (SameWorld-refl nowhere)
