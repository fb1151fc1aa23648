-- ===== src/Compression/Replay/Whole.antt =====
-- `compute_changes`: the delta between two snapshots, replayed on the world of the first.
use tx2_link.Common.{
  ◌≡◌, ◌≢◌, refl, Option, none, some, ◌++◌, ◌+◌, All-map, ◌*◌, map, arith, All, Option-cases, inl,
  inr,
}
use tx2_link.Common.Maps.{
  Map, get, contains_key, IsMap, for_each, replay_by, replay_by-append, replay_by-for_each,
  block_at, HashOrder, get-collect_All, collect-IsMap, =?_refl, =?_ne, string_key, nat_key,
}
use tx2_link.Protocol.{EntityId, ComponentId, ComponentData, SerializedComponent, SerializedEntity}
use tx2_link.Serialization.{WorldSnapshot}
use tx2_link.Compression.Json.{SerdeJson}
use tx2_link.Compression.Field.{FieldCompressor}
use tx2_link.Compression.Delta.{
  by_id, by_name, component_change, component_removal, compute_component_changes, entity_change,
  entity_removal, compute_changes,
}
use tx2_link.Compression.World.{
  Components, apply_at, map_some, components_of, view, replay, SameOption, SameComponents,
  SameWorld,
}
use tx2_link.Compression.Replay.Equal.{IsMapData}
use tx2_link.Compression.Replay.Json.{HasUniqueKeys, HasEquality}
use tx2_link.Compression.Replay.Content.{content, SameData-refl}
use tx2_link.Compression.Replay.Entity.{AreMaps, component_replay}
use tx2_link.Compression.Replay.Locality.{
  apply_at_ne, replay_by-touch, changes-OfComponent, All-entity_of,
}
use tx2_link.Compression.Replay.Added.{apply_at-push_entity, push_entity_skip}

-- The structured components of an entity, and of all entities of a snapshot, have each field once.
abbrev pub IsDiffableEntity : SerializedEntity → Type 0
IsDiffableEntity s = All (λ c. IsMapData c.payload) s.components

abbrev pub IsDiffableSnapshot : WorldSnapshot → Type 0
IsDiffableSnapshot s = All IsDiffableEntity s.entities

by_name-AreMaps : (s : SerializedEntity) → IsDiffableEntity s → AreMaps (by_name s.components)
unfolding by_name
by_name-AreMaps s h k c =
    get-collect_All (λ a. IsMapData a.payload) k c (map (λ a. (a.id, a)) s.components)
      (All-map (λ a. IsMapData a.1.payload) (λ a. (a.id, a)) s.components h)

by_id-IsDiffableEntity :
    (s : WorldSnapshot) (i : EntityId) (e : SerializedEntity)
    → IsDiffableSnapshot s
    → get i (by_id s.entities) ≡ some e
    → IsDiffableEntity e
unfolding by_id
by_id-IsDiffableEntity s i e h =
    get-collect_All IsDiffableEntity i e (map (λ a. (a.id, a)) s.entities)
      (All-map (λ a. IsDiffableEntity a.1) (λ a. (a.id, a)) s.entities h)

by_name-IsMap : (s : SerializedEntity) → IsMap (by_name s.components)
unfolding by_name
by_name-IsMap s = collect-IsMap (map (λ a. (a.id, a)) s.components)

by_id-IsMap : (s : WorldSnapshot) → IsMap (by_id s.entities)
unfolding by_id
by_id-IsMap s = collect-IsMap (map (λ a. (a.id, a)) s.entities)

pub SameComponents-refl : (f : Components) → SameComponents f f
SameComponents-refl f c = elim (Option-cases (f c)) [
  | inl p ↦ rw p tt
  | inr (d, p) ↦ rw p (SameData-refl d)
]

module _ (j : SerdeJson) (keys : HasUniqueKeys j) (eq : HasEquality j) (f : FieldCompressor)
    (order : HashOrder ComponentId SerializedComponent) where
  abbrev shown : ComponentData → ComponentData
  shown = content j f

  -- An entity that is in both snapshots.
  compute_component_changes-SameComponents :
      (e : EntityId) (b s : SerializedEntity)
      → IsDiffableEntity b
      → IsDiffableEntity s
      → SameOption SameComponents
          (replay_by
            (apply_at shown e)
            (compute_component_changes j f order e b s)
            (some (components_of shown b)))
          (some (components_of shown s))
  unfolding compute_component_changes components_of
  compute_component_changes-SameComponents e b s h g =
      let mb = by_name b.components in
      let ms = by_name s.components in
      let prev = order.arrange (2 * e) mb in
      let curr = order.arrange (2 * e + 1) ms in
      let ub = by_name-IsMap b in
      let us = by_name-IsMap s in
      rw
        (replay_by-touch shown e
          (for_each (component_change j f e prev) curr
            ++ for_each (component_removal j f e curr) prev)
          (components_of shown b) (changes-OfComponent j f e prev curr))
        (λ c.
          rw (← order.get-arrange (2 * e) c mb ub, ← order.get-arrange (2 * e + 1) c ms us)
            (component_replay j f e c prev curr keys eq
              (λ k a. rw (order.get-arrange (2 * e) k mb ub) (by_name-AreMaps b h k a))
              (λ k a. rw (order.get-arrange (2 * e + 1) k ms us) (by_name-AreMaps s g k a))
              (order.arrange-IsMap (2 * e) mb ub) (order.arrange-IsMap (2 * e + 1) ms us)))

  module _ (e : EntityId) (prev curr : Map EntityId SerializedEntity) where
    entity_change_skip :
        (i : EntityId) (s : SerializedEntity)
        → i ≢ e
        → (x : Option Components)
        → replay_by (apply_at shown e) (entity_change j f order prev (i, s)) x ≡ x
    unfolding entity_change compute_component_changes
    entity_change_skip i s n x = elim (Option-cases (get i prev)) [
      | inl p ↦ rw (entity_change, p) (push_entity_skip shown e i s n x)
      | inr (b, p) ↦
          let mb = order.arrange (2 * i) (by_name b.components) in
          let ms = order.arrange (2 * i + 1) (by_name s.components) in
          rw (entity_change, p)
            (apply_at_ne shown e i (compute_component_changes j f order i b s)
              (All-entity_of i (compute_component_changes j f order i b s)
                (changes-OfComponent j f i mb ms))
              n x)
    ]

    entity_removal_skip :
        (i : EntityId) (s : SerializedEntity)
        → i ≢ e
        → (x : Option Components)
        → replay_by (apply_at shown e) (entity_removal j f order curr (i, s)) x ≡ x
    unfolding entity_removal replay_by apply_at
    entity_removal_skip i s n x = ground (arith, =?_ne i e n)

    entity_kept :
        (s : SerializedEntity) (o : Option SerializedEntity) (x : Option Components)
        → get e curr ≡ some s
        → replay_by (apply_at shown e) (block_at (entity_removal j f order curr) e o) x ≡ x
    unfolding replay_by entity_removal contains_key
    entity_kept s none x p = refl
    entity_kept s (some b) x p = ground (arith, p)

    entity_gone :
        (o : Option SerializedEntity)
        → get e curr ≡ none
        → replay_by
            (apply_at shown e)
            (block_at (entity_removal j f order curr) e o)
            (map_some (components_of shown) o)
          ≡ none
    unfolding replay_by entity_removal contains_key apply_at
    entity_gone none p = refl
    entity_gone (some b) p = ground (arith, p, =?_refl e)

    nothing :
        (x : Option Components)
        → replay_by (apply_at shown e) (block_at (entity_change j f order prev) e none) x ≡ x
    unfolding replay_by
    nothing x = refl

    -- An entity that is in the current snapshot.
    entity_here :
        (s : SerializedEntity)
        → ((b : SerializedEntity) → get e prev ≡ some b → IsDiffableEntity b)
        → IsDiffableEntity s
        → SameOption SameComponents
            (replay_by
              (apply_at shown e)
              (entity_change j f order prev (e, s))
              (map_some (components_of shown) (get e prev)))
            (some (components_of shown s))
    unfolding entity_change
    entity_here s h g = elim (Option-cases (get e prev)) [
      | inl p ↦
          rw (entity_change, p, apply_at-push_entity shown e s none)
            (SameComponents-refl (components_of shown s))
      | inr (b, p) ↦
          rw (entity_change, p) (compute_component_changes-SameComponents e b s (h b p) g)
    ]

    entity_replay :
        ((b : SerializedEntity) → get e prev ≡ some b → IsDiffableEntity b)
        → ((s : SerializedEntity) → get e curr ≡ some s → IsDiffableEntity s)
        → IsMap prev
        → IsMap curr
        → SameOption SameComponents
            (replay_by
              (apply_at shown e)
              (for_each (entity_change j f order prev) curr
                ++ for_each (entity_removal j f order curr) prev)
              (map_some (components_of shown) (get e prev)))
            (map_some (components_of shown) (get e curr))
    entity_replay h g u v =
        rw
          (
            replay_by-append (apply_at shown e) (for_each (entity_change j f order prev) curr)
                (for_each (entity_removal j f order curr) prev)
                (map_some (components_of shown) (get e prev)),
            replay_by-for_each (entity_change j f order prev) (apply_at shown e) e
                entity_change_skip curr v (map_some (components_of shown) (get e prev)),
            replay_by-for_each (entity_removal j f order curr) (apply_at shown e) e
                entity_removal_skip prev u,
          )
          (elim (Option-cases (get e curr)) [
            | inl gone ↦ rw (gone, nothing, entity_gone (get e prev) gone) tt
            | inr (s, here) ↦
                rw (entity_kept s (get e prev) _ here, here) (entity_here s h (g s here))
          ])

  -- A receiver that replays the delta of two snapshots on the world of the first has the world of
  -- the second, up to a field that is gone and one that is `Null`, and up to the sign of zero. With
  -- field compression, a world shows the members of a JSON text that is an object. The maps'
  -- iteration orders do not matter. The snapshots' structured components have each field once; of
  -- the JSON parser, an object has each key once, and its values are equal only if their conversions
  -- are.
  pub replay-compute_changes :
      (entities : HashOrder EntityId SerializedEntity) (prev curr : WorldSnapshot)
      → IsDiffableSnapshot prev
      → IsDiffableSnapshot curr
      → SameWorld
          (replay shown (compute_changes j f order entities prev curr) (view shown prev))
          (view shown curr)
  unfolding replay compute_changes view
  replay-compute_changes entities prev curr h g e =
      let mp = by_id prev.entities in
      let mc = by_id curr.entities in
      let up = by_id-IsMap prev in
      let uc = by_id-IsMap curr in
      rw (← entities.get-arrange 0 e mp up, ← entities.get-arrange 1 e mc uc)
        (entity_replay e (entities.arrange 0 mp) (entities.arrange 1 mc)
          (λ b. rw (entities.get-arrange 0 e mp up) (by_id-IsDiffableEntity prev e b h))
          (λ s. rw (entities.get-arrange 1 e mc uc) (by_id-IsDiffableEntity curr e s g))
          (entities.arrange-IsMap 0 mp up) (entities.arrange-IsMap 1 mc uc))
