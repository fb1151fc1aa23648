-- ===== src/Compression/Granular.antt =====
-- When the compressor sends fields in place of a component.
use tx2_link.Common.{
  ◌≡◌, ◌≢◌, refl, Bool, true, false, Option, none, some, List, [], ◌∷◌, ◌++◌, ◌+◌, ◌*◌, All,
  Bool-cases, Option-cases, inl, inr,
}
use tx2_link.Common.Maps.{Map, get, contains_key, for_each, HashOrder, string_key, nat_key}
use tx2_link.Protocol.{
  EntityId, ComponentId, FieldDelta, SerializedComponent, SerializedEntity, DeltaChange,
  entity_added, fields_updated,
}
use tx2_link.Serialization.{WorldSnapshot}
use tx2_link.Compression.Json.{SerdeJson}
use tx2_link.Compression.Field.{FieldCompressor, compute_field_deltas, components_equal}
use tx2_link.Compression.Delta.{
  by_id, by_name, push_added, push_entity, updated_change, component_change, component_removal,
  compute_component_changes, entity_change, entity_removal, compute_changes,
}
use tx2_link.Compression.Replay.Locality.{All-append, All-for_each}

-- Field deltas are sent with field compression only, and never without any.
abbrev pub IsGranular : FieldCompressor → DeltaChange → Type 0
IsGranular f (fields_updated e k ds) = (f.enabled ≡ true) × (ds ≢ [])
IsGranular f (entity_added e) = Unit
IsGranular f _ = Unit

-- Two loops, one after the other.
All-loops :
    {A B : Type 0} (f : FieldCompressor) (g : A → List DeltaChange) (h : B → List DeltaChange)
    → ((a : A) → All (IsGranular f) (g a))
    → ((b : B) → All (IsGranular f) (h b))
    → (l : List A) (m : List B) → All (IsGranular f) (for_each g l ++ for_each h m)
All-loops f g h u v l m =
    All-append (IsGranular f) (for_each g l) (for_each h m) (All-for_each (IsGranular f) g u l)
      (All-for_each (IsGranular f) h v m)

module _ (j : SerdeJson) (f : FieldCompressor) where
  updated_change-IsGranular :
      (e : EntityId) (k : ComponentId) (s : SerializedComponent) (o : Option (List FieldDelta))
      (on : Bool)
      → f.enabled ≡ on
      → All (IsGranular f) (updated_change j f e k s o on)
  unfolding updated_change
  updated_change-IsGranular e k s o false h = (tt, tt)
  updated_change-IsGranular e k s none true h = (tt, tt)
  updated_change-IsGranular e k s (some []) true h = (tt, tt)
  updated_change-IsGranular e k s (some (d ∷ ds)) true h = ((h, λ p. cc), tt)

  component_change-IsGranular :
      (e : EntityId) (prev : Map ComponentId SerializedComponent)
      (p : ComponentId × SerializedComponent)
      → All (IsGranular f) (component_change j f e prev p)
  unfolding component_change
  component_change-IsGranular e prev (k, s) = elim (Option-cases (get k prev)) [
    | inl absent ↦ rw (component_change, absent) (tt, tt)
    | inr (before, there) ↦ elim (Bool-cases (components_equal before s)) [
      | inl same ↦ rw (component_change, there, same) tt
      | inr differ ↦
          rw (component_change, there, differ)
            (updated_change-IsGranular e k s (compute_field_deltas j f before s) f.enabled refl)
    ]
  ]

  component_removal-IsGranular :
      (e : EntityId) (curr : Map ComponentId SerializedComponent)
      (p : ComponentId × SerializedComponent)
      → All (IsGranular f) (component_removal j f e curr p)
  unfolding component_removal
  component_removal-IsGranular e curr (k, s) = elim (Bool-cases (contains_key k curr)) [
    | inl p ↦ rw (component_removal, p) tt
    | inr p ↦ rw (component_removal, p) (tt, tt)
  ]

  push_entity-IsGranular :
      (e : EntityId) (s : SerializedEntity) → All (IsGranular f) (push_entity e s)
  unfolding push_entity
  push_entity-IsGranular e s =
      (tt, All-for_each (IsGranular f) (push_added e) (λ c. (tt, tt)) s.components)

  module _ (order : HashOrder ComponentId SerializedComponent) where
    compute_component_changes-IsGranular :
        (e : EntityId) (b s : SerializedEntity)
        → All (IsGranular f) (compute_component_changes j f order e b s)
    unfolding compute_component_changes
    compute_component_changes-IsGranular e b s =
        let prev = order.arrange (2 * e) (by_name b.components) in
        let curr = order.arrange (2 * e + 1) (by_name s.components) in
        All-loops f (component_change j f e prev) (component_removal j f e curr)
          (component_change-IsGranular e prev) (component_removal-IsGranular e curr) curr prev

    entity_change-IsGranular :
        (prev : Map EntityId SerializedEntity) (p : EntityId × SerializedEntity)
        → All (IsGranular f) (entity_change j f order prev p)
    unfolding entity_change
    entity_change-IsGranular prev (i, s) = elim (Option-cases (get i prev)) [
      | inl absent ↦ rw (entity_change, absent) (push_entity-IsGranular i s)
      | inr (b, there) ↦ rw (entity_change, there) (compute_component_changes-IsGranular i b s)
    ]

    entity_removal-IsGranular :
        (curr : Map EntityId SerializedEntity) (p : EntityId × SerializedEntity)
        → All (IsGranular f) (entity_removal j f order curr p)
    unfolding entity_removal
    entity_removal-IsGranular curr (i, s) = elim (Bool-cases (contains_key i curr)) [
      | inl p ↦ rw (entity_removal, p) tt
      | inr p ↦ rw (entity_removal, p) (tt, tt)
    ]

    -- A delta has field deltas only with field compression on, and then never an empty list of them.
    pub compute_changes-IsGranular :
        (entities : HashOrder EntityId SerializedEntity) (prev curr : WorldSnapshot)
        → All (IsGranular f) (compute_changes j f order entities prev curr)
    unfolding compute_changes
    compute_changes-IsGranular entities p c =
        let prev = entities.arrange 0 (by_id p.entities) in
        let curr = entities.arrange 1 (by_id c.entities) in
        All-loops f (entity_change j f order prev) (entity_removal j f order curr)
          (entity_change-IsGranular prev) (entity_removal-IsGranular curr) curr prev
