-- ===== src/Compression/Delta.antt =====
-- `DeltaCompressor`. The order in which each hash map is iterated is a parameter: the maps of a
-- call are numbered, 0 and 1 for the previous and the current entities, 2 i and 2 i + 1 for the
-- previous and the current components of the entity i. Logging is in `Debug.Calls`.
use tx2_link.Common.{
  ℕ, ◌+◌, ◌*◌, Bool, true, false, not, Option, none, some, List, [], ◌∷◌, ◌++◌, map, if◌then◌else◌,
}
use tx2_link.Common.Maps.{Map, get, contains_key, collect, for_each, HashOrder, string_key, nat_key}
use tx2_link.Protocol.{
  EntityId, ComponentId, SerializedComponent, SerializedEntity, FieldDelta, DeltaChange,
  entity_added, entity_removed, component_added, component_removed, component_updated,
  fields_updated,
}
use tx2_link.Serialization.{WorldSnapshot}
use tx2_link.Serialization as Wire
use tx2_link.Compression.Json.{SerdeJson}
use tx2_link.Compression.Field.{
  FieldCompressor, compute_field_deltas, components_equal, with_enabled,
}
use tx2_link.Compression.Field as Field

pub record DeltaCompressor : Type 0 where
  pub previous_snapshot : Option WorldSnapshot
  pub field_compressor : FieldCompressor

abbrev pub new : DeltaCompressor
new = record { previous_snapshot = none; field_compressor = Field.new }

abbrev pub with_field_compression : Bool → DeltaCompressor
with_field_compression enable = record {
  previous_snapshot = none;
  field_compressor = with_enabled enable;
}

-- A component and what is pushed for it when its entity, or it alone, is new.
abbrev pub push_added : EntityId → SerializedComponent → List DeltaChange
push_added entity_id component = component_added entity_id component.id component.payload ∷ []

-- An entity that is new, with all of its components.
unfoldable pub push_entity : EntityId → SerializedEntity → List DeltaChange
unfolding for_each
push_entity entity_id entity =
    entity_added entity_id ∷ for_each (push_added entity_id) entity.components

unfoldable pub create_initial_delta : WorldSnapshot → List DeltaChange
unfolding for_each push_entity
create_initial_delta snapshot = for_each (λ entity. push_entity entity.id entity) snapshot.entities

-- The maps that are built from the snapshots' lists.
unfoldable pub by_id : List SerializedEntity → Map EntityId SerializedEntity
unfolding collect
by_id entities = collect (map (λ e. (e.id, e)) entities)

unfoldable pub by_name : List SerializedComponent → Map ComponentId SerializedComponent
unfolding collect
by_name components = collect (map (λ c. (c.id, c)) components)

module _ (json : SerdeJson) (fields : FieldCompressor) where
  -- What is pushed for a component that is in both entities and differs.
  unfoldable pub updated_change :
      EntityId
      → ComponentId
      → SerializedComponent
      → Option (List FieldDelta)
      → Bool
      → List DeltaChange
  updated_change entity_id component_id curr deltas false =
      component_updated entity_id component_id curr.payload ∷ []
  updated_change entity_id component_id curr none true =
      component_updated entity_id component_id curr.payload ∷ []
  updated_change entity_id component_id curr (some []) true =
      component_updated entity_id component_id curr.payload ∷ []
  updated_change entity_id component_id curr (some (d ∷ ds)) true =
      fields_updated entity_id component_id (d ∷ ds) ∷ []

  -- The body of the loop over the current components.
  unfoldable pub component_change :
      EntityId
      → Map ComponentId SerializedComponent
      → ComponentId × SerializedComponent
      → List DeltaChange
  unfolding compute_field_deltas components_equal
  component_change entity_id prev (component_id, curr) = elim (get component_id prev) [
    | some before ↦
        if not (components_equal before curr)
        then updated_change entity_id component_id curr
            (compute_field_deltas json fields before curr) fields.enabled
        else []
    | none ↦ component_added entity_id component_id curr.payload ∷ []
  ]

  -- The body of the loop over the previous components.
  unfoldable pub component_removal :
      EntityId
      → Map ComponentId SerializedComponent
      → ComponentId × SerializedComponent
      → List DeltaChange
  component_removal entity_id curr (component_id, before) =
      if not (contains_key component_id curr)
      then component_removed entity_id component_id ∷ []
      else []

  module _ (order : HashOrder ComponentId SerializedComponent) where
    unfoldable pub compute_component_changes :
        EntityId → SerializedEntity → SerializedEntity → List DeltaChange
    unfolding by_name component_change component_removal for_each
    compute_component_changes entity_id prev_entity curr_entity =
        let prev = order.arrange (2 * entity_id) (by_name prev_entity.components) in
        let curr = order.arrange (2 * entity_id + 1) (by_name curr_entity.components) in
        for_each (component_change entity_id prev) curr
        ++ for_each (component_removal entity_id curr) prev

    -- The body of the loop over the current entities.
    unfoldable pub entity_change :
        Map EntityId SerializedEntity → EntityId × SerializedEntity → List DeltaChange
    unfolding compute_component_changes push_entity
    entity_change prev (entity_id, curr) = elim (get entity_id prev) [
      | some before ↦ compute_component_changes entity_id before curr
      | none ↦ push_entity entity_id curr
    ]

    -- The body of the loop over the previous entities.
    unfoldable pub entity_removal :
        Map EntityId SerializedEntity → EntityId × SerializedEntity → List DeltaChange
    entity_removal curr (entity_id, before) =
        if not (contains_key entity_id curr) then entity_removed entity_id ∷ [] else []

    module _ (entities : HashOrder EntityId SerializedEntity) where
      unfoldable pub compute_changes : WorldSnapshot → WorldSnapshot → List DeltaChange
      unfolding by_id entity_change entity_removal for_each
      compute_changes prev_snapshot curr_snapshot =
          let prev = entities.arrange 0 (by_id prev_snapshot.entities) in
          let curr = entities.arrange 1 (by_id curr_snapshot.entities) in
          for_each (entity_change prev) curr ++ for_each (entity_removal curr) prev

module _ (json : SerdeJson) (order : HashOrder ComponentId SerializedComponent)
    (entities : HashOrder EntityId SerializedEntity) where
  unfoldable pub changes_since :
      FieldCompressor → Option WorldSnapshot → WorldSnapshot → List DeltaChange
  unfolding compute_changes create_initial_delta
  changes_since fields none curr = create_initial_delta curr
  changes_since fields (some prev) curr = compute_changes json fields order entities prev curr

  -- The previous snapshot's time, or 0.0.
  unfoldable pub base_of : Option WorldSnapshot → ℕ
  base_of none = 0
  base_of (some prev) = prev.timestamp

  unfoldable pub create_delta : WorldSnapshot → DeltaCompressor → Wire.Delta × DeltaCompressor
  unfolding changes_since base_of
  create_delta current c = (
    record {
      changes = changes_since c.field_compressor c.previous_snapshot current;
      timestamp = current.timestamp;
      base_timestamp = base_of c.previous_snapshot;
    },
    record c { previous_snapshot = some current },
  )

unfoldable pub reset : DeltaCompressor → DeltaCompressor
reset c = record c { previous_snapshot = none }

pub get_previous_snapshot : DeltaCompressor → Option WorldSnapshot
get_previous_snapshot c = c.previous_snapshot
