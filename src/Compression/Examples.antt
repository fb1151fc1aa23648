-- ===== src/Compression/Examples.antt =====
-- Tests of the compressor, after those of compression.rs and README.md, and its theorems at concrete inputs.
use tx2_link.Common.{◌≡◌, refl, true, some, [], ◌∷◌}
use tx2_link.Common.Maps.{HashOrder, insert, get, contains_key, string_key, nat_key}
use tx2_link.Samples.{
  as_inserted, no_json, position, at_first, later, at_first-IsReflexive, later-IsDiffable,
}
use tx2_link.Samples.Texts.{
  two_texts, two_texts-HasUniqueKeys, two_texts-HasEquality, text_before, text_after,
  text_before-IsDiffable, text_after-IsDiffable,
}
use tx2_link.Compression.Replay.Content.{content}
use tx2_link.Protocol.{
  FieldValue, field_value_eq, entity_added, entity_removed, component_added, component_removed,
  fields_updated, ComponentId, EntityId, SerializedComponent, SerializedEntity,
}
use tx2_link.Compression.Field.{with_enabled}
use tx2_link.Compression.Delta.{with_field_compression, compute_changes, updated_change}
use tx2_link.Compression.Unchanged.{compute_changes_unchanged}
use tx2_link.Compression.World.{nowhere, view, replay, SameWorld}
use tx2_link.Compression.Replay.Whole.{replay-compute_changes}
use tx2_link.Compression.Replay.Follow.{follow, follow-with_field_compression}

abbrev components : HashOrder ComponentId SerializedComponent
components = as_inserted

abbrev entities : HashOrder EntityId SerializedEntity
entities = as_inserted

-- One field of one component has changed, one component and one entity are gone, one entity is new.
changes_of_later :
    compute_changes no_json (with_enabled true) components entities at_first later
    ≡ fields_updated 1 "Position" (
        record { field_id = "x"; old_value = some (FieldValue.u64 0); new_value = FieldValue.u64 3 }
        ∷ [])
      ∷ component_removed 1 "Health"
      ∷ entity_added 3
      ∷ component_added 3 "Position" (position 7).payload
      ∷ entity_removed 2
      ∷ []
unfolding compute_changes insert get field_value_eq updated_change contains_key
changes_of_later = refl

-- A component that is a JSON text is among these; the deltas are of its members.
replay-compute_changes_example :
    (let shown = content two_texts (with_enabled true) in
      SameWorld
        (replay shown
          (compute_changes two_texts (with_enabled true) components entities text_before text_after)
          (view shown text_before))
        (view shown text_after))
replay-compute_changes_example =
    replay-compute_changes two_texts two_texts-HasUniqueKeys two_texts-HasEquality
      (with_enabled true) components entities text_before text_after text_before-IsDiffable
      text_after-IsDiffable

follow-with_field_compression_example :
    SameWorld
      (follow two_texts components entities
        (text_before ∷ text_after ∷ later ∷ [])
        (with_field_compression true)
        nowhere)
      (view (content two_texts (with_enabled true)) later)
follow-with_field_compression_example =
    follow-with_field_compression two_texts two_texts-HasUniqueKeys two_texts-HasEquality components
      entities true text_before (text_after ∷ later ∷ [])
      (text_before-IsDiffable, (text_after-IsDiffable, (later-IsDiffable, tt)))

compute_changes_unchanged_example :
    compute_changes no_json
      (with_enabled true)
      components
      entities
      at_first
      (record at_first { timestamp = 11 })
    ≡ []
compute_changes_unchanged_example =
    compute_changes_unchanged no_json (with_enabled true) components entities at_first
      (record at_first { timestamp = 11 }) refl at_first-IsReflexive
