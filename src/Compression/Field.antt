-- ===== src/Compression/Field.antt =====
-- `FieldCompressor`: the fields that differ between two values of a component.
use tx2_link.Common.{
  String, Bool, true, false, not, ◌&&◌, Option, none, some, List, [], ◌∷◌, ◌++◌, if◌then◌else◌,
  length, ◌==◌,
}
use tx2_link.Common.Maps.{Map, get, contains_key, for_each, string_key}
use text.Mathlib.Text.{◌==◌ as str_eq}
use tx2_link.Protocol.{
  FieldId, FieldValue, FieldDelta, ComponentData, SerializedComponent, field_value_eq, bytes_eq,
}
use tx2_link.Compression.Json.{JsonValue, SerdeJson, as_object, json_to_field_value}

pub record FieldCompressor : Type 0 where
  pub enabled : Bool

abbrev pub new : FieldCompressor
new = record { enabled = true }

abbrev pub with_enabled : Bool → FieldCompressor
with_enabled enabled = record { enabled = enabled }

pub is_enabled : FieldCompressor → Bool
is_enabled c = c.enabled

unfoldable pub set_enabled : Bool → FieldCompressor → FieldCompressor
set_enabled enabled c = record c { enabled = enabled }

-- The two cases of `compute_field_deltas` are one code, over the values' `==` and what is stored of
-- a value.
module _ {V : Type 0} (value_eq : V → V → Bool) (store : V → FieldValue) where
  -- The body of the loop over the current fields.
  unfoldable pub changed_field : Map FieldId V → FieldId × V → List FieldDelta
  changed_field prev (field_id, curr_value) = elim (get field_id prev) [
    | some prev_value ↦
        if not (value_eq prev_value curr_value)
        then record {
          field_id = field_id;
          old_value = some (store prev_value);
          new_value = store curr_value;
        }
          ∷ []
        else []
    | none ↦ record { field_id = field_id; old_value = none; new_value = store curr_value } ∷ []
  ]

  stored : Option V → Option FieldValue
  stored none = none
  stored (some v) = some (store v)

  -- The body of the loop over the previous fields.
  unfoldable pub removed_field : Map FieldId V → Map FieldId V → FieldId × V → List FieldDelta
  unfolding stored
  removed_field prev curr (field_id, v) =
      if not (contains_key field_id curr)
      then record {
        field_id = field_id;
        old_value = stored (get field_id prev);
        new_value = FieldValue.null;
      }
        ∷ []
      else []

  unfoldable pub field_deltas : Map FieldId V → Map FieldId V → List FieldDelta
  unfolding changed_field removed_field for_each
  field_deltas prev curr =
      for_each (changed_field prev) curr ++ for_each (removed_field prev curr) prev

module _ (j : SerdeJson) where
  unfoldable pub object_deltas :
      Option (Map String JsonValue) → Option (Map String JsonValue) → Option (List FieldDelta)
  object_deltas (some prev) (some curr) =
      some (field_deltas j.value_eq json_to_field_value prev curr)
  object_deltas none _ = none
  object_deltas _ _ = none

  unfoldable pub json_deltas : Option JsonValue → Option JsonValue → Option (List FieldDelta)
  unfolding object_deltas as_object
  json_deltas (some prev) (some curr) = object_deltas (as_object prev) (as_object curr)
  json_deltas none _ = none
  json_deltas _ _ = none

  unfoldable pub data_deltas : ComponentData → ComponentData → Option (List FieldDelta)
  unfolding json_deltas field_deltas
  data_deltas (ComponentData.structured prev) (ComponentData.structured curr) =
      some (field_deltas field_value_eq (λ v. v) prev curr)
  data_deltas (ComponentData.json prev) (ComponentData.json curr) =
      json_deltas (j.from_str prev) (j.from_str curr)
  data_deltas (ComponentData.binary prev) _ = none
  data_deltas _ _ = none

  unfoldable pub compute_field_deltas :
      FieldCompressor → SerializedComponent → SerializedComponent → Option (List FieldDelta)
  unfolding data_deltas
  compute_field_deltas c prev curr =
      if not c.enabled then none else data_deltas prev.payload curr.payload

-- `HashMap == HashMap`: as large, and each key of the first has an equal value in the second.
unfoldable pub fields_within : Map FieldId FieldValue → Map FieldId FieldValue → Bool
fields_within [] b = true
fields_within ((k, v) ∷ a) b =
    (elim (get k b) [ none ↦ false | some w ↦ field_value_eq v w ]) && fields_within a b

unfoldable pub data_equal : ComponentData → ComponentData → Bool
unfolding bytes_eq fields_within
data_equal (ComponentData.binary a) (ComponentData.binary b) = bytes_eq a b
data_equal (ComponentData.json a) (ComponentData.json b) = str_eq a b
data_equal (ComponentData.structured a) (ComponentData.structured b) =
    length a == length b && fields_within a b
data_equal _ _ = false

-- `DeltaCompressor::components_equal`
unfoldable pub components_equal : SerializedComponent → SerializedComponent → Bool
unfolding data_equal
components_equal a b = if not (str_eq a.id b.id) then false else data_equal a.payload b.payload
