-- ===== src/Suite/Deltas.antt =====
-- The tests of compression.rs. `to_string` prints the values that `json!` builds.
use tx2_link.Common.{
  ℕ, ◌≡◌, refl, Bool, true, false, ◌&&◌, ◌||◌, String, none, some, List, [], ◌∷◌, arith,
}
use text.Mathlib.Text.{◌==◌ as str_eq}
use tx2_link.Common.Maps.{get, insert, contains_key, string_key, nat_key}
use tx2_link.Protocol.{
  FieldValue, FieldDelta, ComponentData, SerializedComponent, DeltaChange, field_value_eq,
}
use tx2_link.Protocol.Json.{from_json_value}
use tx2_link.Serialization.{WorldSnapshot}
use tx2_link.Compression.Json.{JsonValue, SerdeJson, done, member}
use tx2_link.Compression.Delta.{create_delta, component_change, updated_change}
use tx2_link.Compression.Delta as Compressor
use tx2_link.Compression.Field.{compute_field_deltas, components_equal}
use tx2_link.Compression.Field as Field
use tx2_link.Samples.{entity}
use tx2_link.Samples.Managers.{components, entities}
use tx2_link.Suite.{unwrap_some}

-- A float's JSON number answers neither of the accessors of integers.
abbrev float : ℕ → JsonValue
float x = JsonValue.number (record { as_i64 = none; as_u64 = none; as_f64 = some x })

-- 10.0, 15.0 and 20.0
abbrev ten : ℕ
ten = 0x4024_0000_0000_0000

abbrev fifteen : ℕ
fifteen = 0x402e_0000_0000_0000

abbrev twenty : ℕ
twenty = 0x4034_0000_0000_0000

-- `json!({"x": x, "y": 20.0})`
abbrev point : ℕ → JsonValue
point x = JsonValue.object (member "x" (float x) (member "y" (float twenty) done))

-- `matches!(c, DeltaChange::EntityAdded { .. })`, and so on.
abbrev adds_entity : DeltaChange → Bool
adds_entity (DeltaChange.entity_added e) = true
adds_entity _ = false

abbrev adds_component : DeltaChange → Bool
adds_component (DeltaChange.component_added e c d) = true
adds_component _ = false

abbrev updates : DeltaChange → Bool
updates (DeltaChange.component_updated e c d) = true
updates (DeltaChange.fields_updated e c ds) = true
updates _ = false

abbrev any : (DeltaChange → Bool) → List DeltaChange → Bool
any p [] = false
any p (c ∷ cs) = p c || any p cs

-- `assert_eq!(changes.len(), 2)` and the two matches on `changes[0]` and `changes[1]`.
abbrev are_two : List DeltaChange → Bool
are_two (a ∷ b ∷ []) = adds_entity a && adds_component b
are_two _ = false

module _ (json : SerdeJson) (to_string : JsonValue → String) where
  abbrev at_point : ℕ → ℕ → WorldSnapshot
  at_point x timestamp = record {
    entities =
        entity 1 (record { id = "Position"; payload = from_json_value to_string (point x) } ∷ [])
        ∷ [];
    timestamp = timestamp;
    version = "1.0.0";
  }

  unfoldable test_delta_compression_initial : Bool
  unfolding create_delta
  test_delta_compression_initial =
      let snapshot = at_point ten 0x4059_0000_0000_0000 in
      are_two (create_delta json components entities snapshot Compressor.new).0.changes

  unfoldable test_delta_compression_update : Bool
  unfolding create_delta insert get contains_key
  test_delta_compression_update =
      let snapshot1 = at_point ten 0x4059_0000_0000_0000 in
      let (delta1, compressor) = create_delta json components entities snapshot1 Compressor.new in
      let snapshot2 = at_point fifteen 0x4069_0000_0000_0000 in
      any updates (create_delta json components entities snapshot2 compressor).0.changes

  test_delta_compression_initial_passes : test_delta_compression_initial ≡ true
  unfolding test_delta_compression_initial
  test_delta_compression_initial_passes = refl

  -- The printer must not print the two values alike.
  test_delta_compression_update_passes :
      str_eq (to_string (point ten)) (to_string (point fifteen)) ≡ false
      → test_delta_compression_update ≡ true
  unfolding test_delta_compression_update component_change components_equal updated_change
  test_delta_compression_update_passes differ = ground (arith, differ)

-- Of `compute_field_deltas`, and `assert_eq!(deltas[0].field_id, "x")` of the only one.
abbrev is_x : List FieldDelta → Bool
is_x (d ∷ []) = str_eq d.field_id "x"
is_x _ = false

abbrev structured : ℕ → SerializedComponent
structured x = record {
  id = "Position";
  payload =
      ComponentData.structured
        (insert "y" (FieldValue.f64 twenty) (insert "x" (FieldValue.f64 x) []));
}

unfoldable test_field_level_delta : SerdeJson → Bool
unfolding insert get contains_key compute_field_deltas field_value_eq
test_field_level_delta json =
    unwrap_some (compute_field_deltas json Field.new (structured ten) (structured fifteen)) is_x

test_field_level_delta_passes : (json : SerdeJson) → test_field_level_delta json ≡ true
unfolding test_field_level_delta
test_field_level_delta_passes json = refl
