-- ===== src/Suite/Schemas.antt =====
-- The tests of schema.rs.
use tx2_link.Common.{◌≡◌, refl, Bool, true, false, not, ◌&&◌, ◌||◌, ◌==◌, List, [], ◌∷◌, length}
use tx2_link.Common.Maps.{Map, get as find, insert, contains_key, string_key, ◌=?◌}
use tx2_link.Error.{is_ok}
use tx2_link.Protocol.{FieldId, FieldType}
use tx2_link.Schema.{
  ComponentSchema, new_component, with_field, new_field, make_optional, describe_component,
  field_type_eq, SchemaVersion,
}
use tx2_link.Schema.Registry.{Tables, new_tables, register, get, get_version_history}
use tx2_link.Schema.Validator.{validate_component}
use tx2_link.Suite.{unwrap}

abbrev position : SchemaVersion → ComponentSchema
position version =
    with_field (new_field "y" FieldType.f64)
      (with_field (new_field "x" FieldType.f64) (new_component "Position" version))

-- `registry.register(schema).unwrap()`
abbrev registered : ComponentSchema → Tables → (Tables → Bool) → Bool
registered schema t rest = let (r, t1) = register schema t in unwrap r (λ u. rest t1)

-- `versions.contains(&version)`
abbrev contains : SchemaVersion → List SchemaVersion → Bool
contains version [] = false
contains version (v ∷ vs) = v == version || contains version vs

unfoldable test_schema_registry : Bool
unfolding register get insert find
test_schema_registry =
    registered (describe_component "2D position component" (position 1)) new_tables λ t.
      unwrap (get "Position" t)
        λ retrieved. (retrieved.component_id =? "Position") && length retrieved.fields == 2

unfoldable test_schema_versioning : Bool
unfolding register get_version_history insert find
test_schema_versioning = registered (position 1) new_tables λ t.
    registered (with_field (make_optional (new_field "z" FieldType.f64)) (position 2)) t λ t1.
      unwrap (get_version_history "Position" t1)
        λ history. length history == 2 && contains 1 history && contains 2 history

abbrev both_fields : Map FieldId FieldType
both_fields = insert "y" FieldType.f64 (insert "x" FieldType.f64 [])

unfoldable test_schema_validation : Bool
unfolding register validate_component insert find contains_key field_type_eq
test_schema_validation = registered (position 1) new_tables λ t.
    is_ok (validate_component "Position" both_fields t)
    && not (is_ok (validate_component "Position" (insert "x" FieldType.f64 []) t))

test_schema_registry_passes : test_schema_registry ≡ true
unfolding test_schema_registry
test_schema_registry_passes = refl

test_schema_versioning_passes : test_schema_versioning ≡ true
unfolding test_schema_versioning
test_schema_versioning_passes = refl

test_schema_validation_passes : test_schema_validation ≡ true
unfolding test_schema_validation
test_schema_validation_passes = refl
