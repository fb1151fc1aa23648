-- ===== src/Schema/Validator.antt =====
-- `SchemaValidator`, over the tables of its registry.
use tx2_link.Common.{String, not, none, some, List, [], ◌∷◌, ◌&&◌, if◌then◌else◌}
use tx2_link.Common.Text.{◌<>◌}
use tx2_link.Common.Maps.{Map, get as find, contains_key, string_key}
use tx2_link.Error.{invalid_message, Result, ok, err, ◌>>=◌, ◌>>◌}
use tx2_link.Protocol.{ComponentId, FieldId, FieldType}
use tx2_link.Schema.{FieldSchema, field_type_eq}
use tx2_link.Schema.Registry.{Tables, get}

unfoldable pub missing_text : FieldId → ComponentId → String
missing_text field_id component_id =
    "Required field '" <> field_id <> "' missing in component '" <> component_id <> "'"

unfoldable pub type_text : FieldId → ComponentId → String
type_text field_id component_id =
    "Field '" <> field_id <> "' has wrong type in component '" <> component_id <> "'"

-- The body of the loop.
unfoldable pub check_field : ComponentId → Map FieldId FieldType → FieldSchema → Result (Unit {0})
check_field component_id fields f =
    if not f.optional && not (contains_key f.field_id fields)
    then err (invalid_message (missing_text f.field_id component_id))
    else elim (find f.field_id fields) [
      | none ↦ ok tt
      | some field_type ↦
          if not (field_type_eq field_type f.field_type)
          then err (invalid_message (type_text f.field_id component_id))
          else ok tt
    ]

unfoldable pub check_fields :
    ComponentId → Map FieldId FieldType → List FieldSchema → Result (Unit {0})
unfolding check_field
check_fields component_id fields [] = ok tt
check_fields component_id fields (f ∷ fs) =
    check_field component_id fields f >> check_fields component_id fields fs

unfoldable pub validate_component : ComponentId → Map FieldId FieldType → Tables → Result (Unit {0})
unfolding get check_fields
validate_component component_id fields t =
    get component_id t >>= λ schema. check_fields component_id fields schema.fields
