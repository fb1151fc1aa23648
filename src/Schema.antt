-- ===== src/Schema.antt =====
-- schema.rs: the schema of a component and of its fields, with their builders.
pub mod Registry
pub mod Validator
pub mod Versions
pub mod History
pub mod Accepts
pub mod Shared
mod Examples
use tx2_link.Common.{
  ℕ, String, Bool, true, false, Option, none, some, List, [], ◌∷◌, ◌++◌, ◌==◌, if◌then◌else◌,
}
use tx2_link.Common.Maps.{◌=?◌, string_key}
use tx2_link.Protocol.{ComponentId, FieldId, FieldType}

abbrev pub SchemaVersion : Type 0
SchemaVersion = ℕ

pub record FieldSchema : Type 0 where
  pub field_id : FieldId
  pub field_type : FieldType
  pub optional : Bool
  pub default_value : Option String
  pub description : Option String

pub record ComponentSchema : Type 0 where
  pub component_id : ComponentId
  pub version : SchemaVersion
  pub fields : List FieldSchema
  pub description : Option String

abbrev pub new_component : ComponentId → SchemaVersion → ComponentSchema
new_component component_id version = record {
  component_id = component_id;
  version = version;
  fields = [];
  description = none;
}

abbrev pub with_field : FieldSchema → ComponentSchema → ComponentSchema
with_field field s = record s { fields = s.fields ++ field ∷ [] }

abbrev pub describe_component : String → ComponentSchema → ComponentSchema
describe_component description s = record s { description = some description }

abbrev pub new_field : FieldId → FieldType → FieldSchema
new_field field_id field_type = record {
  field_id = field_id;
  field_type = field_type;
  optional = false;
  default_value = none;
  description = none;
}

abbrev pub make_optional : FieldSchema → FieldSchema
make_optional f = record f { optional = true }

abbrev pub with_default : String → FieldSchema → FieldSchema
with_default default f = record f { default_value = some default }

abbrev pub describe_field : String → FieldSchema → FieldSchema
describe_field description f = record f { description = some description }

-- The discriminants of `FieldType`, which its derived `==` compares.
abbrev pub discriminant : FieldType → ℕ
discriminant FieldType.null = 0
discriminant FieldType.bool = 1
discriminant FieldType.u8 = 2
discriminant FieldType.u16 = 3
discriminant FieldType.u32 = 4
discriminant FieldType.u64 = 5
discriminant FieldType.i8 = 6
discriminant FieldType.i16 = 7
discriminant FieldType.i32 = 8
discriminant FieldType.i64 = 9
discriminant FieldType.f32 = 10
discriminant FieldType.f64 = 11
discriminant FieldType.string = 12
discriminant FieldType.bytes = 13
discriminant FieldType.array = 14
discriminant FieldType.map = 15

unfoldable pub field_type_eq : FieldType → FieldType → Bool
field_type_eq a b = discriminant a == discriminant b

-- `iter().find(|f| f.field_id == field_id)`
unfoldable pub find_field : FieldId → List FieldSchema → Option FieldSchema
find_field field_id [] = none
find_field field_id (f ∷ fs) =
    let rest = find_field field_id fs in if f.field_id =? field_id then some f else rest

unfoldable pub get_field : FieldId → ComponentSchema → Option FieldSchema
unfolding find_field
get_field field_id s = find_field field_id s.fields

unfoldable pub validate_field : FieldId → FieldType → ComponentSchema → Bool
unfolding get_field field_type_eq
validate_field field_id field_type s = elim (get_field field_id s) [
  | some schema ↦ field_type_eq schema.field_type field_type
  | none ↦ false
]
