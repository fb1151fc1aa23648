-- ===== src/Compression/Json.antt =====
-- `serde_json::Value`, as far as `json_to_field_value` takes it apart, and that conversion.
use tx2_link.Common.{ℕ, String, Bool, Option, none, some, [], ◌∷◌, Bool}
use tx2_link.Common.Int.{ℤ}
use tx2_link.Common.Maps.{Map}
use tx2_link.Protocol.{FieldValue, Values, Entries, nil, cons, end, entry}

-- A JSON number is known by what its three accessors say.
pub record JsonNumber : Type 0 where
  pub as_i64 : Option ℤ
  pub as_u64 : Option ℕ
  pub as_f64 : Option ℕ

mutual
  pub data JsonValue : Type 0 where
    null : JsonValue
    bool : Bool → JsonValue
    number : JsonNumber → JsonValue
    string : String → JsonValue
    array : JsonItems → JsonValue
    object : JsonMembers → JsonValue

  pub data JsonItems : Type 0 where
    last : JsonItems
    item : JsonValue → JsonItems → JsonItems

  -- An object's members, in its order of iteration.
  pub data JsonMembers : Type 0 where
    done : JsonMembers
    member : String → JsonValue → JsonMembers → JsonMembers

-- What the code asks of serde_json.
pub record SerdeJson : Type 0 where
  pub from_str : String → Option JsonValue
  pub value_eq : JsonValue → JsonValue → Bool

unfoldable pub members : JsonMembers → Map String JsonValue
members done = []
members (member k v ms) = (k, v) ∷ members ms

unfoldable pub as_object : JsonValue → Option (Map String JsonValue)
unfolding members
as_object (JsonValue.object ms) = some (members ms)
as_object (JsonValue.null) = none
as_object _ = none

-- The first accessor that answers decides.
unfoldable pub number_to_field_value : JsonNumber → FieldValue
number_to_field_value n = elim n.as_i64 [
  | some i ↦ FieldValue.i64 i
  | none ↦ elim n.as_u64 [
    | some u ↦ FieldValue.u64 u
    | none ↦ elim n.as_f64 [ some x ↦ FieldValue.f64 x | none ↦ FieldValue.null ]
  ]
]

unfoldable mutual
  unfolding number_to_field_value

  pub json_to_field_value : JsonValue → FieldValue
  json_to_field_value JsonValue.null = FieldValue.null
  json_to_field_value (JsonValue.bool b) = FieldValue.bool b
  json_to_field_value (JsonValue.number n) = number_to_field_value n
  json_to_field_value (JsonValue.string s) = FieldValue.string s
  json_to_field_value (JsonValue.array vs) = FieldValue.array (items_to_values vs)
  json_to_field_value (JsonValue.object ms) = FieldValue.map (members_to_entries ms)

  pub items_to_values : JsonItems → Values
  items_to_values last = nil
  items_to_values (item v vs) = cons (json_to_field_value v) (items_to_values vs)

  -- The keys of an object are distinct, so collecting them keeps every member.
  pub members_to_entries : JsonMembers → Entries
  members_to_entries done = end
  members_to_entries (member k v ms) = entry k (json_to_field_value v) (members_to_entries ms)
