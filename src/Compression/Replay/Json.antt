-- ===== src/Compression/Replay/Json.antt =====
-- What field deltas mean for components that are JSON texts: a receiver that keeps the members of the
-- object as fields, converted as the code converts values, has those of the new text.
use tx2_link.Common.{
  ◌≡◌, refl, inl, inr, String, true, Option, none, some, some_inj, List, [], ◌∷◌, arith, Bool-cases,
}
use tx2_link.Common.Maps.{Map, get, IsMap, string_key}
use tx2_link.Protocol.{
  FieldId, FieldValue, FieldDelta, ComponentData, binary, json, structured, SerializedComponent,
  field_value_eq,
}
use tx2_link.Compression.Json.{JsonValue, SerdeJson, as_object, json_to_field_value}
use tx2_link.Compression.Field.{
  FieldCompressor, field_deltas, object_deltas, json_deltas, data_deltas, compute_field_deltas,
}
use tx2_link.Compression.World.{set_fields, map_some, SameValue, SameFields}
use tx2_link.Compression.Replay.Fields.{field_deltas-stored, field_deltas-SameFields}
use tx2_link.Compression.Replay.Equal.{IsMapData}

-- Each member's value is converted.
unfoldable pub converted : Map String JsonValue → Map FieldId FieldValue
converted [] = []
converted ((k, v) ∷ m) = (k, json_to_field_value v) ∷ converted m

get-converted :
    (k : FieldId) (m : Map String JsonValue)
    → get k (converted m) ≡ map_some json_to_field_value (get k m)
unfolding converted get
get-converted k [] = refl
get-converted k ((i, v) ∷ m) = ground (arith, get-converted k m)

abbrev pub object_in : Option JsonValue → Option (Map String JsonValue)
object_in none = none
object_in (some v) = as_object v

-- Both have fields, and storing the deltas in the first fields gives the second.
pub data IsPatch
    : Option (Map FieldId FieldValue)
      → Option (Map FieldId FieldValue)
      → List FieldDelta
      → Type 0 where
  patches :
      (a b : Map FieldId FieldValue) (ds : List FieldDelta)
      → SameFields (set_fields ds a) b
      → IsPatch (some a) (some b) ds

module _ (j : SerdeJson) where
  -- The object that a text parses to.
  abbrev pub object_of : String → Option (Map String JsonValue)
  object_of s = object_in (j.from_str s)

  -- The fields that a component shows.
  unfoldable pub fields_of : ComponentData → Option (Map FieldId FieldValue)
  unfolding converted
  fields_of (structured m) = some m
  fields_of (json s) = map_some converted (object_of s)
  fields_of (binary bs) = none

  -- serde_json keeps one member for each key of an object.
  abbrev pub HasUniqueKeys : Type 0
  HasUniqueKeys = (s : String) (m : Map String JsonValue) → object_of s ≡ some m → IsMap m

  -- Its values are equal only if they are made of equal parts.
  abbrev pub HasEquality : Type 0
  HasEquality =
      (v w : JsonValue)
      → j.value_eq v w ≡ true
      → SameValue (json_to_field_value v) (json_to_field_value w)

  object_deltas-IsPatch :
      HasEquality
      → (a b : Option (Map String JsonValue)) (ds : List FieldDelta)
      → ((m : Map String JsonValue) → a ≡ some m → IsMap m)
      → ((m : Map String JsonValue) → b ≡ some m → IsMap m)
      → object_deltas j a b ≡ some ds
      → IsPatch (map_some converted a) (map_some converted b) ds
  unfolding object_deltas
  object_deltas-IsPatch eq (some a) (some b) ds u v h =
      let got : field_deltas j.value_eq json_to_field_value a b ≡ ds = some_inj.0 h in
      patches (converted a) (converted b) ds (
        rw (← got) (λ k. rw (get-converted k b) (
          field_deltas-stored j.value_eq json_to_field_value eq a b (converted a) (u a refl)
            (v b refl) (λ i. get-converted i a) k)))
  object_deltas-IsPatch eq none b ds u v h = absurd (ground (arith, h))
  object_deltas-IsPatch eq (some a) none ds u v h = absurd (ground (arith, h))

  json_deltas-IsPatch :
      HasEquality
      → (a b : Option JsonValue) (ds : List FieldDelta)
      → ((m : Map String JsonValue) → object_in a ≡ some m → IsMap m)
      → ((m : Map String JsonValue) → object_in b ≡ some m → IsMap m)
      → json_deltas j a b ≡ some ds
      → IsPatch (map_some converted (object_in a)) (map_some converted (object_in b)) ds
  unfolding json_deltas
  json_deltas-IsPatch eq (some a) (some b) ds u v h =
      object_deltas-IsPatch eq (as_object a) (as_object b) ds u v h
  json_deltas-IsPatch eq none b ds u v h = absurd (ground (arith, h))
  json_deltas-IsPatch eq (some a) none ds u v h = absurd (ground (arith, h))

  data_deltas-IsPatch :
      HasUniqueKeys
      → HasEquality
      → (a b : ComponentData) (ds : List FieldDelta) → IsMapData a
      → IsMapData b
      → data_deltas j a b ≡ some ds
      → IsPatch (fields_of a) (fields_of b) ds
  unfolding data_deltas fields_of
  data_deltas-IsPatch keys eq (structured a) (structured b) ds u v h =
      let got : field_deltas field_value_eq (λ x. x) a b ≡ ds = some_inj.0 h in
      patches a b ds (rw (← got) (field_deltas-SameFields a b u v))
  data_deltas-IsPatch keys eq (json a) (json b) ds u v h =
      json_deltas-IsPatch eq (j.from_str a) (j.from_str b) ds (keys a) (keys b) h
  data_deltas-IsPatch keys eq (binary a) b ds u v h = absurd (ground (arith, h))
  data_deltas-IsPatch keys eq _ _ ds u v h = absurd (ground (arith, h))

  -- Where field deltas are computed of two components, of which those that are structured have each
  -- field once, compression is on and both have fields: those of a structured component, or the
  -- members of the object that a JSON text is. Storing the deltas in the first fields gives the
  -- second, up to `Null` for a field that is gone and the `==` of values. Of the parser, an object
  -- has each key once; of its values, they are equal only if their conversions are.
  pub compute_field_deltas-IsPatch :
      HasUniqueKeys
      → HasEquality
      → (f : FieldCompressor) (prev curr : SerializedComponent) (ds : List FieldDelta)
      → IsMapData prev.payload
      → IsMapData curr.payload
      → compute_field_deltas j f prev curr ≡ some ds
      → (f.enabled ≡ true) × IsPatch (fields_of prev.payload) (fields_of curr.payload) ds
  unfolding compute_field_deltas
  compute_field_deltas-IsPatch keys eq f prev curr ds u v h = elim (Bool-cases f.enabled) [
    | inl on ↦
        (on, data_deltas-IsPatch keys eq prev.payload curr.payload ds u v (ground (arith, on, h)))
    | inr off ↦ absurd (ground (arith, off, h))
  ]
