-- ===== src/Compression/Replay/Content.antt =====
-- What a receiver keeps of a component: with field compression, of a JSON text that is an object, the
-- converted members; else the data as it is.
use tx2_link.Common.{
  ◌≡◌, refl, ap, subst, inl, inr, String, true, Option, none, some, some_inj, List, arith,
  Option-cases, if◌then◌else◌,
}
use tx2_link.Common.Maps.{Map}
use tx2_link.Protocol.{
  FieldId, FieldValue, FieldDelta, ComponentData, binary, json, structured, SerializedComponent,
}
use tx2_link.Compression.Json.{JsonValue, SerdeJson}
use tx2_link.Compression.Field.{FieldCompressor, compute_field_deltas, components_equal}
use tx2_link.Compression.World.{patch, identical, SameData}
use tx2_link.Compression.Replay.Equal.{IsMapData, components_equal-SameData}
use tx2_link.Compression.Replay.Json.{
  converted, object_of, fields_of, HasUniqueKeys, HasEquality, IsPatch, patches,
  compute_field_deltas-IsPatch,
}

pub SameData-refl : (d : ComponentData) → SameData d d
SameData-refl (binary bs) = refl
SameData-refl (json s) = refl
SameData-refl (structured m) = λ k. identical refl

abbrev pub members_or : String → Option (Map String JsonValue) → ComponentData
members_or s none = json s
members_or s (some m) = structured (converted m)

module _ (j : SerdeJson) (f : FieldCompressor) where
  unfoldable pub content : ComponentData → ComponentData
  content (json s) = if f.enabled then members_or s (object_of j s) else json s
  content (binary bs) = binary bs
  content (structured m) = structured m

  content-fields_of :
      (d : ComponentData) (m : Map FieldId FieldValue)
      → f.enabled ≡ true
      → fields_of j d ≡ some m
      → content d ≡ structured m
  unfolding content fields_of
  content-fields_of (binary bs) m on h = absurd (ground (arith, h))
  content-fields_of (structured n) m on h = ap structured (some_inj.0 h)
  content-fields_of (json s) m on h = elim (Option-cases (object_of j s)) [
    | inl absent ↦ absurd (ground (arith, absent, h))
    | inr (o, here) ↦ rw (on, here) (ap structured (some_inj.0 (rw here at h)))
  ]

  content-SameData : (a b : ComponentData) → SameData a b → SameData (content a) (content b)
  unfolding content
  content-SameData (structured a) (structured b) h = h
  content-SameData (binary a) (binary b) h = h
  content-SameData (json a) (json b) h =
      subst (λ z. SameData (content (json a)) (content z)) h (SameData-refl (content (json a)))
  content-SameData _ _ h = cc

  -- Components that the code takes for equal show the same.
  pub components_equal-content :
      (a b : SerializedComponent)
      → IsMapData a.payload
      → IsMapData b.payload
      → components_equal a b ≡ true
      → SameData (content a.payload) (content b.payload)
  components_equal-content a b u v h =
      content-SameData a.payload b.payload (components_equal-SameData a b u v h)

  patched :
      (a b : ComponentData) (x y : Option (Map FieldId FieldValue)) (ds : List FieldDelta)
      → f.enabled ≡ true
      → fields_of j a ≡ x
      → fields_of j b ≡ y
      → IsPatch x y ds
      → SameData (patch ds (content a)) (content b)
  unfolding patch
  patched a b _ _ _ on p q (patches m n ds h) =
      rw (content-fields_of a m on p, content-fields_of b n on q) h

  -- Where field deltas are computed at all, they turn what the one component shows into what the
  -- other does.
  pub patch-SameData :
      HasUniqueKeys j
      → HasEquality j
      → (a b : SerializedComponent) (ds : List FieldDelta) → IsMapData a.payload
      → IsMapData b.payload
      → compute_field_deltas j f a b ≡ some ds
      → SameData (patch ds (content a.payload)) (content b.payload)
  patch-SameData keys eq a b ds u v e =
      let (on, p) = compute_field_deltas-IsPatch j keys eq f a b ds u v e in
      patched a.payload b.payload (fields_of j a.payload) (fields_of j b.payload) ds on refl refl p
