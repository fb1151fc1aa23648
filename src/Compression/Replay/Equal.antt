-- ===== src/Compression/Replay/Equal.antt =====
-- Components that the code takes for equal hold the same.
use tx2_link.Common.{
  ℕ, ◌≡◌, refl, ap, subst, inl, inr, true, some, List, [], ◌∷◌, arith, length, Bool-cases,
  Option-cases,
}
use text.Mathlib.TextEquality.{eq_iff}
use tx2_link.Common.Maps.{Map, get, IsMap, Within, none_of_Within, string_key, ◌=?◌}
use tx2_link.Protocol.{
  FieldId, FieldValue, ComponentData, binary, json, structured, SerializedComponent, field_value_eq,
  bytes_eq,
}
use tx2_link.Compression.Field.{fields_within, data_equal, components_equal}
use tx2_link.Compression.World.{identical, equals, SameFields, SameData}

bytes_eq→eq : (a b : List ℕ) → bytes_eq a b ≡ true → a ≡ b
unfolding bytes_eq
bytes_eq→eq [] [] h = refl
bytes_eq→eq [] (y ∷ b) h = cc
bytes_eq→eq (x ∷ a) [] h = cc
bytes_eq→eq (x ∷ a) (y ∷ b) h = ground (arith, bytes_eq→eq a b)

-- What `fields_within` found for a key of the first map.
fields_within-get :
    (a b : Map FieldId FieldValue) (k : FieldId) (v : FieldValue)
    → fields_within a b ≡ true
    → get k a ≡ some v
    → (w : FieldValue) × (get k b ≡ some w) × (field_value_eq v w ≡ true)
unfolding fields_within get
fields_within-get [] b k v h e = absurd (cc)
fields_within-get ((j, u) ∷ a) b k v h e = elim (Bool-cases (j =? k)) [
  | inl p ↦
      let q : j ≡ k = (string_key.beq_iff j k).0 p in
      let same : u ≡ v = ground (arith, p, e) in
      elim (Option-cases (get j b)) [
        | inl gone ↦ absurd (ground (arith, gone, h))
        | inr (w, there) ↦
            (w, subst (λ z. get z b ≡ some w) q there, rw (← same) (ground (arith, there, h)))
      ]
  | inr p ↦ fields_within-get a b k v (ground (arith, h)) (ground (arith, p, e))
]

fields_equal-SameFields :
    (a b : Map FieldId FieldValue)
    → IsMap a
    → IsMap b
    → length a ≡ length b
    → fields_within a b ≡ true
    → SameFields a b
fields_equal-SameFields a b u v n h k = elim (Option-cases (get k a)) [
  | inl gone ↦
      let within : Within a b = λ i p q. elim (Option-cases (get i a)) [
        | inl none_here ↦ p none_here
        | inr (x, here) ↦ let (w, there, e) = fields_within-get a b i x h here in cc
      ] in
      rw (gone, none_of_Within a b u v (omega arith) within k gone) (identical refl)
  | inr (x, here) ↦
      let (w, there, e) = fields_within-get a b k x h here in rw (here, there) (equals e)
]

abbrev pub IsMapData : ComponentData → Type 0
IsMapData (structured m) = IsMap m
IsMapData d = Unit

data_equal-SameData :
    (a b : ComponentData) → IsMapData a → IsMapData b → data_equal a b ≡ true → SameData a b
unfolding data_equal
data_equal-SameData (binary a) (binary b) u v h = ap binary (bytes_eq→eq a b h)
data_equal-SameData (json a) (json b) u v h = ap json ((eq_iff a b).0 h)
data_equal-SameData (structured a) (structured b) u v h =
    fields_equal-SameFields a b u v (ground arith) (ground arith)
data_equal-SameData _ _ u v h = cc

pub components_equal-SameData :
    (a b : SerializedComponent)
    → IsMapData a.payload
    → IsMapData b.payload
    → components_equal a b ≡ true
    → SameData a.payload b.payload
unfolding components_equal
components_equal-SameData a b u v h = data_equal-SameData a.payload b.payload u v (ground arith)
