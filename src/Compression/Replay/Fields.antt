-- ===== src/Compression/Replay/Fields.antt =====
-- Field deltas: storing the new values turns the previous fields into the current ones.
use tx2_link.Common.{
  ◌≡◌, refl, sym, subst, ◌≢◌, inl, inr, Option, none, some, true, Bool, List, [], ◌∷◌, arith,
  if◌then◌else◌, Bool-cases, Option-cases,
}
use tx2_link.Common.Maps.{
  Map, get, insert, contains_key, IsMap, for_each, replay_by, replay_by-append, replay_by-for_each,
  block_at, get-insert, =?_refl, =?_ne, ◌=?◌, string_key,
}
use tx2_link.Protocol.{FieldId, FieldValue, FieldDelta, field_value_eq}
use tx2_link.Compression.Field.{changed_field, removed_field, field_deltas}
use tx2_link.Compression.World.{
  set_fields, map_some, SameValue, identical, equals, or_null, SameFields,
}

-- What one field delta does to the field `k`.
abbrev store_at : FieldId → FieldDelta → Option FieldValue → Option FieldValue
store_at k d x = if d.field_id =? k then some d.new_value else x

get-set_fields :
    (k : FieldId) (ds : List FieldDelta) (m : Map FieldId FieldValue)
    → get k (set_fields ds m) ≡ replay_by (store_at k) ds (get k m)
unfolding set_fields replay_by
get-set_fields k [] m = refl
get-set_fields k (d ∷ ds) m =
    rw (← get-insert d.field_id k d.new_value m)
      (get-set_fields k ds (insert d.field_id d.new_value m))

-- The loops over the fields, for any kind of values, their `==`, and what is stored of a value.
module _ {V : Type 0} (value_eq : V → V → Bool) (store : V → FieldValue) (k : FieldId)
    (prev curr : Map FieldId V) where
  changed_skip :
      (j : FieldId) (v : V)
      → j ≢ k
      → (x : Option FieldValue)
      → replay_by (store_at k) (changed_field value_eq store prev (j, v)) x ≡ x
  unfolding changed_field replay_by
  changed_skip j v n x = ground (arith, =?_ne j k n)

  removed_skip :
      (j : FieldId) (v : V)
      → j ≢ k
      → (x : Option FieldValue)
      → replay_by (store_at k) (removed_field value_eq store prev curr (j, v)) x ≡ x
  unfolding removed_field replay_by
  removed_skip j v n x = ground (arith, =?_ne j k n)

  get-field_deltas :
      (m : Map FieldId FieldValue)
      → IsMap prev
      → IsMap curr
      → get k (set_fields (field_deltas value_eq store prev curr) m)
        ≡ replay_by
            (store_at k)
            (block_at (removed_field value_eq store prev curr) k (get k prev))
            (replay_by
              (store_at k)
              (block_at (changed_field value_eq store prev) k (get k curr))
              (get k m))
  unfolding field_deltas
  get-field_deltas m u v = rw (
    get-set_fields k (field_deltas value_eq store prev curr) m,
    replay_by-append (store_at k) (for_each (changed_field value_eq store prev) curr)
        (for_each (removed_field value_eq store prev curr) prev) (get k m),
    replay_by-for_each (changed_field value_eq store prev) (store_at k) k changed_skip curr v
        (get k m),
    replay_by-for_each (removed_field value_eq store prev curr) (store_at k) k removed_skip prev u,
  )

  fields_cases :
      ((v w : V) → value_eq v w ≡ true → SameValue (store v) (store w))
      → (x : Option FieldValue) → x ≡ map_some store (get k prev)
      → SameValue
          (or_null (
            replay_by
              (store_at k)
              (block_at (removed_field value_eq store prev curr) k (get k prev))
              (replay_by
                (store_at k)
                (block_at (changed_field value_eq store prev) k (get k curr))
                x)))
          (or_null (map_some store (get k curr)))
  unfolding replay_by changed_field removed_field contains_key
  fields_cases sound x h = elim (Option-cases (get k curr)) [
    | inl gone ↦ elim (Option-cases (get k prev)) [
      | inl never ↦ rw (h, gone, never) (identical refl)
      | inr (p, before) ↦ rw (h, gone, before) (identical (ground (arith, =?_refl k, gone)))
    ]
    | inr (v, now) ↦ elim (Option-cases (get k prev)) [
      | inl never ↦ rw (h, now, never) (identical (ground (arith, =?_refl k)))
      | inr (p, before) ↦ elim (Bool-cases (value_eq p v)) [
        | inl e ↦
            let kept : replay_by (store_at k)
                  (block_at (removed_field value_eq store prev curr) k (some p))
                  (replay_by (store_at k) (block_at (changed_field value_eq store prev) k (some v))
                    (some (store p)))
                ≡ some (store p) =
              ground (arith, =?_refl k, now, before, e) in
            rw (h, now, before)
              (subst (λ z. SameValue (or_null z) (store v)) (sym kept) (sound p v e))
        | inr e ↦ rw (h, now, before) (identical (ground (arith, =?_refl k, now, before, e)))
      ]
    ]
  ]

-- Storing the field deltas of two maps in what is stored of the first gives what is stored of the
-- second, field by field: up to the program's `==` on values, and with `Null` for a field that is
-- gone.
pub field_deltas-stored :
    {V : Type 0} (value_eq : V → V → Bool) (store : V → FieldValue)
    → ((v w : V) → value_eq v w ≡ true → SameValue (store v) (store w))
    → (prev curr : Map FieldId V) (m : Map FieldId FieldValue) → IsMap prev
    → IsMap curr
    → ((k : FieldId) → get k m ≡ map_some store (get k prev))
    → (k : FieldId)
    → SameValue
        (or_null (get k (set_fields (field_deltas value_eq store prev curr) m)))
        (or_null (map_some store (get k curr)))
field_deltas-stored value_eq store sound prev curr m u v h k =
    rw (get-field_deltas value_eq store k prev curr m u v)
      (fields_cases value_eq store k prev curr sound (get k m) (h k))

map_some-same : (x : Option FieldValue) → map_some (λ v. v) x ≡ x
map_some-same none = refl
map_some-same (some v) = refl

pub field_deltas-SameFields :
    (prev curr : Map FieldId FieldValue)
    → IsMap prev
    → IsMap curr
    → SameFields (set_fields (field_deltas field_value_eq (λ v. v) prev curr) prev) curr
field_deltas-SameFields prev curr u v k = rw (← map_some-same (get k curr)) (
    field_deltas-stored field_value_eq (λ v. v) (λ v w e. equals e) prev curr prev u v
      (λ k. sym (map_some-same (get k prev))) k)
