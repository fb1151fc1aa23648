-- ===== src/Schema/Accepts.antt =====
-- What the validator accepts.
use tx2_link.Common.{
  ℕ, ==_iff, ◌≡◌, ◌⊎◌, ◌↔◌, refl, inl, inr, true, none, some, List, [], ◌∷◌, ◌++◌, arith, All,
  Bool-cases, Option-cases, if◌then◌else◌, ◌==◌, ap, ◌∙◌, sym,
}
use tx2_link.Common.Maps.{Map, get as find, contains_key, string_key}
use tx2_link.Error.{LinkError, invalid_message, Result, ok, err, ◌>>=◌}
use tx2_link.Protocol.{ComponentId, FieldId, FieldType}
use tx2_link.Schema.{FieldSchema, ComponentSchema, field_type_eq, discriminant}
use tx2_link.Schema.Registry.{Tables, get}
use tx2_link.Schema.Validator.{
  missing_text, type_text, check_field, check_fields, validate_component,
}

of_discriminant : ℕ → FieldType
of_discriminant n =
    if n == 0
    then FieldType.null
    else if n == 1
    then FieldType.bool
    else if n == 2
    then FieldType.u8
    else if n == 3
    then FieldType.u16
    else if n == 4
    then FieldType.u32
    else if n == 5
    then FieldType.u64
    else if n == 6
    then FieldType.i8
    else if n == 7
    then FieldType.i16
    else if n == 8
    then FieldType.i32
    else if n == 9
    then FieldType.i64
    else if n == 10
    then FieldType.f32
    else if n == 11
    then FieldType.f64
    else if n == 12
    then FieldType.string
    else if n == 13
    then FieldType.bytes
    else if n == 14
    then FieldType.array
    else FieldType.map

of_discriminant-discriminant : (t : FieldType) → of_discriminant (discriminant t) ≡ t
unfolding of_discriminant
of_discriminant-discriminant FieldType.null = refl
of_discriminant-discriminant FieldType.bool = refl
of_discriminant-discriminant FieldType.u8 = refl
of_discriminant-discriminant FieldType.u16 = refl
of_discriminant-discriminant FieldType.u32 = refl
of_discriminant-discriminant FieldType.u64 = refl
of_discriminant-discriminant FieldType.i8 = refl
of_discriminant-discriminant FieldType.i16 = refl
of_discriminant-discriminant FieldType.i32 = refl
of_discriminant-discriminant FieldType.i64 = refl
of_discriminant-discriminant FieldType.f32 = refl
of_discriminant-discriminant FieldType.f64 = refl
of_discriminant-discriminant FieldType.string = refl
of_discriminant-discriminant FieldType.bytes = refl
of_discriminant-discriminant FieldType.array = refl
of_discriminant-discriminant FieldType.map = refl

pub field_type_eq_iff : (a b : FieldType) → (field_type_eq a b ≡ true) ↔ (a ≡ b)
unfolding field_type_eq
field_type_eq_iff a b = (
  λ h.
      let e : discriminant a ≡ discriminant b = (==_iff (discriminant a) (discriminant b)).0 h in
      sym (of_discriminant-discriminant a) ∙ ap of_discriminant e ∙ of_discriminant-discriminant b,
  λ e. (==_iff (discriminant a) (discriminant b)).1 (ap discriminant e),
)

-- A field is there if it must be, and has the schema's type if it is there.
abbrev pub Satisfies : Map FieldId FieldType → FieldSchema → Type 0
Satisfies fields f = elim (find f.field_id fields) [
  | none ↦ f.optional ≡ true
  | some t ↦ t ≡ f.field_type
]

module _ (c : ComponentId) (fields : Map FieldId FieldType) where
  -- What the code says of a field that is missing or has the wrong type.
  abbrev pub reason : FieldSchema → LinkError
  reason f = elim (find f.field_id fields) [
    | none ↦ invalid_message (missing_text f.field_id c)
    | some t ↦ invalid_message (type_text f.field_id c)
  ]

  check_field_cases :
      (f : FieldSchema)
      → ((check_field c fields f ≡ ok tt) × Satisfies fields f)
        ⊎ ((check_field c fields f ≡ err (reason f)) × (Satisfies fields f → ⊥))
  unfolding check_field contains_key
  check_field_cases f = elim (Option-cases (find f.field_id fields)) [
    | inl gone ↦ elim (Bool-cases f.optional) [
      | inl p ↦ inl (ground (arith, gone, p), rw (Satisfies, gone) p)
      | inr p ↦ inr (ground (arith, gone, p), λ h. cc (p, rw (Satisfies, gone) at h))
    ]
    | inr (t, there) ↦ elim (Bool-cases (field_type_eq t f.field_type)) [
      | inl p ↦
          inl (
            ground (arith, there, p),
            rw (Satisfies, there) ((field_type_eq_iff t f.field_type).0 p),
          )
      | inr p ↦ inr (
        ground (arith, there, p),
        λ h. cc (p, (field_type_eq_iff t f.field_type).1 (rw (Satisfies, there) at h)),
      )
    ]
  ]

  -- The first field that is not satisfied.
  abbrev pub FirstFailure : List FieldSchema → LinkError → Type 0
  FirstFailure fs e =
      (before : List FieldSchema) × (f : FieldSchema) × (after : List FieldSchema) × (fs
        ≡ before ++ f ∷ after)
      × All (Satisfies fields) before
      × (Satisfies fields f → ⊥)
      × (e ≡ reason f)

  abbrev pub IsVerdictOn : List FieldSchema → Result (Unit {0}) → Type 0
  IsVerdictOn fs (ok u) = All (Satisfies fields) fs
  IsVerdictOn fs (err e) = FirstFailure fs e

  later :
      (f : FieldSchema) (fs : List FieldSchema) (r : Result (Unit {0}))
      → Satisfies fields f
      → IsVerdictOn fs r
      → IsVerdictOn (f ∷ fs) r
  later f fs (ok u) h v = (h, v)
  later f fs (err e) h (before, g, after, p, all, bad, q) =
      (f ∷ before, g, after, ap (◌∷◌ f) p, (h, all), bad, q)

  check_fields-IsVerdictOn : (fs : List FieldSchema) → IsVerdictOn fs (check_fields c fields fs)
  unfolding check_fields
  check_fields-IsVerdictOn [] = tt
  check_fields-IsVerdictOn (f ∷ fs) = elim (check_field_cases f) [
    | inl (p, h) ↦ rw p (later f fs (check_fields c fields fs) h (check_fields-IsVerdictOn fs))
    | inr (p, h) ↦ rw p ([], f, fs, refl, tt, h, refl)
  ]

  -- What the validator should say, given the lookup of the schema.
  abbrev pub IsVerdict : Result ComponentSchema → Result (Unit {0}) → Type 0
  IsVerdict (err e) r = r ≡ err e
  IsVerdict (ok s) r = IsVerdictOn s.fields r

-- The validator accepts a component exactly when its schema is found, each field that is not
-- optional is there and each field that is there has the schema's type; else it reports the lookup's
-- error, or the first field, in the schema's order, that is missing or has a wrong type.
pub validate_component-IsVerdict :
    (c : ComponentId) (fields : Map FieldId FieldType) (t : Tables)
    → IsVerdict c fields (get c t) (validate_component c fields t)
unfolding validate_component
validate_component-IsVerdict c fields t = verdict_of (get c t)
  where
    verdict_of :
        (r : Result ComponentSchema)
        → IsVerdict c fields r (r >>= λ s. check_fields c fields s.fields)
    verdict_of (err e) = refl
    verdict_of (ok s) = check_fields-IsVerdictOn c fields s.fields
