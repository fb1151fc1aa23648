-- ===== src/Schema/History.antt =====
-- The version history of a component, next to the schema that is stored for it.
use tx2_link.Common.{
  ℕ, ◌<◌, ◌≡◌, refl, inl, inr, false, Option, none, some, List, [], ◌∷◌, ◌++◌, arith, if◌then◌else◌,
  All, Bool-cases, Option-cases,
}
use tx2_link.Common.Maps.{get as find, get-insert, ◌=?◌, string_key}
use tx2_link.Error.{Result, ok, err}
use tx2_link.Protocol.{ComponentId}
use tx2_link.Schema.{SchemaVersion, ComponentSchema}
use tx2_link.Schema.Registry.{
  Tables, new_tables, register, is_stale, push_version, get, get_version_history,
}
use tx2_link.Schema.Versions.{
  register_all, IsOpen, stored, versions, register-IsOpen, register_stale, stored-register,
  newer_than,
}

-- Each version is older than all that follow.
abbrev pub Ascending : List SchemaVersion → Type 0
Ascending [] = Unit
Ascending (v ∷ vs) = All (λ w. v < w) vs × Ascending vs

All-snoc : (P : ℕ → Type 0) (l : List ℕ) (a : ℕ) → All P l → P a → All P (l ++ a ∷ [])
All-snoc P [] a h p = (p, tt)
All-snoc P (b ∷ l) a h p = (h.0, All-snoc P l a h.1 p)

All_at_end : (P : ℕ → Type 0) (l : List ℕ) (a : ℕ) → All P (l ++ a ∷ []) → P a
All_at_end P [] a h = h.0
All_at_end P (b ∷ l) a h = All_at_end P l a h.1

Ascending-snoc :
    (us : List ℕ) (a b : ℕ)
    → Ascending (us ++ a ∷ [])
    → a < b
    → Ascending ((us ++ a ∷ []) ++ b ∷ [])
Ascending-snoc [] a b h lt = ((lt, tt), (tt, tt))
Ascending-snoc (u ∷ us) a b h lt =
    let last : u < a = All_at_end (λ w. u < w) us a h.0 in
    (All-snoc (λ w. u < w) (us ++ a ∷ []) b h.0 (omega (arith, last)), Ascending-snoc us a b h.1 lt)

-- The versions kept for a component that has the schema `o`.
abbrev IsRecord : Option ComponentSchema → Option (List SchemaVersion) → Type 0
IsRecord none o = o ≡ none
IsRecord (some s) o =
    (us : List SchemaVersion) × (o ≡ some (us ++ s.version ∷ [])) × Ascending (us ++ s.version ∷ [])

abbrev IsRecorded : Tables → Type 0
IsRecorded t = (c : ComponentId) → IsRecord (stored c t) (versions c t)

module _ (s : ComponentSchema) (t : Tables) (o : IsOpen t) where
  versions-register :
      (c : ComponentId)
      → is_stale (stored s.component_id t) s.version ≡ false
      → versions c (register s t).1 ≡ (
          if s.component_id =? c
          then some
              ((elim (versions s.component_id t) [ none ↦ [] | some vs ↦ vs ]) ++ s.version ∷ [])
          else versions c t)
  unfolding register push_version
  versions-register c h = rw (o.0, o.1, h) (get-insert s.component_id c _ t.version_history.inner)

  pushed-IsRecord :
      is_stale (stored s.component_id t) s.version ≡ false
      → IsRecord (stored s.component_id t) (versions s.component_id t)
      → IsRecord
          (some s)
          (some ((elim (versions s.component_id t) [ none ↦ [] | some vs ↦ vs ]) ++ s.version ∷ []))
  pushed-IsRecord fresh h = elim (Option-cases (stored s.component_id t)) [
    | inl first ↦
        let empty : versions s.component_id t ≡ none = rw first at h in
        rw empty ([], refl, (tt, tt))
    | inr (old, there) ↦
        let (us, e, up) : IsRecord (some old) (versions s.component_id t) = rw there at h in
        let lt = newer_than (stored s.component_id t) old s.version fresh there in
        rw e (us ++ old.version ∷ [], refl, Ascending-snoc us old.version s.version up lt)
  ]

  register-IsRecorded : IsRecorded t → IsRecorded (register s t).1
  register-IsRecorded h c = elim (Bool-cases (is_stale (stored s.component_id t) s.version)) [
    | inl old ↦ rw (register_stale s t o old) (h c)
    | inr fresh ↦ elim (Bool-cases (s.component_id =? c)) [
      | inl p ↦
          rw (stored-register s t o c fresh, versions-register c fresh, p)
            (pushed-IsRecord fresh (h s.component_id))
      | inr p ↦ rw (stored-register s t o c fresh, versions-register c fresh, p) (h c)
    ]
  ]

register_all-IsRecorded :
    (ss : List ComponentSchema) (t : Tables)
    → IsOpen t
    → IsRecorded t
    → IsRecorded (register_all ss t) × IsOpen (register_all ss t)
unfolding register_all
register_all-IsRecorded [] t o h = (h, o)
register_all-IsRecorded (s ∷ ss) t o h =
    register_all-IsRecorded ss (register s t).1 (register-IsOpen s t o)
      (register-IsRecorded s t o h)

-- What the history of a component should be, given the lookup of its schema.
abbrev pub IsHistory : Result ComponentSchema → Result (List SchemaVersion) → Type 0
IsHistory (ok s) (ok vs) = (us : List SchemaVersion) × (vs ≡ us ++ s.version ∷ []) × Ascending vs
IsHistory (err e) (ok vs) = vs ≡ []
IsHistory _ (err e) = ⊥

IsRecord-IsHistory :
    (t : Tables) (c : ComponentId)
    → IsOpen t
    → IsRecord (stored c t) (versions c t)
    → IsHistory (get c t) (get_version_history c t)
unfolding get get_version_history
IsRecord-IsHistory t c o h = elim (Option-cases (stored c t)) [
  | inl gone ↦ let empty : versions c t ≡ none = rw gone at h in rw (o.0, o.1, gone, empty) refl
  | inr (s, there) ↦
      let (us, e, up) : IsRecord (some s) (versions c t) = rw there at h in
      rw (o.0, o.1, there, e) (us, refl, up)
]

-- After any run of registrations the history of a component is empty if it has no schema, and else
-- has strictly growing versions, of which the last is the version of the schema that is stored.
pub register_all-IsHistory :
    (ss : List ComponentSchema) (c : ComponentId)
    → IsHistory
        (get c (register_all ss new_tables))
        (get_version_history c (register_all ss new_tables))
unfolding find
register_all-IsHistory ss c =
    let (r, o) = register_all-IsRecorded ss new_tables (refl, refl) (λ d. refl) in
    IsRecord-IsHistory (register_all ss new_tables) c o (r c)
