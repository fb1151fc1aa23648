-- ===== src/Schema/Versions.antt =====
-- Which schema a registry has after a run of registrations, and what the version history says.
use tx2_link.Common.{
  ◌≤◌, ◌<◌, ◌≡◌, ◌≢◌, ◌⊎◌, refl, inl, inr, true, false, Option, none, some, List, [], ◌∷◌, arith,
  if◌then◌else◌, All, Any, some_inj, Bool-cases, Option-cases, subst,
}
use tx2_link.Common.Maps.{get as find, get-insert, ◌=?◌, =?_refl, string_key}
use tx2_link.Error.{schema_not_found, Result, ok, err}
use tx2_link.Protocol.{ComponentId}
use tx2_link.Schema.{SchemaVersion, ComponentSchema}
use tx2_link.Schema.Registry.{Tables, new_tables, register, is_stale, get}

-- Schemas that are registered one after the other, errors being ignored.
unfoldable pub register_all : List ComponentSchema → Tables → Tables
unfolding register
register_all [] t = t
register_all (s ∷ ss) t = register_all ss (register s t).1

-- No lock is poisoned.
abbrev pub IsOpen : Tables → Type 0
IsOpen t = (t.schemas.poisoned ≡ false) × (t.version_history.poisoned ≡ false)

abbrev pub stored : ComponentId → Tables → Option ComponentSchema
stored c t = find c t.schemas.inner

abbrev pub versions : ComponentId → Tables → Option (List SchemaVersion)
versions c t = find c t.version_history.inner

module _ (s : ComponentSchema) (t : Tables) (o : IsOpen t) where
  pub register-IsOpen : IsOpen (register s t).1
  unfolding register
  register-IsOpen = ground (arith, o.0, o.1)

  pub register_stale : is_stale (stored s.component_id t) s.version ≡ true → (register s t).1 ≡ t
  unfolding register
  register_stale h = rw (o.0, o.1, h) refl

  pub stored-register :
      (c : ComponentId)
      → is_stale (stored s.component_id t) s.version ≡ false
      → stored c (register s t).1 ≡ (if s.component_id =? c then some s else stored c t)
  unfolding register
  stored-register c h = rw (o.0, o.1, h) (get-insert s.component_id c s t.schemas.inner)

stale_cases :
    (o : Option ComponentSchema) (v : SchemaVersion)
    → is_stale o v ≡ true
    → (old : ComponentSchema) × (o ≡ some old) × (v ≤ old.version)
unfolding is_stale
stale_cases none v h = cc
stale_cases (some old) v h = (old, refl, ground arith)

pub newer_than :
    (o : Option ComponentSchema) (old : ComponentSchema) (v : SchemaVersion)
    → is_stale o v ≡ false
    → o ≡ some old
    → old.version < v
unfolding is_stale
newer_than o old v h e = ground (arith, rw e at h)

-- A stored schema gives way to newer ones only.
abbrev HasFrom : ComponentId → SchemaVersion → Tables → Type 0
HasFrom c v t = (b : ComponentSchema) × (stored c t ≡ some b) × (v ≤ b.version)

register-HasFrom :
    (s : ComponentSchema) (t : Tables)
    → IsOpen t
    → (c : ComponentId) (v : SchemaVersion) → HasFrom c v t
    → HasFrom c v (register s t).1
register-HasFrom s t o c v (a, e, h) =
    elim (Bool-cases (is_stale (stored s.component_id t) s.version)) [
      | inl old ↦ rw (register_stale s t o old) (a, e, h)
      | inr fresh ↦ elim (Bool-cases (s.component_id =? c)) [
        | inl p ↦
            let q : s.component_id ≡ c = (string_key.beq_iff s.component_id c).0 p in
            let lt : a.version < s.version =
              newer_than (stored s.component_id t) a s.version fresh (rw q e) in
            (s, rw (stored-register s t o c fresh, p) refl, omega (arith, lt, h))
        | inr p ↦ (a, rw (stored-register s t o c fresh, p) e, h)
      ]
    ]

register_all-HasFrom :
    (ss : List ComponentSchema) (t : Tables)
    → IsOpen t
    → (c : ComponentId) (v : SchemaVersion) → HasFrom c v t
    → HasFrom c v (register_all ss t)
unfolding register_all
register_all-HasFrom [] t o c v h = h
register_all-HasFrom (s ∷ ss) t o c v h =
    register_all-HasFrom ss (register s t).1 (register-IsOpen s t o) c v
      (register-HasFrom s t o c v h)

-- After a registration, accepted or not, the component has that version or a newer one.
register-covers :
    (s : ComponentSchema) (t : Tables)
    → IsOpen t
    → HasFrom s.component_id s.version (register s t).1
register-covers s t o = elim (Bool-cases (is_stale (stored s.component_id t) s.version)) [
  | inl old ↦
      let (b, e, h) = stale_cases (stored s.component_id t) s.version old in
      rw (register_stale s t o old) (b, e, h)
  | inr fresh ↦
      (s, rw (stored-register s t o s.component_id fresh, =?_refl s.component_id) refl, omega arith)
]

register_all-covers :
    (ss : List ComponentSchema) (t : Tables)
    → IsOpen t
    → All (λ s. HasFrom s.component_id s.version (register_all ss t)) ss
unfolding register_all
register_all-covers [] t o = tt
register_all-covers (s ∷ ss) t o =
    let u = register-IsOpen s t o in
    (
      register_all-HasFrom ss (register s t).1 u s.component_id s.version (register-covers s t o),
      register_all-covers ss (register s t).1 u,
    )

-- What is stored was stored before or has been registered.
register_all-origin :
    (ss : List ComponentSchema) (t : Tables)
    → IsOpen t
    → (c : ComponentId) (b : ComponentSchema) → stored c (register_all ss t) ≡ some b
    → (stored c t ≡ some b) ⊎ ((b.component_id ≡ c) × Any (λ s. s ≡ b) ss)
unfolding register_all
register_all-origin [] t o c b e = inl e
register_all-origin (s ∷ ss) t o c b e =
    elim (register_all-origin ss (register s t).1 (register-IsOpen s t o) c b e) [
      | inr (p, q) ↦ inr (p, inr q)
      | inl before ↦ elim (Bool-cases (is_stale (stored s.component_id t) s.version)) [
        | inl old ↦ inl (rw (register_stale s t o old) at before)
        | inr fresh ↦ elim (Bool-cases (s.component_id =? c)) [
          | inl p ↦
              let same : s ≡ b = some_inj.0 (rw (stored-register s t o c fresh, p) at before) in
              inr (
                subst (λ z. z.component_id ≡ c) same ((string_key.beq_iff s.component_id c).0 p),
                inl same,
              )
          | inr p ↦ inl (rw (stored-register s t o c fresh, p) at before)
        ]
      ]
    ]

pub register_all-open :
    (ss : List ComponentSchema) (t : Tables)
    → IsOpen t
    → (register_all ss t).schemas.poisoned ≡ false
unfolding register_all
register_all-open [] t o = o.0
register_all-open (s ∷ ss) t o = register_all-open ss (register s t).1 (register-IsOpen s t o)

-- What a lookup should give after the registrations `ss`: a schema of the component that is no
-- older than any other, or an error if there is none.
abbrev pub IsNewest : ComponentId → List ComponentSchema → Result ComponentSchema → Type 0
IsNewest c ss (ok s) =
    (s.component_id ≡ c)
    × Any (λ a. a ≡ s) ss
    × All (λ a. a.component_id ≡ c → a.version ≤ s.version) ss
IsNewest c ss (err e) = (e ≡ schema_not_found c) × All (λ a. a.component_id ≢ c) ss

All-weaken :
    {A : Type 0} {P Q : A → Type 0} → ((a : A) → P a → Q a) → (l : List A) → All P l → All Q l
All-weaken f [] h = tt
All-weaken f (a ∷ l) h = (f a h.0, All-weaken f l h.1)

-- After any run of registrations, whichever of them were refused, a lookup gives the registered
-- schema of the component with the highest version, and fails only for a component that was not
-- registered.
pub register_all-IsNewest :
    (ss : List ComponentSchema) (c : ComponentId)
    → IsNewest c ss (get c (register_all ss new_tables))
unfolding get find
register_all-IsNewest ss c =
    let t = register_all ss new_tables in
    let o : IsOpen new_tables = (refl, refl) in
    let cover = register_all-covers ss new_tables o in
    elim (Option-cases (stored c t)) [
      | inl gone ↦
          rw (register_all-open ss new_tables o, gone)
            (
              refl,
              All-weaken (λ a h p. let (b, e, le) = h in absurd (ground (arith, rw (p, gone) at e)))
                  ss cover,
            )
      | inr (s, there) ↦
          let found = register_all-origin ss new_tables o c s there in
          rw (register_all-open ss new_tables o, there)
            (elim found [
              | inl before ↦ absurd (ground (arith, before))
              | inr (p, q) ↦ (
                p,
                q,
                All-weaken
                    (λ a h r.
                      let (b, e, le) = h in
                      let same : s ≡ b = some_inj.0 (rw (r, there) at e) in rw same le)
                    ss cover,
              )
            ])
    ]
