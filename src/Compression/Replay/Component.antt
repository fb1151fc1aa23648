-- ===== src/Compression/Replay/Component.antt =====
-- The changes of one entity that is in both snapshots.
use tx2_link.Common.{
  ◌≡◌, refl, ◌≢◌, ◌⊎◌, inl, inr, Bool, true, false, Option, none, some, List, [], ◌∷◌, arith,
  Bool-cases, Option-cases,
}
use tx2_link.Common.Maps.{Map, get, replay_by, =?_ne, string_key}
use tx2_link.Protocol.{
  EntityId, ComponentId, FieldDelta, ComponentData, SerializedComponent, DeltaChange,
  component_added, component_updated, fields_updated,
}
use tx2_link.Compression.Json.{SerdeJson}
use tx2_link.Compression.Field.{FieldCompressor, compute_field_deltas, components_equal}
use tx2_link.Compression.Delta.{component_change, component_removal, updated_change}
use tx2_link.Compression.World.{touch}

module _ (j : SerdeJson) (f : FieldCompressor) where
  updated_cases :
      (entity : EntityId) (k : ComponentId) (s : SerializedComponent) (o : Option (List FieldDelta))
      (on : Bool)
      → (updated_change j f entity k s o on ≡ component_updated entity k s.payload ∷ [])
        ⊎ ((ds : List FieldDelta) × (o ≡ some ds)
            × (updated_change j f entity k s o on ≡ fields_updated entity k ds ∷ []))
  unfolding updated_change
  updated_cases entity k s o false = inl refl
  updated_cases entity k s none true = inl refl
  updated_cases entity k s (some []) true = inl refl
  updated_cases entity k s (some (d ∷ ds)) true = inr (d ∷ ds, refl, refl)

  -- The four things that are pushed for a component of the current entity.
  pub data Pushed (entity : EntityId) (prev : Map ComponentId SerializedComponent) (k : ComponentId)
      (s : SerializedComponent) : List DeltaChange → Type 0 where
    added : get k prev ≡ none → Pushed entity prev k s (component_added entity k s.payload ∷ [])
    equal :
        (before : SerializedComponent)
        → get k prev ≡ some before
        → components_equal before s ≡ true
        → Pushed entity prev k s []
    updated :
        (before : SerializedComponent)
        → get k prev ≡ some before
        → Pushed entity prev k s (component_updated entity k s.payload ∷ [])
    fields :
        (before : SerializedComponent) (ds : List FieldDelta)
        → get k prev ≡ some before
        → compute_field_deltas j f before s ≡ some ds
        → Pushed entity prev k s (fields_updated entity k ds ∷ [])

  pub component_change-Pushed :
      (entity : EntityId) (prev : Map ComponentId SerializedComponent) (k : ComponentId)
      (s : SerializedComponent)
      → Pushed entity prev k s (component_change j f entity prev (k, s))
  unfolding component_change
  component_change-Pushed entity prev k s = elim (Option-cases (get k prev)) [
    | inl absent ↦ rw (component_change, absent) (added absent)
    | inr (before, there) ↦ elim (Bool-cases (components_equal before s)) [
      | inl same ↦ rw (component_change, there, same) (equal before there same)
      | inr differ ↦ elim (updated_cases entity k s (compute_field_deltas j f before s) f.enabled) [
        | inl e ↦ rw (component_change, there, differ, e) (updated before there)
        | inr (ds, got, e) ↦ rw (component_change, there, differ, e) (fields before ds there got)
      ]
    ]
  ]

  module _ (shown : ComponentData → ComponentData) (entity : EntityId) (c : ComponentId)
      (prev curr : Map ComponentId SerializedComponent) where
    Pushed-skip :
        {k : ComponentId} {s : SerializedComponent} {cs : List DeltaChange}
        → k ≢ c
        → (x : Option ComponentData) → Pushed entity prev k s cs
        → replay_by (touch shown c) cs x ≡ x
    unfolding replay_by touch
    Pushed-skip {k} n x (added e) = rw (=?_ne k c n)
    Pushed-skip {k} n x (equal b e q) = refl
    Pushed-skip {k} n x (updated b e) = rw (=?_ne k c n)
    Pushed-skip {k} n x (fields b ds e q) = rw (=?_ne k c n)

    pub change_skip :
        (k : ComponentId) (s : SerializedComponent)
        → k ≢ c
        → (x : Option ComponentData)
        → replay_by (touch shown c) (component_change j f entity prev (k, s)) x ≡ x
    change_skip k s n x = Pushed-skip n x (component_change-Pushed entity prev k s)

    pub removal_skip :
        (k : ComponentId) (s : SerializedComponent)
        → k ≢ c
        → (x : Option ComponentData)
        → replay_by (touch shown c) (component_removal j f entity curr (k, s)) x ≡ x
    unfolding component_removal replay_by touch
    removal_skip k s n x = ground (arith, =?_ne k c n)
