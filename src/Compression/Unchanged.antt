-- ===== src/Compression/Unchanged.antt =====
-- A world that has not changed gives an empty delta.
use tx2_link.Common.{
  ◌≡◌, ◌≢◌, refl, sym, ◌∙◌, true, some, List, [], ◌∷◌, ◌+◌, ◌*◌, map, arith, All, All-map,
}
use tx2_link.Common.Maps.{
  Key, Map, get, contains_key, IsMap, for_each, HashOrder, get-collect_All, collect-IsMap,
  get_of_Fresh, =?_refl, =?_ne, string_key, nat_key,
}
use tx2_link.Protocol.{EntityId, ComponentId, SerializedComponent, SerializedEntity}
use tx2_link.Serialization.{WorldSnapshot}
use tx2_link.Compression.Json.{SerdeJson}
use tx2_link.Compression.Field.{FieldCompressor, components_equal}
use tx2_link.Compression.Delta.{
  by_id, by_name, component_change, component_removal, compute_component_changes, entity_change,
  entity_removal, compute_changes,
}

module _ {K V D : Type 0} ⦃k : Key K⦄ (block : K × V → List D) where
  -- A loop over a map pushes nothing if no entry does.
  for_each-nil :
      (m : Map K V)
      → IsMap m
      → ((i : K) (v : V) → get i m ≡ some v → block (i, v) ≡ [])
      → for_each block m ≡ []
  unfolding for_each get
  for_each-nil [] u h = refl
  for_each-nil ((i, v) ∷ m) u h =
      rw (h i v (rw (=?_refl i) refl))
        (for_each-nil m u.1 (λ j w e. h j w (rw (=?_ne i j (ne j w e)) e)))
    where
      ne : (j : K) (w : V) → get j m ≡ some w → i ≢ j
      ne j w e p = absurd (ground (arith, get_of_Fresh i m u.0, rw (sym p) at e))

-- The program's `==` takes the component for equal to itself, which a NaN in a field prevents.
abbrev pub IsReflexive : SerializedComponent → Type 0
IsReflexive c = components_equal c c ≡ true

abbrev pub IsReflexiveEntity : SerializedEntity → Type 0
IsReflexiveEntity e = All IsReflexive e.components

module _ (j : SerdeJson) (f : FieldCompressor)
    (order : HashOrder ComponentId SerializedComponent) where
  module _ (e : EntityId) (prev curr : Map ComponentId SerializedComponent)
      (same : (k : ComponentId) → get k prev ≡ get k curr) where
    component_change-nil :
        (k : ComponentId) (s : SerializedComponent)
        → IsReflexive s
        → get k curr ≡ some s
        → component_change j f e prev (k, s) ≡ []
    unfolding component_change
    component_change-nil k s r h = rw (component_change, same k, h, r) refl

    component_removal-nil :
        (k : ComponentId) (s : SerializedComponent)
        → get k prev ≡ some s
        → component_removal j f e curr (k, s) ≡ []
    unfolding component_removal contains_key
    component_removal-nil k s h = rw (component_removal, contains_key, ← same k, h) refl

  compute_component_changes-nil :
      (i : EntityId) (e : SerializedEntity)
      → IsReflexiveEntity e
      → compute_component_changes j f order i e e ≡ []
  unfolding compute_component_changes by_name
  compute_component_changes-nil i e r =
      let pairs = map (λ c. (c.id, c)) e.components in
      let m = by_name e.components in
      let u : IsMap m = collect-IsMap pairs in
      let prev = order.arrange (2 * i) m in
      let curr = order.arrange (2 * i + 1) m in
      let same : (k : ComponentId) → get k prev ≡ get k curr =
        λ k. order.get-arrange (2 * i) k m u ∙ sym (order.get-arrange (2 * i + 1) k m u) in
      rw
        (
          for_each-nil (component_change j f i prev) curr (order.arrange-IsMap (2 * i + 1) m u)
              (λ k s h.
                component_change-nil i prev curr same k s
                  (get-collect_All IsReflexive k s pairs
                    (All-map (λ p. IsReflexive p.1) (λ c. (c.id, c)) e.components r)
                    (sym (order.get-arrange (2 * i + 1) k m u) ∙ h))
                  h),
          for_each-nil (component_removal j f i curr) prev (order.arrange-IsMap (2 * i) m u)
              (component_removal-nil i prev curr same),
        )
        refl

  module _ (prev curr : Map EntityId SerializedEntity)
      (same : (i : EntityId) → get i prev ≡ get i curr) where
    entity_change-nil :
        (i : EntityId) (e : SerializedEntity)
        → IsReflexiveEntity e
        → get i curr ≡ some e
        → entity_change j f order prev (i, e) ≡ []
    unfolding entity_change
    entity_change-nil i e r h = rw (entity_change, same i, h) (compute_component_changes-nil i e r)

    entity_removal-nil :
        (i : EntityId) (e : SerializedEntity)
        → get i prev ≡ some e
        → entity_removal j f order curr (i, e) ≡ []
    unfolding entity_removal contains_key
    entity_removal-nil i e h = rw (entity_removal, contains_key, ← same i, h) refl

  -- Two snapshots with the same entities give no changes, in whatever order the hash maps are
  -- iterated, if each component is equal to itself by the program's `==`.
  pub compute_changes_unchanged :
      (entities : HashOrder EntityId SerializedEntity) (s t : WorldSnapshot)
      → s.entities ≡ t.entities
      → All IsReflexiveEntity t.entities
      → compute_changes j f order entities s t ≡ []
  unfolding compute_changes by_id
  compute_changes_unchanged entities s t e r =
      let pairs = map (λ a. (a.id, a)) t.entities in
      let m = by_id t.entities in
      let u : IsMap m = collect-IsMap pairs in
      let prev = entities.arrange 0 m in
      let curr = entities.arrange 1 m in
      let same : (i : EntityId) → get i prev ≡ get i curr =
        λ i. entities.get-arrange 0 i m u ∙ sym (entities.get-arrange 1 i m u) in
      rw
        (
          e,
          for_each-nil (entity_change j f order prev) curr (entities.arrange-IsMap 1 m u) (λ i a h.
              entity_change-nil prev curr same i a
                (get-collect_All IsReflexiveEntity i a pairs
                  (All-map (λ p. IsReflexiveEntity p.1) (λ b. (b.id, b)) t.entities r)
                  (sym (entities.get-arrange 1 i m u) ∙ h))
                h),
          for_each-nil (entity_removal j f order curr) prev (entities.arrange-IsMap 0 m u)
              (entity_removal-nil prev curr same),
        )
        refl
