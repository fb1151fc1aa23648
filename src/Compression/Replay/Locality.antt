-- ===== src/Compression/Replay/Locality.antt =====
-- A change touches one entity, and a change of a component touches it component by component.
use tx2_link.Common.{
  ◌≡◌, refl, ◌≢◌, inl, inr, not, Option, some, List, [], ◌∷◌, ◌++◌, All, sym, ◌∙◌, Bool-cases,
}
use tx2_link.Common.Maps.{
  Map, contains_key, for_each, replay_by, =?_refl, =?_ne, string_key, nat_key,
}
use tx2_link.Protocol.{
  EntityId, ComponentId, ComponentData, SerializedComponent, DeltaChange, entity_added,
  entity_removed, component_added, component_removed, component_updated, fields_updated,
}
use tx2_link.Compression.Json.{SerdeJson}
use tx2_link.Compression.Field.{FieldCompressor}
use tx2_link.Compression.Delta.{push_added, component_change, component_removal}
use tx2_link.Compression.World.{Components, apply_at, touch}
use tx2_link.Compression.Replay.Component.{
  Pushed, added, equal, updated, fields, component_change-Pushed,
}

abbrev pub entity_of : DeltaChange → EntityId
entity_of (entity_added i) = i
entity_of (entity_removed i) = i
entity_of (component_added i k d) = i
entity_of (component_removed i k) = i
entity_of (component_updated i k d) = i
entity_of (fields_updated i k ds) = i

module _ (shown : ComponentData → ComponentData) where
  skip_one :
      (e : EntityId) (d : DeltaChange)
      → entity_of d ≢ e
      → (x : Option Components) → apply_at shown e d x ≡ x
  unfolding apply_at
  skip_one e (entity_added i) n x = rw (=?_ne i e n)
  skip_one e (entity_removed i) n x = rw (=?_ne i e n)
  skip_one e (component_added i k d) n x = rw (=?_ne i e n)
  skip_one e (component_removed i k) n x = rw (=?_ne i e n)
  skip_one e (component_updated i k d) n x = rw (=?_ne i e n)
  skip_one e (fields_updated i k ds) n x = rw (=?_ne i e n)

  -- Changes of other entities leave `e` alone.
  pub apply_at_ne :
      (e i : EntityId) (cs : List DeltaChange)
      → All (λ c. entity_of c ≡ i) cs
      → i ≢ e
      → (x : Option Components) → replay_by (apply_at shown e) cs x ≡ x
  unfolding replay_by
  apply_at_ne e i [] h n x = refl
  apply_at_ne e i (c ∷ cs) h n x =
      rw (skip_one e c (λ p. n (sym h.0 ∙ p)) x) (apply_at_ne e i cs h.1 n x)

-- A change of a component of the entity `e`.
abbrev pub OfComponent : EntityId → DeltaChange → Type 0
OfComponent e (entity_added i) = ⊥
OfComponent e (entity_removed i) = ⊥
OfComponent e (component_added i k d) = i ≡ e
OfComponent e (component_removed i k) = i ≡ e
OfComponent e (component_updated i k d) = i ≡ e
OfComponent e (fields_updated i k ds) = i ≡ e

module _ (shown : ComponentData → ComponentData) where
  apply_at-touch :
      (e : EntityId) (d : DeltaChange) (f : Components)
      → OfComponent e d
      → apply_at shown e d (some f) ≡ some (λ c. touch shown c d (f c))
  unfolding apply_at
  apply_at-touch e (entity_added i) f h = absurd h
  apply_at-touch e (entity_removed i) f h = absurd h
  apply_at-touch e (component_added i k d) f h = rw (h, =?_refl e)
  apply_at-touch e (component_removed i k) f h = rw (h, =?_refl e)
  apply_at-touch e (component_updated i k d) f h = rw (h, =?_refl e)
  apply_at-touch e (fields_updated i k ds) f h = rw (h, =?_refl e)

  -- Changes of components act on each component by itself.
  pub replay_by-touch :
      (e : EntityId) (cs : List DeltaChange) (f : Components)
      → All (OfComponent e) cs
      → replay_by (apply_at shown e) cs (some f) ≡ some (λ c. replay_by (touch shown c) cs (f c))
  unfolding replay_by
  replay_by-touch e [] f h = refl
  replay_by-touch e (d ∷ cs) f h =
      rw (apply_at-touch e d f h.0) (replay_by-touch e cs (λ c. touch shown c d (f c)) h.1)

module _ (P : DeltaChange → Type 0) where
  pub All-append : (cs ds : List DeltaChange) → All P cs → All P ds → All P (cs ++ ds)
  All-append [] ds h g = g
  All-append (c ∷ cs) ds h g = (h.0, All-append cs ds h.1 g)

  pub All-for_each :
      {A : Type 0} (block : A → List DeltaChange)
      → ((a : A) → All P (block a))
      → (l : List A) → All P (for_each block l)
  unfolding for_each
  All-for_each block h [] = tt
  All-for_each block h (a ∷ l) =
      All-append (block a) (for_each block l) (h a) (All-for_each block h l)

entity_of-OfComponent : (e : EntityId) (d : DeltaChange) → OfComponent e d → entity_of d ≡ e
entity_of-OfComponent e (entity_added i) h = absurd h
entity_of-OfComponent e (entity_removed i) h = absurd h
entity_of-OfComponent e (component_added i k d) h = h
entity_of-OfComponent e (component_removed i k) h = h
entity_of-OfComponent e (component_updated i k d) h = h
entity_of-OfComponent e (fields_updated i k ds) h = h

pub All-entity_of :
    (e : EntityId) (cs : List DeltaChange) → All (OfComponent e) cs → All (λ d. entity_of d ≡ e) cs
All-entity_of e [] h = tt
All-entity_of e (d ∷ cs) h = (entity_of-OfComponent e d h.0, All-entity_of e cs h.1)

pub push_added-OfComponent :
    (e : EntityId) (l : List SerializedComponent) → All (OfComponent e) (for_each (push_added e) l)
push_added-OfComponent e l = All-for_each (OfComponent e) (push_added e) (λ c. (refl, tt)) l

module _ (j : SerdeJson) (f : FieldCompressor) (e : EntityId)
    (prev curr : Map ComponentId SerializedComponent) where
  Pushed-OfComponent :
      {k : ComponentId} {s : SerializedComponent} {cs : List DeltaChange}
      → Pushed j f e prev k s cs
      → All (OfComponent e) cs
  Pushed-OfComponent (added p) = (refl, tt)
  Pushed-OfComponent (equal b p q) = tt
  Pushed-OfComponent (updated b p) = (refl, tt)
  Pushed-OfComponent (fields b ds p q) = (refl, tt)

  removal-OfComponent :
      (k : ComponentId) (s : SerializedComponent)
      → All (OfComponent e) (component_removal j f e curr (k, s))
  unfolding component_removal
  removal-OfComponent k s = elim (Bool-cases (contains_key k curr)) [
    | inl p ↦ rw (p, not) tt
    | inr p ↦ rw (p, not) (refl, tt)
  ]

  pub changes-OfComponent :
      All (OfComponent e) (
        for_each (component_change j f e prev) curr ++ for_each (component_removal j f e curr) prev)
  changes-OfComponent =
      All-append (OfComponent e) (for_each (component_change j f e prev) curr)
        (for_each (component_removal j f e curr) prev)
        (All-for_each (OfComponent e) (component_change j f e prev)
          (λ p. Pushed-OfComponent (component_change-Pushed j f e prev p.0 p.1)) curr)
        (All-for_each (OfComponent e) (component_removal j f e curr)
          (λ p. removal-OfComponent p.0 p.1) prev)
