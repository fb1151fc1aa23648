-- ===== src/Compression/Replay/Added.antt =====
-- New entities, and the first delta, which adds everything.
use tx2_link.Common.{
  ◌≡◌, ◌≢◌, refl, sym, ◌∙◌, ap, fun_ext, Option, none, some, List, [], ◌∷◌, map, arith, All,
  Bool-cases, inl, inr,
}
use tx2_link.Common.Maps.{
  for_each, replay_by, replay_by-append, last_value, get-collect, =?_refl, ◌=?◌, string_key,
  nat_key,
}
use tx2_link.Protocol.{
  EntityId, ComponentId, ComponentData, SerializedComponent, SerializedEntity, entity_added,
}
use tx2_link.Serialization.{WorldSnapshot}
use tx2_link.Compression.Delta.{push_added, push_entity, create_initial_delta, by_id, by_name}
use tx2_link.Compression.World.{
  Components, nowhere, apply_at, touch, map_some, components_of, view, replay, World, or_else,
  overlay,
}
use tx2_link.Compression.Replay.Locality.{
  entity_of, apply_at_ne, replay_by-touch, push_added-OfComponent, All-entity_of,
}

abbrev named : SerializedComponent → ComponentId × SerializedComponent
named c = (c.id, c)

abbrev numbered : SerializedEntity → EntityId × SerializedEntity
numbered s = (s.id, s)

or_else-none : (x : Option Components) → or_else x none ≡ x
or_else-none none = refl
or_else-none (some f) = refl

module _ (shown : ComponentData → ComponentData) where
  touch-push_added :
      (e : EntityId) (c : ComponentId) (l : List SerializedComponent)
      (o : Option SerializedComponent)
      → replay_by (touch shown c) (for_each (push_added e) l) (map_some (λ s. shown s.payload) o)
        ≡ map_some (λ s. shown s.payload) (last_value c (map named l) o)
  unfolding replay_by for_each touch last_value
  touch-push_added e c [] o = refl
  touch-push_added e c (s ∷ l) o = elim (Bool-cases (s.id =? c)) [
    | inl p ↦ rw (last_value, p) (touch-push_added e c l (some s))
    | inr p ↦ rw (last_value, p) (touch-push_added e c l o)
  ]

  added_here :
      (e : EntityId) (x : Option Components)
      → apply_at shown e (entity_added e) x ≡ some (λ c. none)
  unfolding apply_at
  added_here e x = rw (=?_refl e)

  -- Whatever was there, a new entity has exactly its components.
  pub apply_at-push_entity :
      (e : EntityId) (s : SerializedEntity) (x : Option Components)
      → replay_by (apply_at shown e) (push_entity e s) x ≡ some (components_of shown s)
  unfolding push_entity replay_by components_of by_name
  apply_at-push_entity e s x =
      ap (replay_by (apply_at shown e) (for_each (push_added e) s.components)) (added_here e x)
      ∙ replay_by-touch shown e (for_each (push_added e) s.components) (λ c. none)
          (push_added-OfComponent e s.components)
      ∙ ap some (
          fun_ext λ c.
            rw (get-collect c (map named s.components)) (touch-push_added e c s.components none))

  push_entity_at :
      (e i : EntityId) (s : SerializedEntity) (x : Option Components)
      → i ≡ e
      → replay_by (apply_at shown e) (push_entity i s) x ≡ some (components_of shown s)
  push_entity_at e i s x p = rw p (apply_at-push_entity e s x)

  entity_of-push_entity :
      (i : EntityId) (s : SerializedEntity) → All (λ d. entity_of d ≡ i) (push_entity i s)
  unfolding push_entity
  entity_of-push_entity i s = (
    refl,
    All-entity_of i (for_each (push_added i) s.components) (push_added-OfComponent i s.components),
  )

  pub push_entity_skip :
      (e i : EntityId) (s : SerializedEntity)
      → i ≢ e
      → (x : Option Components) → replay_by (apply_at shown e) (push_entity i s) x ≡ x
  push_entity_skip e i s n x =
      apply_at_ne shown e i (push_entity i s) (entity_of-push_entity i s) n x

  apply_at-push_entities :
      (e : EntityId) (l : List SerializedEntity) (o : Option SerializedEntity)
      → replay_by
          (apply_at shown e)
          (for_each (λ s. push_entity s.id s) l)
          (map_some (components_of shown) o)
        ≡ map_some (components_of shown) (last_value e (map numbered l) o)
  unfolding replay_by for_each last_value
  apply_at-push_entities e [] o = refl
  apply_at-push_entities e (s ∷ l) o = elim (Bool-cases (s.id =? e)) [
    | inl p ↦
        let q : s.id ≡ e = (nat_key.beq_iff s.id e).0 p in
        rw
          (
            last_value,
            p,
            replay_by-append (apply_at shown e) (push_entity s.id s)
                (for_each (λ a. push_entity a.id a) l) (map_some (components_of shown) o),
            push_entity_at e s.id s (map_some (components_of shown) o) q,
          )
          (apply_at-push_entities e l (some s))
    | inr p ↦
        let n : s.id ≢ e = λ q. ground (arith, nat_key.beq_iff s.id e) in
        rw
          (
            last_value,
            p,
            replay_by-append (apply_at shown e) (push_entity s.id s)
                (for_each (λ a. push_entity a.id a) l) (map_some (components_of shown) o),
            push_entity_skip e s.id s n (map_some (components_of shown) o),
          )
          (apply_at-push_entities e l o)
  ]

  last_over :
      (e : EntityId) (l : List SerializedEntity) (s : SerializedEntity) (x : Option Components)
      → or_else (map_some (components_of shown) (last_value e (map numbered l) (some s))) x
        ≡ map_some (components_of shown) (last_value e (map numbered l) (some s))
  unfolding last_value
  last_over e [] s x = refl
  last_over e (a ∷ l) s x = elim (Bool-cases (a.id =? e)) [
    | inl p ↦ rw (last_value, p) (last_over e l a x)
    | inr p ↦ rw (last_value, p) (last_over e l s x)
  ]

  pushed_over :
      (e : EntityId) (l : List SerializedEntity) (x : Option Components)
      → replay_by (apply_at shown e) (for_each (λ s. push_entity s.id s) l) x
        ≡ or_else (map_some (components_of shown) (last_value e (map numbered l) none)) x
  unfolding replay_by for_each last_value
  pushed_over e [] x = refl
  pushed_over e (s ∷ l) x = elim (Bool-cases (s.id =? e)) [
    | inl p ↦
        let q : s.id ≡ e = (nat_key.beq_iff s.id e).0 p in
        rw
          (
            last_value,
            p,
            replay_by-append (apply_at shown e) (push_entity s.id s)
                (for_each (λ a. push_entity a.id a) l) x,
            push_entity_at e s.id s x q,
          )
          (apply_at-push_entities e l (some s) ∙ sym (last_over e l s x))
    | inr p ↦
        let n : s.id ≢ e = λ q. ground (arith, nat_key.beq_iff s.id e) in
        rw
          (
            last_value,
            p,
            replay_by-append (apply_at shown e) (push_entity s.id s)
                (for_each (λ a. push_entity a.id a) l) x,
            push_entity_skip e s.id s n x,
          )
          (pushed_over e l x)
  ]

  -- Replaying the first delta on any world puts the entities of the snapshot in the place of those
  -- with the same numbers, and leaves the others.
  pub replay-create_initial_delta_over :
      (s : WorldSnapshot) (w : World) → replay shown (create_initial_delta s) w ≡ overlay shown s w
  unfolding replay create_initial_delta overlay by_id
  replay-create_initial_delta_over s w =
      fun_ext λ e. rw (get-collect e (map numbered s.entities)) (pushed_over e s.entities (w e))

  -- Replaying the first delta on the empty world gives the world of the snapshot.
  pub replay-create_initial_delta :
      (s : WorldSnapshot) → replay shown (create_initial_delta s) nowhere ≡ view shown s
  unfolding overlay
  replay-create_initial_delta s =
      replay-create_initial_delta_over s nowhere ∙ fun_ext (λ e. or_else-none (view shown s e))
