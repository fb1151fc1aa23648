-- ===== src/Compression/Replay/Congruence.antt =====
-- Replaying the same changes on worlds that are the same gives worlds that are the same.
use tx2_link.Common.{
  refl, sym, subst, Option, none, some, List, [], ◌∷◌, Bool-cases, inl, inr, if◌then◌else◌,
}
use tx2_link.Common.Maps.{Map, insert, get-insert, replay_by, ◌=?◌, string_key, nat_key}
use tx2_link.Protocol.{
  EntityId, ComponentId, FieldId, FieldValue, FieldDelta, ComponentData, binary, json, structured,
  DeltaChange, entity_added, entity_removed, component_added, component_removed, component_updated,
  fields_updated,
}
use tx2_link.Compression.World.{
  Components, World, set_fields, patch, map_some, touch, apply_at, replay, identical, chain,
  SameFields, SameData, SameOption, SameComponents, SameWorld,
}
use tx2_link.Compression.Replay.Content.{SameData-refl}

SameData-trans : (a b c : ComponentData) → SameData a b → SameData b c → SameData a c
SameData-trans (binary a) b c p q = subst (λ z. SameData z c) (sym p) q
SameData-trans (json a) b c p q = subst (λ z. SameData z c) (sym p) q
SameData-trans (structured a) (structured b) (structured c) p q = λ k. chain (p k) (q k)
SameData-trans (structured a) _ _ p q = cc

SameOption-trans :
    {A : Type 0} (R : A → A → Type 0)
    → ((a b c : A) → R a b → R b c → R a c)
    → (x y z : Option A) → SameOption R x y
    → SameOption R y z
    → SameOption R x z
SameOption-trans R t (some a) (some b) (some c) p q = t a b c p q
SameOption-trans R t none none none p q = tt
SameOption-trans R t none (some b) z p q = absurd p
SameOption-trans R t (some a) none z p q = absurd p
SameOption-trans R t (some a) (some b) none p q = absurd q
SameOption-trans R t none none (some c) p q = absurd q

SameComponents-trans :
    (f g h : Components) → SameComponents f g → SameComponents g h → SameComponents f h
SameComponents-trans f g h p q c =
    SameOption-trans SameData SameData-trans (f c) (g c) (h c) (p c) (q c)

pub SameWorld-trans : (u v w : World) → SameWorld u v → SameWorld v w → SameWorld u w
SameWorld-trans u v w p q e =
    SameOption-trans SameComponents SameComponents-trans (u e) (v e) (w e) (p e) (q e)

set_fields-SameFields :
    (ds : List FieldDelta) (a b : Map FieldId FieldValue)
    → SameFields a b
    → SameFields (set_fields ds a) (set_fields ds b)
unfolding set_fields replay_by
set_fields-SameFields [] a b h = h
set_fields-SameFields (d ∷ ds) a b h =
    set_fields-SameFields ds (insert d.field_id d.new_value a) (insert d.field_id d.new_value b)
      (λ k. elim (Bool-cases (d.field_id =? k)) [
        | inl p ↦
            rw (get-insert d.field_id k d.new_value a, get-insert d.field_id k d.new_value b, p)
              (identical refl)
        | inr p ↦
            rw (get-insert d.field_id k d.new_value a, get-insert d.field_id k d.new_value b, p)
              (h k)
      ])

patch_cong :
    (ds : List FieldDelta) (a b : ComponentData) → SameData a b → SameData (patch ds a) (patch ds b)
unfolding patch
patch_cong ds (binary a) (binary b) h = h
patch_cong ds (json a) (json b) h = h
patch_cong ds (structured a) (structured b) h = set_fields-SameFields ds a b h
patch_cong ds _ _ h = cc

map_some_cong :
    {A : Type 0} (R : A → A → Type 0) (f : A → A)
    → ((a b : A) → R a b → R (f a) (f b))
    → (x y : Option A) → SameOption R x y
    → SameOption R (map_some f x) (map_some f y)
map_some_cong R f t (some a) (some b) h = t a b h
map_some_cong R f t none none h = tt
map_some_cong R f t none (some b) h = absurd h
map_some_cong R f t (some a) none h = absurd h

module _ (shown : ComponentData → ComponentData) where
  touch_cong :
      (c : ComponentId) (d : DeltaChange) (x y : Option ComponentData)
      → SameOption SameData x y
      → SameOption SameData (touch shown c d x) (touch shown c d y)
  unfolding touch
  touch_cong c (entity_added i) x y h = h
  touch_cong c (entity_removed i) x y h = h
  touch_cong c (component_added i k d) x y h = elim (Bool-cases (k =? c)) [
    | inl p ↦ rw p (SameData-refl (shown d))
    | inr p ↦ rw p h
  ]
  touch_cong c (component_removed i k) x y h = elim (Bool-cases (k =? c)) [
    | inl p ↦ rw p tt
    | inr p ↦ rw p h
  ]
  touch_cong c (component_updated i k d) x y h = elim (Bool-cases (k =? c)) [
    | inl p ↦ rw p (SameData-refl (shown d))
    | inr p ↦ rw p h
  ]
  touch_cong c (fields_updated i k ds) x y h = elim (Bool-cases (k =? c)) [
    | inl p ↦ rw p (map_some_cong SameData (patch ds) (patch_cong ds) x y h)
    | inr p ↦ rw p h
  ]

  touched_cong :
      (d : DeltaChange) (f g : Components)
      → SameComponents f g
      → SameComponents (λ c. touch shown c d (f c)) (λ c. touch shown c d (g c))
  touched_cong d f g h c = touch_cong c d (f c) (g c) (h c)

  module _ (e : EntityId) where
    here_cong :
        (i : EntityId) (d : DeltaChange) (x y : Option Components)
        → SameOption SameComponents x y
        → SameOption SameComponents
            (if i =? e then map_some (λ f c. touch shown c d (f c)) x else x)
            (if i =? e then map_some (λ f c. touch shown c d (f c)) y else y)
    here_cong i d x y h = elim (Bool-cases (i =? e)) [
      | inl p ↦
          rw p (map_some_cong SameComponents (λ f c. touch shown c d (f c)) (touched_cong d) x y h)
      | inr p ↦ rw p h
    ]

    apply_at_cong :
        (d : DeltaChange) (x y : Option Components)
        → SameOption SameComponents x y
        → SameOption SameComponents (apply_at shown e d x) (apply_at shown e d y)
    unfolding apply_at
    apply_at_cong (entity_added i) x y h = elim (Bool-cases (i =? e)) [
      | inl p ↦ rw p (λ c. tt)
      | inr p ↦ rw p h
    ]
    apply_at_cong (entity_removed i) x y h = elim (Bool-cases (i =? e)) [
      | inl p ↦ rw p tt
      | inr p ↦ rw p h
    ]
    apply_at_cong (component_added i k d) x y h = here_cong i (component_added i k d) x y h
    apply_at_cong (component_removed i k) x y h = here_cong i (component_removed i k) x y h
    apply_at_cong (component_updated i k d) x y h = here_cong i (component_updated i k d) x y h
    apply_at_cong (fields_updated i k ds) x y h = here_cong i (fields_updated i k ds) x y h

    replay_by_cong :
        (cs : List DeltaChange) (x y : Option Components)
        → SameOption SameComponents x y
        → SameOption SameComponents
            (replay_by (apply_at shown e) cs x)
            (replay_by (apply_at shown e) cs y)
    unfolding replay_by
    replay_by_cong [] x y h = h
    replay_by_cong (d ∷ cs) x y h =
        replay_by_cong cs (apply_at shown e d x) (apply_at shown e d y) (apply_at_cong d x y h)

  pub replay_cong :
      (cs : List DeltaChange) (v w : World)
      → SameWorld v w
      → SameWorld (replay shown cs v) (replay shown cs w)
  unfolding replay
  replay_cong cs v w h e = replay_by_cong e cs (v e) (w e) (h e)
