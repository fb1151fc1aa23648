-- ===== src/Compression/World.antt =====
-- What a delta means: the specification that compression.rs is held against. A world says which
-- entities there are, and what each of their components holds; a receiver replays the changes of a
-- delta on it. The repository has no code for this.
use tx2_link.Common.{◌≡◌, true, Option, none, some, List, if◌then◌else◌}
use tx2_link.Common.Maps.{Map, get, insert, replay_by, ◌=?◌, string_key, nat_key}
use tx2_link.Protocol.{
  EntityId, ComponentId, FieldId, FieldValue, FieldDelta, ComponentData, structured, DeltaChange,
  entity_added, entity_removed, component_added, component_removed, component_updated,
  fields_updated, field_value_eq, SerializedEntity,
}
use tx2_link.Serialization.{WorldSnapshot}
use tx2_link.Compression.Delta.{by_id, by_name}

abbrev pub Components : Type 0
Components = ComponentId → Option ComponentData

abbrev pub World : Type 0
World = EntityId → Option Components

abbrev pub nowhere : World
nowhere e = none

-- Each field delta stores its new value.
unfoldable pub set_fields : List FieldDelta → Map FieldId FieldValue → Map FieldId FieldValue
unfolding replay_by insert
set_fields = replay_by (λ d m. insert d.field_id d.new_value m)

unfoldable pub patch : List FieldDelta → ComponentData → ComponentData
unfolding set_fields
patch ds (structured m) = structured (set_fields ds m)
patch ds d = d

abbrev pub map_some {ℓ κ} : {A : Type ℓ} {B : Type κ} → (A → B) → Option A → Option B
map_some f none = none
map_some f (some a) = some (f a)

-- What a receiver keeps of the data of a component, `shown`, is a parameter: the data as it is, or the
-- members of a JSON text.
module _ (shown : ComponentData → ComponentData) where
  -- What a change of the component `k` does to the component `c` of the same entity.
  unfoldable pub touch : ComponentId → DeltaChange → Option ComponentData → Option ComponentData
  unfolding patch
  touch c (component_added e k d) x = if k =? c then some (shown d) else x
  touch c (component_removed e k) x = if k =? c then none else x
  touch c (component_updated e k d) x = if k =? c then some (shown d) else x
  touch c (fields_updated e k ds) x = if k =? c then map_some (patch ds) x else x
  touch c _ x = x

  -- What a change does to the entity `e`.
  unfoldable pub apply_at : EntityId → DeltaChange → Option Components → Option Components
  unfolding touch
  apply_at e (entity_added i) x = if i =? e then some (λ c. none) else x
  apply_at e (entity_removed i) x = if i =? e then none else x
  apply_at e (component_added i k d) x =
      if i =? e then map_some (λ f c. touch c (component_added i k d) (f c)) x else x
  apply_at e (component_removed i k) x =
      if i =? e then map_some (λ f c. touch c (component_removed i k) (f c)) x else x
  apply_at e (component_updated i k d) x =
      if i =? e then map_some (λ f c. touch c (component_updated i k d) (f c)) x else x
  apply_at e (fields_updated i k ds) x =
      if i =? e then map_some (λ f c. touch c (fields_updated i k ds) (f c)) x else x

  unfoldable pub replay : List DeltaChange → World → World
  unfolding apply_at replay_by
  replay cs w e = replay_by (apply_at e) cs (w e)

  -- The world that a snapshot shows: of entities or components with one name, the last.
  unfoldable pub components_of : SerializedEntity → Components
  unfolding by_name get
  components_of entity c = map_some (λ s. shown s.payload) (get c (by_name entity.components))

  unfoldable pub view : WorldSnapshot → World
  unfolding by_id get components_of
  view s e = map_some components_of (get e (by_id s.entities))

-- The entities that a snapshot has, over those of a world.
abbrev pub or_else {ℓ} : {A : Type ℓ} → Option A → Option A → Option A
or_else none x = x
or_else (some a) x = some a

unfoldable pub overlay : (ComponentData → ComponentData) → WorldSnapshot → World → World
unfolding view
overlay shown s w e = or_else (view shown s e) (w e)

-- Equal, or equal by the program's `==` (which takes the two zeros of a float for one), or a chain
-- of such values.
pub data SameValue : FieldValue → FieldValue → Type 0 where
  identical : {x y : FieldValue} → x ≡ y → SameValue x y
  equals : {x y : FieldValue} → field_value_eq x y ≡ true → SameValue x y
  chain : {x y z : FieldValue} → SameValue x y → SameValue y z → SameValue x z

abbrev pub or_null : Option FieldValue → FieldValue
or_null none = FieldValue.null
or_null (some v) = v

-- A delta stores `Null` for a field that is gone, so the two are not told apart.
abbrev pub SameFields : Map FieldId FieldValue → Map FieldId FieldValue → Type 0
SameFields a b = (k : FieldId) → SameValue (or_null (get k a)) (or_null (get k b))

abbrev pub SameData : ComponentData → ComponentData → Type 0
SameData (structured a) (structured b) = SameFields a b
SameData a b = a ≡ b

abbrev pub SameOption : {A : Type 0} → (A → A → Type 0) → Option A → Option A → Type 0
SameOption R (some a) (some b) = R a b
SameOption R none none = Unit
SameOption R none (some b) = ⊥
SameOption R (some a) none = ⊥

abbrev pub SameComponents : Components → Components → Type 0
SameComponents f g = (c : ComponentId) → SameOption SameData (f c) (g c)

abbrev pub SameWorld : World → World → Type 0
SameWorld v w = (e : EntityId) → SameOption SameComponents (v e) (w e)
