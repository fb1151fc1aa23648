-- ===== src/Schema/Shared.antt =====
-- Clones of a `SchemaRegistry`, and a `SchemaValidator` that holds one: they share the two tables
-- behind their `Arc`s. The tables stand in a store, and a registry points to those that it has.
use tx2_link.Common.{
  ℕ, ◌+◌, ◌<◌, ◌≡◌, refl, sym, ap, ◌∙◌, false, List, [], ◌∷◌, ◌++◌, arith, ◌==◌, if◌then◌else◌,
  Bool-cases, inl, inr,
}
use tx2_link.Common.Maps.{Map}
use tx2_link.Error.{Result}
use tx2_link.Protocol.{ComponentId, FieldId, FieldType}
use tx2_link.Schema.{SchemaVersion, ComponentSchema}
use tx2_link.Schema.Registry.{SchemaRegistry, Tables, new_tables}
use tx2_link.Schema.Registry as Registry
use tx2_link.Schema.Validator as Validator
use tx2_link.Schema.Versions.{
  register_all, IsOpen, register-IsOpen, IsNewest, register_all-IsNewest,
}
use tx2_link.Schema.History.{IsHistory, register_all-IsHistory}
use tx2_link.Schema.Accepts.{IsVerdict, validate_component-IsVerdict}

-- What was allocated so far, and the tables at each address.
pub record Store : Type 0 where
  pub next : ℕ
  pub at : ℕ → Tables

pub record SharedRegistry : Type 0 where
  pub tables : ℕ
  pub own : SchemaRegistry

unfoldable pub put : ℕ → Tables → (ℕ → Tables) → ℕ → Tables
put i t f j = if i == j then t else f j

unfoldable pub new_registry : Store → SharedRegistry × Store
unfolding put
new_registry store = (
  record { tables = store.next; own = Registry.new },
  record { next = store.next + 1; at = put store.next new_tables store.at },
)

abbrev pub clone : SharedRegistry → SharedRegistry
clone r = record { tables = r.tables; own = record { current_version = r.own.current_version } }

pub record SchemaValidator : Type 0 where
  pub registry : SharedRegistry

abbrev pub new_validator : SharedRegistry → SchemaValidator
new_validator registry = record { registry = registry }

abbrev get_registry : SchemaValidator → SharedRegistry
get_registry v = v.registry

abbrev pub shared_get : ComponentId → SharedRegistry → Store → Result ComponentSchema
shared_get c r store = Registry.get c (store.at r.tables)

abbrev pub shared_history : ComponentId → SharedRegistry → Store → Result (List SchemaVersion)
shared_history c r store = Registry.get_version_history c (store.at r.tables)

abbrev pub validate :
    ComponentId → Map FieldId FieldType → SchemaValidator → Store → Result (Unit {0})
validate c fields v store = Validator.validate_component c fields (store.at v.registry.tables)

-- What a program does with registries: it makes new ones, and registers and clears through any of
-- those that it has.
pub data Step : Type 0 where
  create : Step
  register : SharedRegistry → ComponentSchema → Step
  clear : SharedRegistry → Step

unfoldable pub step : Step → Store → Store
unfolding new_registry put Registry.register Registry.clear
step create store = (new_registry store).1
step (register r s) store = record store {
  at = put r.tables (Registry.register s (store.at r.tables)).1 store.at;
}
step (clear r) store = record store {
  at = put r.tables (Registry.clear (store.at r.tables)).1 store.at;
}

unfoldable pub run : List Step → Store → Store
unfolding step
run [] store = store
run (x ∷ xs) store = run xs (step x store)

-- The schemas that were registered through a registry or another one that shares its tables, since
-- these were last cleared.
unfoldable pub registered_by : ℕ → List Step → List ComponentSchema → List ComponentSchema
registered_by i [] before = before
registered_by i (create ∷ xs) before = registered_by i xs before
registered_by i (register r s ∷ xs) before =
    registered_by i xs (if r.tables == i then before ++ s ∷ [] else before)
registered_by i (clear r ∷ xs) before = registered_by i xs (if r.tables == i then [] else before)

register_all-append :
    (ss : List ComponentSchema) (s : ComponentSchema) (t : Tables)
    → register_all (ss ++ s ∷ []) t ≡ (Registry.register s (register_all ss t)).1
unfolding register_all
register_all-append [] s t = refl
register_all-append (a ∷ ss) s t = register_all-append ss s (Registry.register a t).1

clear_open : (t : Tables) → IsOpen t → (Registry.clear t).1 ≡ new_tables
unfolding Registry.clear
clear_open t o = rw (o.0, o.1) refl

register_all-IsOpen :
    (ss : List ComponentSchema) (t : Tables) → IsOpen t → IsOpen (register_all ss t)
unfolding register_all
register_all-IsOpen [] t o = o
register_all-IsOpen (s ∷ ss) t o =
    register_all-IsOpen ss (Registry.register s t).1 (register-IsOpen s t o)

put_apart : (i j : ℕ) (t : Tables) (f : ℕ → Tables) → (i == j) ≡ false → put i t f j ≡ f j
unfolding put
put_apart i j t f h = rw h refl

-- The tables that a step puts, and those that an address should then have.
put_if :
    (i j : ℕ) (t : Tables) (f : ℕ → Tables) (after before : List ComponentSchema)
    → (i ≡ j → t ≡ register_all after new_tables)
    → f j ≡ register_all before new_tables
    → put i t f j ≡ register_all (if i == j then after else before) new_tables
unfolding put
put_if i j t f after before put_now kept = elim (Bool-cases (i == j)) [
  | inl p ↦ rw p (put_now (ground (arith, p)))
  | inr p ↦ rw p kept
]

-- The tables at an address that was allocated are those of a registry with these registrations.
run-registered_by :
    (xs : List Step) (store : Store) (i : ℕ) (before : List ComponentSchema)
    → i < store.next
    → store.at i ≡ register_all before new_tables
    → (run xs store).at i ≡ register_all (registered_by i xs before) new_tables
unfolding run registered_by step new_registry register_all
run-registered_by [] store i before lt e = e
run-registered_by (create ∷ xs) store i before lt e =
    run-registered_by xs _ i before (omega (arith, lt))
      (put_apart store.next i new_tables store.at (ground (arith, lt)) ∙ e)
run-registered_by (register r s ∷ xs) store i before lt e = run-registered_by xs _ i _ lt (
    put_if r.tables i _ store.at (before ++ s ∷ []) before
      (λ p.
        ap (λ j. (Registry.register s (store.at j)).1) p
        ∙ ap (λ t. (Registry.register s t).1) e
        ∙ sym (register_all-append before s new_tables))
      e)
run-registered_by (clear r ∷ xs) store i before lt e = run-registered_by xs _ i _ lt (
    put_if r.tables i _ store.at [] before
      (λ p.
        ap (λ j. (Registry.clear (store.at j)).1) p
        ∙ ap (λ t. (Registry.clear t).1) e
        ∙ clear_open (register_all before new_tables)
            (register_all-IsOpen before new_tables (refl, refl)))
      e)

-- A registry is made in any store, and then any steps are taken, on it and on others. Of a registry
-- that shares its tables, such as a clone: a lookup gives the newest of the schemas that were
-- registered through any of those that share the tables, since these were last cleared, and fails if
-- there is none; the history fits what the lookup gives; and a validator that holds it goes by the
-- lookup's schema. Other registries do not matter.
pub shared_lookups :
    (store : Store) (steps : List Step) (r : SharedRegistry) (c : ComponentId)
    (fields : Map FieldId FieldType)
    → r.tables ≡ (new_registry store).0.tables
    → (let after = run steps (new_registry store).1 in
        IsNewest c (registered_by r.tables steps []) (shared_get c r after)
        × IsHistory (shared_get c r after) (shared_history c r after)
        × IsVerdict c fields (shared_get c r after) (validate c fields (new_validator r) after))
unfolding new_registry put register_all
shared_lookups store steps r c fields p =
    let after = run steps (new_registry store).1 in
    let ss = registered_by r.tables steps [] in
    let e : after.at r.tables ≡ register_all ss new_tables =
      run-registered_by steps (new_registry store).1 r.tables [] (ground (arith, p))
        (ground (arith, p)) in
    (
      rw e (register_all-IsNewest ss c),
      rw e (register_all-IsHistory ss c),
      validate_component-IsVerdict c fields (after.at r.tables),
    )
