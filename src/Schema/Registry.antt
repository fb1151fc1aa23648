-- ===== src/Schema/Registry.antt =====
-- `SchemaRegistry`. The two tables that all clones of a registry share are `Tables`, passed in and
-- out; what each clone has for itself is `SchemaRegistry`. A lock is poisoned if a thread panicked
-- while it held the lock; nothing here does.
use tx2_link.Common.{
  String, Bool, false, Option, none, some, List, [], ◌∷◌, ◌++◌, leb, ◌==◌, if◌then◌else◌,
}
use tx2_link.Common.Text.{show, ◌<>◌}
use tx2_link.Common.Maps.{Map, get as find, insert, contains_key, values, HashOrder, string_key}
use tx2_link.Error.{unknown, schema_not_found, schema_mismatch, Result, ok, err, ◌>>=◌, ok_or}
use tx2_link.Protocol.{ComponentId}
use tx2_link.Schema.{SchemaVersion, ComponentSchema}

pub record Lock (A : Type 0) : Type 0 where
  pub inner : A
  pub poisoned : Bool

-- `read` and `write`, with the error's text.
abbrev pub acquire : {A : Type 0} → Lock A → Result A
acquire l =
    if l.poisoned
    then err (unknown "Lock poisoned: poisoned lock: another task failed inside")
    else ok l.inner

pub record Tables : Type 0 where
  pub schemas : Lock (Map ComponentId ComponentSchema)
  pub version_history : Lock (Map ComponentId (List SchemaVersion))

pub record SchemaRegistry : Type 0 where
  pub current_version : SchemaVersion

abbrev pub new_tables : Tables
new_tables = record {
  schemas = record { inner = []; poisoned = false };
  version_history = record { inner = []; poisoned = false };
}

abbrev pub new : SchemaRegistry
new = record { current_version = 1 }

unfoldable pub conflict_text : SchemaVersion → ComponentId → String
conflict_text version component_id =
    "Schema version "
    <> show version
    <> " already exists or is newer for component "
    <> component_id

-- `existing.version >= version`
unfoldable pub is_stale : Option ComponentSchema → SchemaVersion → Bool
is_stale none version = false
is_stale (some existing) version = leb version existing.version

-- `entry(component_id).or_insert_with(Vec::new).push(version)`
unfoldable pub push_version :
    ComponentId
    → SchemaVersion
    → Map ComponentId (List SchemaVersion)
    → Map ComponentId (List SchemaVersion)
unfolding insert
push_version component_id version history =
    insert component_id
      ((elim (find component_id history) [ none ↦ [] | some versions ↦ versions ]) ++ version ∷ [])
      history

-- Both tables are locked before either is read.
unfoldable pub register : ComponentSchema → Tables → Result (Unit {0}) × Tables
unfolding is_stale push_version insert
register schema t = elim (acquire t.schemas) [
  | err e ↦ (err e, t)
  | ok schemas ↦ elim (acquire t.version_history) [
    | err e ↦ (err e, t)
    | ok history ↦
        if is_stale (find schema.component_id schemas) schema.version
        then (err (unknown (conflict_text schema.version schema.component_id)), t)
        else (
          ok tt,
          record {
            schemas = record {
              inner = insert schema.component_id schema schemas;
              poisoned = t.schemas.poisoned;
            };
            version_history = record {
              inner = push_version schema.component_id schema.version history;
              poisoned = t.version_history.poisoned;
            };
          },
        )
  ]
]

unfoldable pub get : ComponentId → Tables → Result ComponentSchema
get component_id t = acquire t.schemas >>= λ schemas.
    ok_or (find component_id schemas) (schema_not_found component_id)

unfoldable pub get_version : ComponentId → SchemaVersion → Tables → Result ComponentSchema
unfolding get
get_version component_id version t = get component_id t >>= λ schema.
    if schema.version == version
    then ok schema
    else err (schema_mismatch (show version) (show schema.version))

unfoldable pub has : ComponentId → Tables → Bool
has component_id t = elim (acquire t.schemas) [
  | ok schemas ↦ contains_key component_id schemas
  | err e ↦ false
]

-- The values in the order in which the map is iterated.
unfoldable pub get_all :
    HashOrder ComponentId ComponentSchema → Tables → Result (List ComponentSchema)
get_all order t = acquire t.schemas >>= λ schemas. ok (values (order.arrange 0 schemas))

unfoldable pub get_version_history : ComponentId → Tables → Result (List SchemaVersion)
get_version_history component_id t = acquire t.version_history >>= λ history.
    ok (elim (find component_id history) [ none ↦ [] | some versions ↦ versions ])

abbrev pub validate_compatibility : SchemaVersion → SchemaVersion → Bool
validate_compatibility old_version new_version = leb old_version new_version

unfoldable pub clear : Tables → Result (Unit {0}) × Tables
clear t = elim (acquire t.schemas) [
  | err e ↦ (err e, t)
  | ok schemas ↦ elim (acquire t.version_history) [
    | err e ↦ (err e, t)
    | ok history ↦ (
      ok tt,
      record {
        schemas = record { inner = []; poisoned = t.schemas.poisoned };
        version_history = record { inner = []; poisoned = t.version_history.poisoned };
      },
    )
  ]
]

abbrev pub get_current_version : SchemaRegistry → SchemaVersion
get_current_version r = r.current_version

abbrev pub set_current_version : SchemaVersion → SchemaRegistry → SchemaRegistry
set_current_version version r = record r { current_version = version }
