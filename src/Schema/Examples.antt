-- ===== src/Schema/Examples.antt =====
-- Tests of the registry and the validator, after those of schema.rs, and their theorems at concrete inputs.
use tx2_link.Common.{◌≡◌, refl, List, [], ◌∷◌}
use tx2_link.Common.Maps.{Map, get as find, insert, contains_key, string_key}
use tx2_link.Error.{ok}
use tx2_link.Protocol.{FieldId, FieldType}
use tx2_link.Schema.{
  ComponentSchema, new_component, with_field, new_field, make_optional, field_type_eq,
}
use tx2_link.Schema.Registry.{Tables, new_tables, get, get_version_history, set_current_version}
use tx2_link.Schema.Registry as Registry
use tx2_link.Schema.Shared.{
  Store, SharedRegistry, Step, create, register, clear, new_registry, clone, new_validator, run,
  registered_by, shared_get, shared_history, validate, shared_lookups,
}
use tx2_link.Schema.Validator.{validate_component}
use tx2_link.Schema.Versions.{register_all, IsNewest, register_all-IsNewest}
use tx2_link.Schema.History.{IsHistory, register_all-IsHistory}
use tx2_link.Schema.Accepts.{IsVerdict, validate_component-IsVerdict}

abbrev version_1 : ComponentSchema
version_1 =
    with_field (new_field "y" FieldType.f64)
      (with_field (new_field "x" FieldType.f64) (new_component "Position" 1))

abbrev version_2 : ComponentSchema
version_2 =
    with_field (make_optional (new_field "z" FieldType.f64))
      (with_field (new_field "x" FieldType.f64) (new_component "Position" 2))

-- Version 1 is refused after version 2.
abbrev both_versions : Tables
both_versions = register_all (version_1 ∷ version_2 ∷ version_1 ∷ []) new_tables

history_of_position : get_version_history "Position" both_versions ≡ ok (1 ∷ 2 ∷ [])
unfolding register_all Registry.register get_version_history find insert
history_of_position = refl

abbrev only_x : Map FieldId FieldType
only_x = ("x", FieldType.f64) ∷ []

accepts_without_z : validate_component "Position" only_x both_versions ≡ ok tt
unfolding register_all Registry.register validate_component find insert contains_key field_type_eq
accepts_without_z = refl

register_all-IsNewest_example :
    IsNewest "Position" (version_1 ∷ version_2 ∷ version_1 ∷ []) (get "Position" both_versions)
register_all-IsNewest_example =
    register_all-IsNewest (version_1 ∷ version_2 ∷ version_1 ∷ []) "Position"

register_all-IsHistory_example :
    IsHistory (get "Position" both_versions) (get_version_history "Position" both_versions)
register_all-IsHistory_example =
    register_all-IsHistory (version_1 ∷ version_2 ∷ version_1 ∷ []) "Position"

validate_component-IsVerdict_example :
    IsVerdict "Position" only_x
      (get "Position" both_versions)
      (validate_component "Position" only_x both_versions)
validate_component-IsVerdict_example = validate_component-IsVerdict "Position" only_x both_versions

-- A registry, a clone of it with another current version, and a registry apart from both.
abbrev nothing : Store
nothing = record { next = 0; at = λ i. new_tables }

abbrev ours : SharedRegistry
ours = (new_registry nothing).0

abbrev its_clone : SharedRegistry
its_clone = record (clone ours) { own = set_current_version 9 (clone ours).own }

abbrev theirs : SharedRegistry
theirs = record ours { tables = 1 }

abbrev some_steps : List Step
some_steps =
    register ours version_2
    ∷ clear its_clone
    ∷ create
    ∷ register its_clone version_1
    ∷ register theirs version_2
    ∷ []

registered_by_both : registered_by its_clone.tables some_steps [] ≡ version_1 ∷ []
unfolding registered_by new_registry
registered_by_both = refl

shared_lookups_example :
    (let after = run some_steps (new_registry nothing).1 in
      IsNewest "Position"
        (registered_by its_clone.tables some_steps [])
        (shared_get "Position" its_clone after)
      × IsHistory
          (shared_get "Position" its_clone after)
          (shared_history "Position" its_clone after)
      × IsVerdict "Position" only_x
          (shared_get "Position" its_clone after)
          (validate "Position" only_x (new_validator its_clone) after))
shared_lookups_example = shared_lookups nothing some_steps its_clone "Position" only_x refl
