-- ===== src/Compression/Replay/Entity.antt =====
-- The components of an entity that is in both snapshots, all together.
use tx2_link.Common.{◌≡◌, refl, inl, inr, Option, none, some, List, ◌++◌, arith, Option-cases}
use tx2_link.Common.Maps.{
  Map, get, contains_key, IsMap, for_each, replay_by, replay_by-append, replay_by-for_each,
  block_at, =?_refl, string_key,
}
use tx2_link.Protocol.{EntityId, ComponentId, ComponentData, SerializedComponent, DeltaChange}
use tx2_link.Compression.Json.{SerdeJson}
use tx2_link.Compression.Field.{FieldCompressor}
use tx2_link.Compression.Delta.{component_change, component_removal}
use tx2_link.Compression.World.{touch, SameData, SameOption, map_some}
use tx2_link.Compression.Replay.Equal.{IsMapData}
use tx2_link.Compression.Replay.Json.{HasUniqueKeys, HasEquality}
use tx2_link.Compression.Replay.Content.{
  content, SameData-refl, components_equal-content, patch-SameData,
}
use tx2_link.Compression.Replay.Component.{
  Pushed, added, equal, updated, fields, component_change-Pushed, change_skip, removal_skip,
}

-- Every structured component of a map has each field once.
abbrev pub AreMaps : Map ComponentId SerializedComponent → Type 0
AreMaps m = (k : ComponentId) (s : SerializedComponent) → get k m ≡ some s → IsMapData s.payload

module _ (j : SerdeJson) (f : FieldCompressor) (entity : EntityId) (c : ComponentId)
    (prev curr : Map ComponentId SerializedComponent) (keys : HasUniqueKeys j) (eq : HasEquality j)
    (dp : AreMaps prev) (dc : AreMaps curr) where
  abbrev shown : ComponentData → ComponentData
  shown = content j f

  abbrev kept : SerializedComponent → ComponentData
  kept s = shown s.payload

  Pushed-here :
      {s : SerializedComponent} {cs : List DeltaChange}
      → IsMapData s.payload
      → Pushed j f entity prev c s cs
      → SameOption SameData
          (replay_by (touch shown c) cs (map_some kept (get c prev)))
          (some (shown s.payload))
  unfolding replay_by touch
  Pushed-here {s} d (added e) = rw (=?_refl c) (SameData-refl (shown s.payload))
  Pushed-here {s} d (equal b e q) = rw e (components_equal-content j f b s (dp c b e) d q)
  Pushed-here {s} d (updated b e) = rw (=?_refl c) (SameData-refl (shown s.payload))
  Pushed-here {s} d (fields b ds e q) =
      rw (=?_refl c, e) (patch-SameData j f keys eq b s ds (dp c b e) d q)

  removal_kept :
      (s : SerializedComponent) (o : Option SerializedComponent) (x : Option ComponentData)
      → get c curr ≡ some s
      → replay_by (touch shown c) (block_at (component_removal j f entity curr) c o) x ≡ x
  unfolding replay_by component_removal contains_key
  removal_kept s none x e = refl
  removal_kept s (some b) x e = ground (arith, e)

  removal_gone :
      (o : Option SerializedComponent)
      → get c curr ≡ none
      → replay_by
          (touch shown c)
          (block_at (component_removal j f entity curr) c o)
          (map_some kept o)
        ≡ none
  unfolding replay_by component_removal contains_key touch
  removal_gone none e = refl
  removal_gone (some b) e = ground (arith, e, =?_refl c)

  nothing :
      (x : Option ComponentData)
      → replay_by (touch shown c) (block_at (component_change j f entity prev) c none) x ≡ x
  unfolding replay_by
  nothing x = refl

  pub component_replay :
      IsMap prev
      → IsMap curr
      → SameOption SameData
          (replay_by
            (touch shown c)
            (for_each (component_change j f entity prev) curr
              ++ for_each (component_removal j f entity curr) prev)
            (map_some kept (get c prev)))
          (map_some kept (get c curr))
  component_replay u v =
      rw
        (
          replay_by-append (touch shown c) (for_each (component_change j f entity prev) curr)
              (for_each (component_removal j f entity curr) prev) (map_some kept (get c prev)),
          replay_by-for_each (component_change j f entity prev) (touch shown c) c
              (change_skip j f shown entity c prev curr) curr v (map_some kept (get c prev)),
          replay_by-for_each (component_removal j f entity curr) (touch shown c) c
              (removal_skip j f shown entity c prev curr) prev u,
        )
        (elim (Option-cases (get c curr)) [
          | inl gone ↦ rw (gone, nothing, removal_gone (get c prev) gone) tt
          | inr (s, here) ↦
              rw (removal_kept s (get c prev) _ here, here)
                (Pushed-here (dc c s here) (component_change-Pushed j f entity prev c s))
        ])
