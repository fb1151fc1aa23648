-- ===== src/Debug/Totals.antt =====
-- The summary that is traced of a delta against the metadata of the message that carries it.
use tx2_link.Common.{
  ℕ, ◌+◌, ◌%◌, ◌^◌, Bool, List, [], ◌∷◌, length, keep, if◌then◌else◌, add32, IsU32, ◌≡◌, refl,
  arith, Bool-cases, inl, inr,
}
use tx2_link.Protocol.{DeltaChange}
use tx2_link.Protocol.Messages.{
  is_entity_added, is_entity_removed, is_component_updated, delta_metadata,
}
use tx2_link.Debug.Counts.{ChangeCounts, no_changes, count_change, count_changes}

module _ (counter : ChangeCounts → ℕ) (p : DeltaChange → Bool)
    (step : (change : DeltaChange) (c : ChangeCounts)
      → counter (count_change change c)
        ≡ (if p change then add32 (counter c) 1 else counter c)) where
  -- A counter that goes up at the changes with a property counts them.
  counter-count_changes :
      (changes : List DeltaChange) (c : ChangeCounts)
      → IsU32 (counter c)
      → counter (count_changes changes c) ≡ (counter c + length (keep p changes)) % 2 ^ 32
  unfolding count_changes keep
  counter-count_changes [] c u = omega (arith, u)
  counter-count_changes (change ∷ changes) c u =
      let c' = count_change change c in
      let counted = step change c in
      let rest = counter-count_changes changes c' in
      elim (Bool-cases (p change)) [
        | inl hit ↦
            let one : counter c' ≡ add32 (counter c) 1 = ground (arith, hit, counted) in
            let all_of = rest (omega (arith, one)) in rw (hit, all_of, one) (omega arith)
        | inr miss ↦
            let same : counter c' ≡ counter c = ground (arith, miss, counted) in
            let all_of = rest (omega (arith, same, u)) in rw (miss, all_of, same) (omega arith)
      ]

abbrev pub all_five : ChangeCounts → ℕ
all_five c =
    c.entities_added + c.entities_removed + c.components_added + c.components_removed
    + c.components_modified

count_change-all_five :
    (change : DeltaChange) (c : ChangeCounts)
    → all_five (count_change change c) % 2 ^ 32 ≡ (all_five c + 1) % 2 ^ 32
count_change-all_five (DeltaChange.entity_added e) c = omega arith
count_change-all_five (DeltaChange.entity_removed e) c = omega arith
count_change-all_five (DeltaChange.component_added e id d) c = omega arith
count_change-all_five (DeltaChange.component_removed e id) c = omega arith
count_change-all_five (DeltaChange.component_updated e id d) c = omega arith
count_change-all_five (DeltaChange.fields_updated e id fs) c = omega arith

all_five-count_changes :
    (changes : List DeltaChange) (c : ChangeCounts)
    → all_five (count_changes changes c) % 2 ^ 32 ≡ (all_five c + length changes) % 2 ^ 32
unfolding count_changes
all_five-count_changes [] c = omega arith
all_five-count_changes (change ∷ changes) c =
    omega (
      arith,
      count_change-all_five change c,
      all_five-count_changes changes (count_change change c),
    )

entities_added_step :
    (change : DeltaChange) (c : ChangeCounts)
    → (count_change change c).entities_added
      ≡ (if is_entity_added change then add32 c.entities_added 1 else c.entities_added)
entities_added_step (DeltaChange.entity_added e) c = refl
entities_added_step (DeltaChange.entity_removed e) c = refl
entities_added_step (DeltaChange.component_added e id d) c = refl
entities_added_step (DeltaChange.component_removed e id) c = refl
entities_added_step (DeltaChange.component_updated e id d) c = refl
entities_added_step (DeltaChange.fields_updated e id fs) c = refl

entities_removed_step :
    (change : DeltaChange) (c : ChangeCounts)
    → (count_change change c).entities_removed
      ≡ (if is_entity_removed change then add32 c.entities_removed 1 else c.entities_removed)
entities_removed_step (DeltaChange.entity_added e) c = refl
entities_removed_step (DeltaChange.entity_removed e) c = refl
entities_removed_step (DeltaChange.component_added e id d) c = refl
entities_removed_step (DeltaChange.component_removed e id) c = refl
entities_removed_step (DeltaChange.component_updated e id d) c = refl
entities_removed_step (DeltaChange.fields_updated e id fs) c = refl

components_modified_step :
    (change : DeltaChange) (c : ChangeCounts)
    → (count_change change c).components_modified ≡ (
        if is_component_updated change
        then add32 c.components_modified 1
        else c.components_modified)
components_modified_step (DeltaChange.entity_added e) c = refl
components_modified_step (DeltaChange.entity_removed e) c = refl
components_modified_step (DeltaChange.component_added e id d) c = refl
components_modified_step (DeltaChange.component_removed e id) c = refl
components_modified_step (DeltaChange.component_updated e id d) c = refl
components_modified_step (DeltaChange.fields_updated e id fs) c = refl

-- What `trace_delta` counts is what `Message::delta` puts into the metadata of the same changes: the
-- added and the removed entities, and under "modified" the components that are updated, in whole or
-- by fields; and all five counts add up to the count of the changes. All on 32 bits.
pub count_changes-delta_metadata :
    (changes : List DeltaChange)
    → (let c = count_changes changes no_changes in
        let metadata = delta_metadata changes in
        (c.entities_added ≡ metadata.entities_added)
        × (c.entities_removed ≡ metadata.entities_removed)
        × (c.components_modified ≡ metadata.components_updated)
        × (all_five c % 2 ^ 32 ≡ metadata.change_count))
unfolding delta_metadata
count_changes-delta_metadata changes =
    let added =
      counter-count_changes (λ c. c.entities_added) is_entity_added entities_added_step changes
        no_changes (omega arith) in
    let removed =
      counter-count_changes (λ c. c.entities_removed) is_entity_removed entities_removed_step
        changes no_changes (omega arith) in
    let modified =
      counter-count_changes (λ c. c.components_modified) is_component_updated
        components_modified_step changes no_changes (omega arith) in
    let total = all_five-count_changes changes no_changes in
    (omega (arith, added), omega (arith, removed), omega (arith, modified), omega (arith, total))
