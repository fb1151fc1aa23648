-- ===== src/Common/Maps/Loops.antt =====
-- Loops that go over a map and push what they find, and states that are updated by what was pushed.
use mathlib.Core.Path.{◌≡◌, refl, ◌∙◌, ap, subst}
use mathlib.Core.Logic.{◌≢◌, inl, inr}
use mathlib.Core.Option.{Option, none, some}
use mathlib.Core.List.{List, [], ◌∷◌, ◌++◌}
use native.Mathlib.Omega.{arith}
use tx2_link.Common.Tests.{Bool-cases}
use tx2_link.Common.Maps.Defs.{Key, ◌=?◌, Map, get, Fresh, IsMap}

-- `for (k, v) in &map { … push … }`
unfoldable pub for_each {ℓ} : {A : Type ℓ} {D : Type 0} → (A → List D) → List A → List D
for_each block [] = []
for_each block (a ∷ l) = block a ++ for_each block l

-- A state after a list of updates, first to last.
unfoldable pub replay_by : {D X : Type 0} → (D → X → X) → List D → X → X
replay_by step [] x = x
replay_by step (d ∷ ds) x = replay_by step ds (step d x)

module _ {D X : Type 0} (step : D → X → X) where
  pub replay_by-append :
      (ds es : List D) (x : X)
      → replay_by step (ds ++ es) x ≡ replay_by step es (replay_by step ds x)
  unfolding replay_by
  replay_by-append [] es x = refl
  replay_by-append (d ∷ ds) es x = replay_by-append ds es (step d x)

-- What the entry of a key pushes, if the map has the key.
abbrev pub block_at : {K V D : Type 0} → (K × V → List D) → K → Option V → List D
block_at block i none = []
block_at block i (some v) = block (i, v)

module _ {K V D X : Type 0} ⦃k : Key K⦄ (block : K × V → List D) (step : D → X → X) (i : K)
    (skip : (j : K) (v : V) → j ≢ i → (x : X) → replay_by step (block (j, v)) x ≡ x) where
  skip_all : (m : Map K V) → Fresh i m → (x : X) → replay_by step (for_each block m) x ≡ x
  unfolding for_each replay_by
  skip_all [] f x = refl
  skip_all ((j, v) ∷ m) f x =
      rw (replay_by-append step (block (j, v)) (for_each block m) x, skip j v f.0 x)
        (skip_all m f.1 x)

  -- If the other keys' entries do not touch a part of the state, a loop over a map does to it what
  -- the entry of its key does.
  pub replay_by-for_each :
      (m : Map K V)
      → IsMap m
      → (x : X)
      → replay_by step (for_each block m) x ≡ replay_by step (block_at block i (get i m)) x
  unfolding for_each replay_by get
  replay_by-for_each [] u x = refl
  replay_by-for_each ((j, v) ∷ m) u x = elim (Bool-cases (j =? i)) [
    | inl e ↦
        let p : j ≡ i = (k.beq_iff j i).0 e in
        rw (e, replay_by-append step (block (j, v)) (for_each block m) x)
          (skip_all m (subst (λ z. Fresh z m) p u.0) _
            ∙ ap (λ z. replay_by step (block (z, v)) x) p)
    | inr e ↦
        rw
          (
            e,
            replay_by-append step (block (j, v)) (for_each block m) x,
            skip j v (λ p. ground (arith, k.beq_iff j i)) x,
          )
          (replay_by-for_each m u.1 x)
  ]
