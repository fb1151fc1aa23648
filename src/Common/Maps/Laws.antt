-- ===== src/Common/Maps/Laws.antt =====
-- Reading a map after a write, and the maps that `collect` builds.
use mathlib.Core.Path.{◌≡◌, refl, subst}
use mathlib.Core.Logic.{◌≢◌, inl, inr}
use mathlib.Core.Bool.{true, false}
use tx2_link.Common.Lists.{All}
use mathlib.Core.Option.{Option, none, some, some_inj}
use mathlib.Core.List.{List, [], ◌∷◌}
use native.Mathlib.Omega.{arith}
use tx2_link.Common.Tests.{if◌then◌else◌, Bool-cases}
use tx2_link.Common.Maps.Defs.{Key, ◌=?◌, Map, get, insert, collect_onto, collect, Fresh, IsMap}

module _ {K : Type 0} ⦃k : Key K⦄ where
  pub =?_refl : (i : K) → (i =? i) ≡ true
  =?_refl i = (k.beq_iff i i).1 refl

  pub =?_ne : (i j : K) → i ≢ j → (i =? j) ≡ false
  =?_ne i j h = ground (arith, k.beq_iff i j)

module _ {K V : Type 0} ⦃k : Key K⦄ where
  pub get-insert :
      (i j : K) (v : V) (m : Map K V) → get j (insert i v m) ≡ (if i =? j then some v else get j m)
  unfolding get insert
  get-insert i j v [] = refl
  get-insert i j v ((h, w) ∷ m) =
      ground (arith, k.beq_iff h i, k.beq_iff i j, k.beq_iff h j, get-insert i j v m)

  -- What `collect` keeps for a key: the last pair that has it.
  unfoldable pub last_value : K → List (K × V) → Option V → Option V
  last_value i [] d = d
  last_value i ((j, v) ∷ l) d = last_value i l (if j =? i then some v else d)

  pub get-collect_onto :
      (i : K) (m : Map K V) (l : List (K × V)) → get i (collect_onto m l) ≡ last_value i l (get i m)
  unfolding collect_onto last_value
  get-collect_onto i m [] = refl
  get-collect_onto i m ((j, v) ∷ l) =
      rw (← get-insert j i v m) (get-collect_onto i (insert j v m) l)

  pub get-collect : (i : K) (l : List (K × V)) → get i (collect l) ≡ last_value i l none
  unfolding collect get
  get-collect i l = get-collect_onto i [] l

  Fresh-insert : (i j : K) (v : V) (m : Map K V) → i ≢ j → Fresh j m → Fresh j (insert i v m)
  unfolding insert
  Fresh-insert i j v [] n f = (n, tt)
  Fresh-insert i j v ((h, w) ∷ m) n f = ground (arith, Fresh-insert i j v m n f.1)

  insert-IsMap : (i : K) (v : V) (m : Map K V) → IsMap m → IsMap (insert i v m)
  unfolding insert
  insert-IsMap i v [] u = (tt, tt)
  insert-IsMap i v ((h, w) ∷ m) u = elim (Bool-cases (h =? i)) [
    | inl e ↦ rw e u
    | inr e ↦
        rw e (Fresh-insert i h v m (λ p. ground (arith, k.beq_iff h i)) u.0, insert-IsMap i v m u.1)
  ]

  collect_onto-IsMap : (m : Map K V) (l : List (K × V)) → IsMap m → IsMap (collect_onto m l)
  unfolding collect_onto
  collect_onto-IsMap m [] u = u
  collect_onto-IsMap m ((i, v) ∷ l) u = collect_onto-IsMap (insert i v m) l (insert-IsMap i v m u)

  pub collect-IsMap : (l : List (K × V)) → IsMap (collect l)
  unfolding collect
  collect-IsMap l = collect_onto-IsMap [] l tt

  -- A key that no pair has is absent.
  pub get_of_Fresh : (i : K) (m : Map K V) → Fresh i m → get i m ≡ none
  unfolding get
  get_of_Fresh i [] f = refl
  get_of_Fresh i ((j, v) ∷ m) f = rw (=?_ne j i f.0) (get_of_Fresh i m f.1)

  last_value-All :
      (P : V → Type 0) (i : K) (v : V) (l : List (K × V)) (d : Option V)
      → All (λ p. P p.1) l
      → (d ≡ some v → P v)
      → last_value i l d ≡ some v
      → P v
  unfolding last_value
  last_value-All P i v [] d h g = λ e. g e
  last_value-All P i v ((j, w) ∷ l) d h g = elim (Bool-cases (j =? i)) [
    | inl p ↦ rw p (last_value-All P i v l (some w) h.1 (λ q. subst P (some_inj.0 q) h.0))
    | inr p ↦ rw p (last_value-All P i v l d h.1 g)
  ]

  -- What holds of each pair holds of what the map has.
  pub get-collect_All :
      (P : V → Type 0) (i : K) (v : V) (l : List (K × V))
      → All (λ p. P p.1) l
      → get i (collect l) ≡ some v
      → P v
  get-collect_All P i v l h =
      rw (get-collect i l) (last_value-All P i v l none h (λ q. absurd (ground arith)))
