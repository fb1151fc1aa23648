-- ===== src/Common/Maps/Defs.antt =====
-- Keys with a Boolean equality, and the operations of `HashMap` and `AHashMap` that the code uses.
use Prim.Native.Nat.{ℕ}
use Prim.Native.String.{String}
use mathlib.Core.Path.{◌≡◌}
use mathlib.Core.Logic.{◌≢◌, ◌↔◌}
use mathlib.Core.Bool.{Bool, true, false}
use mathlib.Core.Option.{Option, none, some}
use mathlib.Core.List.{List, [], ◌∷◌, map}
use text.Mathlib.Text.{◌==◌ as str_eq}
use text.Mathlib.TextEquality.{eq_iff}
use tx2_link.Common.Tests.{◌==◌ as nat_eq, ==_iff, if◌then◌else◌}
use tx2_link.Common.Lists.{All}

-- `Eq + Hash`: an equality test that decides.
pub record Key (K : Type 0) : Type 0 where
  pub beq : K → K → Bool
  pub beq_iff : (a b : K) → (beq a b ≡ true) ↔ (a ≡ b)

infix 50 ◌=?◌
abbrev pub ◌=?◌ : {K : Type 0} ⦃k : Key K⦄ → K → K → Bool
◌=?◌ ⦃k⦄ = k.beq

instance abbrev pub nat_key : Key ℕ
nat_key = record { beq = nat_eq; beq_iff = ==_iff }

instance abbrev pub string_key : Key String
string_key = record { beq = str_eq; beq_iff = eq_iff }

abbrev pub Map : Type 0 → Type 0 → Type 0
Map K V = List (K × V)

module _ {K V : Type 0} where
  abbrev pub keys : Map K V → List K
  keys = map (λ e. e.0)

  abbrev pub values : Map K V → List V
  values = map (λ e. e.1)

module _ {K V : Type 0} ⦃k : Key K⦄ where
  unfoldable pub get : K → Map K V → Option V
  get i [] = none
  get i ((j, v) ∷ m) = if j =? i then some v else get i m

  unfoldable pub contains_key : K → Map K V → Bool
  contains_key i m = elim (get i m) [ none ↦ false | some _ ↦ true ]

  -- A present key keeps its place; a new one comes last.
  unfoldable pub insert : K → V → Map K V → Map K V
  insert i w [] = (i, w) ∷ []
  insert i w ((j, v) ∷ m) = if j =? i then (j, w) ∷ m else (j, v) ∷ insert i w m

  -- `iter().collect()`: later pairs overwrite earlier ones.
  unfoldable pub collect_onto : Map K V → List (K × V) → Map K V
  collect_onto m [] = m
  collect_onto m ((i, v) ∷ l) = collect_onto (insert i v m) l

  unfoldable pub collect : List (K × V) → Map K V
  unfolding collect_onto
  collect l = collect_onto [] l

  -- No key stands twice, which is what makes an association list a map.
  abbrev pub Fresh : K → Map K V → Type 0
  Fresh i m = All (λ e. e.0 ≢ i) m

  abbrev pub IsMap : Map K V → Type 0
  IsMap [] = Unit
  IsMap ((i, v) ∷ m) = Fresh i m × IsMap m
