-- ===== src/Common/Maps/Counting.antt =====
-- Two maps of one size, the first within the second, have the same keys.
use Prim.Native.Nat.{suc, ◌≤◌}
use mathlib.Core.Path.{◌≡◌, refl, sym, subst}
use mathlib.Core.Logic.{◌≢◌, inl, inr}
use mathlib.Core.Option.{none, some}
use mathlib.Core.List.{[], ◌∷◌}
use native.Mathlib.Omega.{arith}
use tx2_link.Common.Tests.{if◌then◌else◌, Bool-cases}
use tx2_link.Common.Lists.{length}
use tx2_link.Common.Maps.Defs.{Key, ◌=?◌, Map, get, Fresh, IsMap}
use tx2_link.Common.Maps.Laws.{=?_refl, =?_ne, get_of_Fresh}

module _ {K V : Type 0} ⦃k : Key K⦄ where
  -- Drops the first entry with a key.
  without : K → Map K V → Map K V
  without i [] = []
  without i ((j, v) ∷ m) = let rest = without i m in if j =? i then m else (j, v) ∷ rest

  get-without : (i j : K) (m : Map K V) → i ≢ j → get j (without i m) ≡ get j m
  unfolding without get
  get-without i j [] n = refl
  get-without i j ((h, v) ∷ m) n = ground (arith, k.beq_iff h i, k.beq_iff h j, get-without i j m n)

  Fresh-without : (i j : K) (m : Map K V) → Fresh j m → Fresh j (without i m)
  unfolding without
  Fresh-without i j [] f = tt
  Fresh-without i j ((h, v) ∷ m) f = elim (Bool-cases (h =? i)) [
    | inl e ↦ rw e f.1
    | inr e ↦ rw e (f.0, Fresh-without i j m f.1)
  ]

  without-IsMap : (i : K) (m : Map K V) → IsMap m → IsMap (without i m)
  unfolding without
  without-IsMap i [] u = tt
  without-IsMap i ((h, v) ∷ m) u = elim (Bool-cases (h =? i)) [
    | inl e ↦ rw e u.1
    | inr e ↦ rw e (Fresh-without i h m u.0, without-IsMap i m u.1)
  ]

  length-without : (i : K) (m : Map K V) → get i m ≢ none → suc (length (without i m)) ≡ length m
  unfolding without get
  length-without i [] h = absurd (h refl)
  length-without i ((j, v) ∷ m) h = ground (arith, length-without i m)

module _ {K V : Type 0} ⦃k : Key K⦄ where
  get_head : (j : K) (v : V) (a : Map K V) → get j ((j, v) ∷ a) ≡ some v
  unfolding get
  get_head j v a = rw (=?_refl j)

module _ {K V W : Type 0} ⦃k : Key K⦄ where
  -- Every key of the first map is a key of the second.
  abbrev pub Within : Map K V → Map K W → Type 0
  Within a b = (i : K) → get i a ≢ none → get i b ≢ none

  Within-tail :
      (i : K) (v : V) (a : Map K V) (b : Map K W)
      → Fresh i a
      → Within ((i, v) ∷ a) b
      → Within a (without i b)
  unfolding get
  Within-tail i v a b f w j h = elim (Bool-cases (i =? j)) [
    | inl e ↦ absurd (h (ground (arith, k.beq_iff i j, get_of_Fresh i a f)))
    | inr e ↦
        let n : i ≢ j = λ p. ground (arith, k.beq_iff i j) in
        rw (get-without i j b n) (w j (λ p. h (rw e at p)))
  ]

  pub none_of_Within :
      (a : Map K V) (b : Map K W)
      → IsMap a
      → IsMap b
      → length b ≤ length a
      → Within a b
      → (i : K) → get i a ≡ none
      → get i b ≡ none
  unfolding get
  none_of_Within [] [] u t h w i e = refl
  none_of_Within [] (x ∷ b) u t h w i e = absurd (omega arith)
  none_of_Within ((j, v) ∷ a) b u t h w i e =
      let here : get j ((j, v) ∷ a) ≢ none = λ p. cc (get_head j v a) in
      let n : j ≢ i = λ p. here (subst (λ z. get z ((j, v) ∷ a) ≡ none) (sym p) e) in
      let rest : get i a ≡ none = rw (=?_ne j i n) at e in
      let m = length-without j b (w j here) in
      rw (← get-without j i b n) (
        none_of_Within a (without j b) u.1 (without-IsMap j b t) (omega arith)
          (Within-tail j v a b u.0 w) i rest)
