-- ===== src/Common/Maps/Order.antt =====
-- The order in which a hash map is iterated, which the hasher's random state decides: a parameter.
use Prim.Native.Nat.{ℕ}
use mathlib.Core.Path.{◌≡◌}
use tx2_link.Common.Maps.Defs.{Key, Map, get, IsMap}

-- Each map of a run has a number, so that equal maps may be iterated differently. An iteration
-- visits each key of the map once, with its value, and no other key.
pub record HashOrder (K V : Type 0) ⦃k : Key K⦄ : Type 0 where
  pub arrange : ℕ → Map K V → Map K V
  pub arrange-IsMap : (number : ℕ) (m : Map K V) → IsMap m → IsMap (arrange number m)
  pub get-arrange :
      (number : ℕ) (i : K) (m : Map K V) → IsMap m → get i (arrange number m) ≡ get i m
