-- ===== src/Suite.antt =====
-- The unit tests at the ends of the source files, run on the definitions. A test is its verdict:
-- false where an assertion fails, or where `unwrap` meets an error or a missing value. Of the
-- crates, the clocks and the printer of JSON it takes what it uses as arguments.
mod Rates
mod Schemas
mod Wires
mod Deltas
mod Syncs
mod Texts
use tx2_link.Common.{Bool, false, Option, none, some}
use tx2_link.Error.{Result, ok, err}

-- `unwrap` on a result, and on an option
abbrev pub unwrap {ℓ} : {A : Type ℓ} → Result A → (A → Bool) → Bool
unwrap (ok a) rest = rest a
unwrap (err e) rest = false

abbrev pub unwrap_some {ℓ} : {A : Type ℓ} → Option A → (A → Bool) → Bool
unwrap_some (some a) rest = rest a
unwrap_some none rest = false
