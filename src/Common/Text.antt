-- ===== src/Common/Text.antt =====
-- The texts that `format!` builds.
use Prim.Native.Nat.{ℕ, zero, suc, ◌/◌, ◌%◌}
use Prim.Native.String.{String}
pub use Prim.Native.String.{◌++◌ as ◌<>◌}
use mathlib.Core.Path.{◌≡◌, refl}
use tx2_link.Common.Tests.{ltb, if◌then◌else◌}

abbrev digit_text : ℕ → String
digit_text zero = "0"
digit_text (suc zero) = "1"
digit_text (suc (suc zero)) = "2"
digit_text (suc (suc (suc zero))) = "3"
digit_text (suc (suc (suc (suc zero)))) = "4"
digit_text (suc (suc (suc (suc (suc zero))))) = "5"
digit_text (suc (suc (suc (suc (suc (suc zero)))))) = "6"
digit_text (suc (suc (suc (suc (suc (suc (suc zero))))))) = "7"
digit_text (suc (suc (suc (suc (suc (suc (suc (suc zero)))))))) = "8"
digit_text _ = "9"

-- The decimal digits of `n`, highest first; `n` rounds are enough, since each divides by ten.
show_fuel : ℕ → ℕ → String
show_fuel zero n = digit_text n
show_fuel (suc f) n =
    let higher = show_fuel f (n / 10) in
    if ltb n 10 then digit_text n else higher <> digit_text (n % 10)

-- `{}` of an unsigned integer
unfoldable pub show : ℕ → String
unfolding show_fuel
show n = show_fuel n n

show_runs : show 18446 ≡ "18446"
unfolding show
show_runs = refl
