-- ===== src/Common/Bits.antt =====
-- `&` with a mask of low bits is a remainder, and `|` of a shifted number and one below the shift is
-- a sum. Both are proved for a width and then for one bit more.
use Prim.Native.Nat.{
  ℕ, zero, suc, ◌+◌, ◌-◌, ◌*◌, ◌/◌, ◌%◌, ◌^◌, ◌≤◌, ◌<◌, min, max, bit_and, bit_or, digits,
  bit_and-bitwise, bit_or-bitwise,
}
use mathlib.Core.Path.{◌≡◌, refl, ◌∙◌, sym, ap, subst}
use native.Mathlib.Nat.{
  pow-suc, mod-add-div, add-mul-mod_self_left, mod-eq_of_lt, mod-lt, zero-mod, mul_assoc,
  one-le-pow,
}
use native.Mathlib.Omega.{arith}

-- Twice the remainder of the half, and the lowest bit.
half_mod : (q x : ℕ) → 0 < q → x / 2 % q * 2 + x % 2 ≡ x % (q * 2)
half_mod q x h =
    let r = x / 2 % q in
    let c = x / 2 / q in
    let below : r < q = mod-lt (x / 2) h in
    let whole : r * 2 + x % 2 + q * 2 * c ≡ x = grind (arith, mod-add-div (x / 2) q) in
    sym (mod-eq_of_lt (omega (arith, below)))
    ∙ sym (add-mul-mod_self_left (r * 2 + x % 2) (q * 2) c)
    ∙ ap (λ y. y % (q * 2)) whole

-- The mask of the numbers below `q` takes remainders.
abbrev Masks : ℕ → Type 0
Masks q = (n a : ℕ) → a ≤ n → digits (λ b. 0) min n a (q - 1) ≡ a % q

Masks-double : (q : ℕ) → 0 < q → Masks q → Masks (q * 2)
Masks-double q h k zero zero l = sym (zero-mod (q * 2))
Masks-double q h k zero (suc a) l = absurd (omega arith)
Masks-double q h k (suc n) zero l = sym (zero-mod (q * 2))
Masks-double q h k (suc n) (suc a) l =
    let shifted : (q * 2 - 1) / 2 ≡ q - 1 = omega (arith, h) in
    rw shifted (omega (arith, h, half_mod q (suc a) h, k n (suc a / 2) (omega arith)))

and-zero : (n a : ℕ) → digits (λ b. 0) min n a 0 ≡ 0
and-zero zero a = refl
and-zero (suc n) zero = refl
and-zero (suc n) (suc a) = omega (arith, and-zero n (suc a / 2))

Masks-pow : (k : ℕ) → Masks (2 ^ k)
Masks-pow zero = λ n a l. omega (arith, and-zero n a)
Masks-pow (suc k) =
    subst Masks (sym (pow-suc 2 k))
      (Masks-double (2 ^ k) (one-le-pow k 2 (omega arith)) (Masks-pow k))

pub bit_and-mask : (k a : ℕ) → bit_and a (2 ^ k - 1) ≡ a % 2 ^ k
bit_and-mask k a = bit_and-bitwise a (2 ^ k - 1) ∙ Masks-pow k a a (omega arith)

-- A multiple of `q`, and a number below it.
abbrev Joins : ℕ → Type 0
Joins q = (n a h s : ℕ) → a ≡ h * q → a ≤ n → s < q → digits (λ b. b) max n a s ≡ a + s

Joins-double : (q : ℕ) → Joins q → Joins (q * 2)
Joins-double q j zero a h s e l b = omega (arith, l)
Joins-double q j (suc n) zero h s e l b = omega arith
Joins-double q j (suc n) (suc a) h s e l b =
    let twice : suc a ≡ h * q * 2 = e ∙ sym (mul_assoc h q 2) in
    let half : suc a / 2 ≡ h * q = omega (arith, twice) in
    let rest = j n (suc a / 2) h (s / 2) half (omega (arith, l)) (omega (arith, b)) in
    omega (arith, twice, half, rest)

or-zero : (n a : ℕ) → a ≤ n → digits (λ b. b) max n a 0 ≡ a
or-zero zero a l = omega (arith, l)
or-zero (suc n) zero l = refl
or-zero (suc n) (suc a) l = omega (arith, or-zero n (suc a / 2) (omega (arith, l)))

Joins-one : Joins 1
Joins-one n a h zero e l b = omega (arith, or-zero n a l)
Joins-one n a h (suc s) e l b = absurd (omega (arith, b))

Joins-pow : (k : ℕ) → Joins (2 ^ k)
Joins-pow zero = Joins-one
Joins-pow (suc k) = subst Joins (sym (pow-suc 2 k)) (Joins-double (2 ^ k) (Joins-pow k))

pub bit_or-join : (k h s : ℕ) → s < 2 ^ k → bit_or (h * 2 ^ k) s ≡ h * 2 ^ k + s
bit_or-join k h s b =
    bit_or-bitwise (h * 2 ^ k) s ∙ Joins-pow k (h * 2 ^ k) (h * 2 ^ k) h s refl (omega arith) b
