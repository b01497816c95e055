-- ===== src/Base/Bits.antt =====
-- `^` on unsigned integers, digit by digit.
use Prim.Native.Nat.{
  ℕ, zero, suc, ◌+◌, ◌*◌, ◌/◌, ◌%◌, ◌^◌, ◌≤◌, ◌<◌, differ, digits, bitwise, bit_xor,
  bit_xor-bitwise,
}
use mathlib.Core.Path.{◌≡◌, refl, ap}
use native.Mathlib.Nat.{le_refl, pow-suc}
use native.Mathlib.Omega.{arith}

-- The recursion on digits is on fuel; any two amounts that reach down to the last digit agree.
xor_digits_fuel :
    (more less x y : ℕ)
    → x ≤ more
    → x ≤ less
    → digits (λ t. t) differ more x y ≡ digits (λ t. t) differ less x y
xor_digits_fuel zero zero x y h k = refl
xor_digits_fuel zero (suc less) zero y h k = refl
xor_digits_fuel zero (suc less) (suc x) y h k = absurd (omega arith)
xor_digits_fuel (suc more) zero zero y h k = refl
xor_digits_fuel (suc more) zero (suc x) y h k = absurd (omega arith)
xor_digits_fuel (suc more) (suc less) zero y h k = refl
xor_digits_fuel (suc more) (suc less) (suc x) y h k =
    rw (xor_digits_fuel more less (suc x / 2) (y / 2) (omega arith) (omega arith)) refl

xor_bitwise-suc :
    (a b : ℕ)
    → bitwise (λ y. y) differ (suc a) b
      ≡ bitwise (λ y. y) differ (suc a / 2) (b / 2) * 2 + differ (suc a % 2) (b % 2)
xor_bitwise-suc a b =
    omega (arith, xor_digits_fuel a (suc a / 2) (suc a / 2) (b / 2) (omega arith) (le_refl _))

differ_mod : (x y : ℕ) → x < 2 → y < 2 → differ x y ≡ (x + y) % 2
differ_mod zero zero h k = refl
differ_mod zero (suc zero) h k = refl
differ_mod (suc zero) zero h k = refl
differ_mod (suc zero) (suc zero) h k = refl
differ_mod zero (suc (suc y)) h k = absurd (omega arith)
differ_mod (suc zero) (suc (suc y)) h k = absurd (omega arith)
differ_mod (suc (suc x)) y h k = absurd (omega arith)

bit_xor-differ : (a b : ℕ) → bit_xor a b ≡ bit_xor (a / 2) (b / 2) * 2 + differ (a % 2) (b % 2)
bit_xor-differ zero b = simp bit_xor-bitwise (omega arith)
bit_xor-differ (suc a) b = simp bit_xor-bitwise (xor_bitwise-suc a b)

pub bit_xor_step : (a b : ℕ) → bit_xor a b ≡ bit_xor (a / 2) (b / 2) * 2 + (a + b) % 2
bit_xor_step a b =
    omega (arith, bit_xor-differ a b, differ_mod (a % 2) (b % 2) (omega arith) (omega arith))

pub bit_xor-lt : (k a b : ℕ) → a < 2 ^ k → b < 2 ^ k → bit_xor a b < 2 ^ k
bit_xor-lt zero a b h l = ground (arith, bit_xor_step a b)
bit_xor-lt (suc k) a b h l = omega (
  arith,
  bit_xor_step a b,
  pow-suc 2 k,
  bit_xor-lt k (a / 2) (b / 2) (omega (arith, pow-suc 2 k)) (omega (arith, pow-suc 2 k)),
)

bit_xor_twice_below : (k a b : ℕ) → a < 2 ^ k → b < 2 ^ k → bit_xor (bit_xor a b) b ≡ a
bit_xor_twice_below zero a b h l =
    omega (arith, bit_xor-lt zero (bit_xor a b) b (bit_xor-lt zero a b h l) l)
bit_xor_twice_below (suc k) a b h l =
    let half : bit_xor a b / 2 ≡ bit_xor (a / 2) (b / 2) = omega (arith, bit_xor_step a b) in
    omega (
      arith,
      bit_xor_step (bit_xor a b) b,
      bit_xor_step a b,
      ap (λ t. bit_xor t (b / 2)) half,
      bit_xor_twice_below k (a / 2) (b / 2) (omega (arith, pow-suc 2 k))
          (omega (arith, pow-suc 2 k)),
    )

pub below_two_pow : (n : ℕ) → n < 2 ^ n
below_two_pow zero = omega arith
below_two_pow (suc n) = omega (arith, below_two_pow n, pow-suc 2 n)

two_pow_mono : (a d : ℕ) → 2 ^ a ≤ 2 ^ (a + d)
two_pow_mono a zero = grind arith
two_pow_mono a (suc d) = grind (arith, two_pow_mono a d, pow-suc 2 (a + d))

-- `^` with the same number twice changes nothing.
pub bit_xor_twice : (a b : ℕ) → bit_xor (bit_xor a b) b ≡ a
bit_xor_twice a b =
    bit_xor_twice_below (a + b) a b (omega (arith, below_two_pow a, two_pow_mono a b))
      (grind (arith, below_two_pow b, two_pow_mono b a))
