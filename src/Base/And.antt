-- ===== src/Base/And.antt =====
-- `&` on unsigned integers, digit by digit.
use Prim.Native.Nat.{
  ℕ, zero, suc, ◌+◌, ◌*◌, ◌/◌, ◌%◌, ◌^◌, ◌≤◌, ◌<◌, min, digits, bitwise, bit_and, bit_and-bitwise,
}
use mathlib.Core.Path.{◌≡◌, refl, ap, ◌∙◌}
use native.Mathlib.Nat.{le_refl, pow-suc}
use native.Mathlib.Omega.{arith}
use msoffice_crypto.Base.Bits.{below_two_pow}

-- Any two amounts of fuel that reach down to the last digit agree.
and_digits_fuel :
    (more less x y : ℕ)
    → x ≤ more
    → x ≤ less
    → digits (λ t. zero) min more x y ≡ digits (λ t. zero) min less x y
and_digits_fuel zero zero x y h k = refl
and_digits_fuel zero (suc less) zero y h k = refl
and_digits_fuel zero (suc less) (suc x) y h k = absurd (omega arith)
and_digits_fuel (suc more) zero zero y h k = refl
and_digits_fuel (suc more) zero (suc x) y h k = absurd (omega arith)
and_digits_fuel (suc more) (suc less) zero y h k = refl
and_digits_fuel (suc more) (suc less) (suc x) y h k =
    rw (and_digits_fuel more less (suc x / 2) (y / 2) (omega arith) (omega arith)) refl

and_bitwise-suc :
    (a b : ℕ)
    → bitwise (λ t. zero) min (suc a) b
      ≡ bitwise (λ t. zero) min (suc a / 2) (b / 2) * 2 + min (suc a % 2) (b % 2)
and_bitwise-suc a b =
    omega (arith, and_digits_fuel a (suc a / 2) (suc a / 2) (b / 2) (omega arith) (le_refl _))

pub bit_and_zero : (b : ℕ) → bit_and 0 b ≡ 0
bit_and_zero b = simp bit_and-bitwise refl

pub bit_and_step : (a b : ℕ) → bit_and a b ≡ bit_and (a / 2) (b / 2) * 2 + min (a % 2) (b % 2)
bit_and_step zero b = omega (arith, bit_and_zero b, bit_and_zero (b / 2))
bit_and_step (suc a) b = simp bit_and-bitwise (and_bitwise-suc a b)

and_disjoint_below : (n a m k : ℕ) → a < 2 ^ n → bit_and m k ≡ 0 → bit_and (bit_and a m) k ≡ 0
and_disjoint_below zero a m k h e =
    let none : a ≡ 0 = omega arith in
    let first : bit_and a m ≡ 0 = ap (λ t. bit_and t m) none ∙ bit_and_zero m in
    ap (λ t. bit_and t k) first ∙ bit_and_zero k
and_disjoint_below (suc n) a m k h e =
    let half : bit_and a m / 2 ≡ bit_and (a / 2) (m / 2) = omega (arith, bit_and_step a m) in
    let rest : bit_and (m / 2) (k / 2) ≡ 0 = omega (arith, bit_and_step m k) in
    omega (
      arith,
      bit_and_step (bit_and a m) k,
      bit_and_step a m,
      bit_and_step m k,
      ap (λ t. bit_and t (k / 2)) half,
      and_disjoint_below n (a / 2) (m / 2) (k / 2) (omega (arith, pow-suc 2 n)) rest,
    )

-- Digits that a mask clears are not there.
pub bit_and_disjoint : (a m k : ℕ) → bit_and m k ≡ 0 → bit_and (bit_and a m) k ≡ 0
bit_and_disjoint a m k e = and_disjoint_below a a m k (below_two_pow a) e

bit_and_le_below : (n a b : ℕ) → a < 2 ^ n → bit_and a b ≤ b
bit_and_le_below zero a b h =
    let none : a ≡ 0 = omega arith in
    let first : bit_and a b ≡ 0 = ap (λ t. bit_and t b) none ∙ bit_and_zero b in
    omega (arith, first)
bit_and_le_below (suc n) a b h =
    omega (arith, bit_and_step a b, bit_and_le_below n (a / 2) (b / 2) (omega (arith, pow-suc 2 n)))

pub bit_and_le : (a b : ℕ) → bit_and a b ≤ b
bit_and_le a b = bit_and_le_below a a b (below_two_pow a)
