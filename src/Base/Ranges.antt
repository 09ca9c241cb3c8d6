-- ===== src/Base/Ranges.antt =====
-- The bits of a word that a mask of adjacent ones picks, and the sums that `bit_or` makes of bits that
-- do not overlap.
use Prim.Native.Nat.{ℕ, zero, suc, ◌+◌, ◌-◌, ◌*◌, ◌/◌, ◌%◌, ◌^◌, ◌≤◌, ◌<◌, bit_and, bit_or}
use mathlib.Core.Path.{◌≡◌, refl, sym, subst}
use native.Mathlib.Nat.{pow-suc, div-div-eq-div-mul, div-add-mod, div-add-mod', mul_assoc, mul_comm}
use native.Mathlib.Omega.{arith}
use coverage_vp.Base.Bits.{bit_and_lowest, bit_or_lowest, bit_and-zero}

pub pow-pos : (n : ℕ) → 0 < 2 ^ n
pow-pos zero = omega arith
pow-pos (suc n) = omega (arith, pow-suc 2 n, pow-pos n)

pub halve_pow : (l w : ℕ) → w / 2 ^ suc l ≡ w / 2 / 2 ^ l
halve_pow l w = rw (pow-suc 2 l, mul_comm (2 ^ l) 2) (sym (div-div-eq-div-mul w 2 (2 ^ l)))

pub double_pow : (l a : ℕ) → a * 2 ^ suc l ≡ a * 2 ^ l * 2
double_pow l a = rw (pow-suc 2 l) (sym (mul_assoc a (2 ^ l) 2))

-- Cutting one bit more keeps the lowest bit.
mod_pow-suc : (n w : ℕ) → w % 2 ^ suc n ≡ w / 2 % 2 ^ n * 2 + w % 2
mod_pow-suc n w =
    let whole : 2 * 2 ^ n * (w / 2 / 2 ^ n) + w % (2 * 2 ^ n) ≡ w =
      rw (div-div-eq-div-mul w 2 (2 ^ n)) (div-add-mod w (2 * 2 ^ n)) in
    rw (pow-suc 2 n, mul_comm (2 ^ n) 2)
      (omega (arith, whole, div-add-mod (w / 2) (2 ^ n), mul_assoc 2 (2 ^ n) (w / 2 / 2 ^ n)))

-- A double is a double: its digits are those of the half, after a zero.
pub half_double : (a : ℕ) → a * 2 / 2 ≡ a
half_double a = omega arith

pub bit_and_ones : (n w : ℕ) → bit_and w (2 ^ n - 1) ≡ w % 2 ^ n
bit_and_ones zero w = omega (arith, bit_and-zero w)
bit_and_ones (suc n) w =
    let half : (2 ^ suc n - 1) / 2 ≡ 2 ^ n - 1 = omega (arith, pow-suc 2 n, pow-pos n) in
    rw (bit_and_lowest w (2 ^ suc n - 1), half, bit_and_ones n (w / 2), mod_pow-suc n w)
      (omega (arith, pow-suc 2 n, pow-pos n))

pub bit_and_range : (l n w : ℕ) → bit_and w ((2 ^ n - 1) * 2 ^ l) ≡ w / 2 ^ l % 2 ^ n * 2 ^ l
bit_and_range zero n w =
    let one : (2 ^ n - 1) * 2 ^ 0 ≡ 2 ^ n - 1 = omega arith in
    let whole : w / 2 ^ 0 ≡ w = omega arith in rw (one, whole, bit_and_ones n w) (omega arith)
bit_and_range (suc l) n w =
    rw
      (
        double_pow l (2 ^ n - 1),
        halve_pow l w,
        bit_and_lowest w ((2 ^ n - 1) * 2 ^ l * 2),
        half_double ((2 ^ n - 1) * 2 ^ l),
        bit_and_range l n (w / 2),
        double_pow l (w / 2 / 2 ^ l % 2 ^ n),
      )
      (omega arith)

bit_or_fuel : (f a : ℕ) → a ≤ f → bit_or a 0 ≡ a
bit_or_fuel f zero p = refl
bit_or_fuel zero (suc a) p = absurd (omega arith)
bit_or_fuel (suc f) (suc a) p =
    omega (arith, bit_or_lowest (suc a) 0, bit_or_fuel f (suc a / 2) (omega arith))

-- Bits above k and bits below it.
pub bit_or_above : (k a b : ℕ) → b < 2 ^ k → bit_or (a * 2 ^ k) b ≡ a * 2 ^ k + b
bit_or_above zero a b h =
    let e : b ≡ 0 = omega arith in
    let whole : a * 2 ^ 0 ≡ a = omega arith in
    rw (e, whole) (omega (arith, bit_or_fuel a a (omega arith)))
bit_or_above (suc k) a b h =
    rw
      (
        double_pow k a,
        bit_or_lowest (a * 2 ^ k * 2) b,
        half_double (a * 2 ^ k),
        bit_or_above k a (b / 2) (omega (arith, pow-suc 2 k)),
      )
      (omega arith)

pub bit_or_sum : (k a b : ℕ) → a % 2 ^ k ≡ 0 → b < 2 ^ k → bit_or a b ≡ a + b
bit_or_sum k a b e h =
    let high : a / 2 ^ k * 2 ^ k ≡ a = omega (arith, div-add-mod' a (2 ^ k)) in
    subst (λ x. bit_or x b ≡ x + b) high (bit_or_above k (a / 2 ^ k) b h)
