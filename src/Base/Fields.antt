-- ===== src/Base/Fields.antt =====
-- Words that are the `bit_or` of shifted fields, and the bits that a mask picks from them.
use Prim.Native.Nat.{ℕ, zero, suc, ◌*◌, ◌/◌, ◌^◌, ◌<◌, bit_and, bit_or}
use mathlib.Core.Path.{◌≡◌, refl}
use native.Mathlib.Nat.{pow-suc}
use native.Mathlib.Omega.{arith}
use coverage_vp.Base.Bits.{bit_and_lowest, bit_or_lowest, bit_and-zero, bit_and_assoc, lt_pow}
use coverage_vp.Base.Ranges.{double_pow, halve_pow, half_double}

distribute_below :
    (k a b m : ℕ) → m < 2 ^ k → bit_and (bit_or a b) m ≡ bit_or (bit_and a m) (bit_and b m)
distribute_below zero a b m h =
    let e : m ≡ 0 = omega arith in
    rw (e, bit_and-zero (bit_or a b), bit_and-zero a, bit_and-zero b) refl
distribute_below (suc k) a b m h =
    let e : bit_or a b / 2 ≡ bit_or (a / 2) (b / 2) = omega (arith, bit_or_lowest a b) in
    let f : bit_and a m / 2 ≡ bit_and (a / 2) (m / 2) = omega (arith, bit_and_lowest a m) in
    let g : bit_and b m / 2 ≡ bit_and (b / 2) (m / 2) = omega (arith, bit_and_lowest b m) in
    let halves = distribute_below k (a / 2) (b / 2) (m / 2) (omega (arith, pow-suc 2 k)) in
    let low_left = bit_and_lowest (bit_or a b) m in
    let low_right = bit_or_lowest (bit_and a m) (bit_and b m) in
    omega (
      arith,
      rw e at low_left,
      rw (f, g) at low_right,
      halves,
      bit_or_lowest a b,
      bit_and_lowest a m,
      bit_and_lowest b m,
    )

pub bit_and-bit_or : (a b m : ℕ) → bit_and (bit_or a b) m ≡ bit_or (bit_and a m) (bit_and b m)
bit_and-bit_or a b m = distribute_below m a b m (lt_pow m)

-- Shifting a field shifts its mask.
pub shift_left-bit_and : (j a b : ℕ) → bit_and a b * 2 ^ j ≡ bit_and (a * 2 ^ j) (b * 2 ^ j)
shift_left-bit_and zero a b =
    let e : a * 2 ^ 0 ≡ a = omega arith in
    let f : b * 2 ^ 0 ≡ b = omega arith in rw (e, f) (omega arith)
shift_left-bit_and (suc j) a b =
    rw (double_pow j a, double_pow j b, double_pow j (bit_and a b))
      (omega (
        arith,
        bit_and_lowest (a * 2 ^ j * 2) (b * 2 ^ j * 2),
        rw (half_double (a * 2 ^ j), half_double (b * 2 ^ j)) at
            (bit_and_lowest (a * 2 ^ j * 2) (b * 2 ^ j * 2)),
        shift_left-bit_and j a b,
      ))

pub shift_right-bit_and : (j a b : ℕ) → bit_and a b / 2 ^ j ≡ bit_and (a / 2 ^ j) (b / 2 ^ j)
shift_right-bit_and zero a b =
    let e : a / 2 ^ 0 ≡ a = omega arith in
    let f : b / 2 ^ 0 ≡ b = omega arith in rw (e, f) (omega arith)
shift_right-bit_and (suc j) a b =
    let half : bit_and a b / 2 ≡ bit_and (a / 2) (b / 2) = omega (arith, bit_and_lowest a b) in
    rw (halve_pow j a, halve_pow j b, halve_pow j (bit_and a b), half)
      (shift_right-bit_and j (a / 2) (b / 2))

-- A mask picks nothing of a field beside it, and all of a field under it.
pub cleared : (x k j m : ℕ) → bit_and (k * 2 ^ j) m ≡ 0 → bit_and (bit_and x k * 2 ^ j) m ≡ 0
cleared x k j m h =
    rw (shift_left-bit_and j x k, bit_and_assoc (x * 2 ^ j) (k * 2 ^ j) m, h)
      (bit_and-zero (x * 2 ^ j))

pub kept :
    (x k j m : ℕ)
    → bit_and (k * 2 ^ j) m ≡ k * 2 ^ j
    → bit_and (bit_and x k * 2 ^ j) m ≡ bit_and x k * 2 ^ j
kept x k j m h = rw (shift_left-bit_and j x k, bit_and_assoc (x * 2 ^ j) (k * 2 ^ j) m, h) refl

pub cleared_unshifted : (x k m : ℕ) → bit_and k m ≡ 0 → bit_and (bit_and x k) m ≡ 0
cleared_unshifted x k m h = rw (bit_and_assoc x k m, h) (bit_and-zero x)

pub kept_unshifted : (x k m : ℕ) → bit_and k m ≡ k → bit_and (bit_and x k) m ≡ bit_and x k
kept_unshifted x k m h = rw (bit_and_assoc x k m, h) refl
