-- ===== src/Base/Bits.antt =====
-- Laws of `bit_and` and `bit_or` at every width, from the digit recursion that they stand for,
-- and the complement of a word of k bits.
use Prim.Native.Nat.{
  ℕ, zero, suc, ◌+◌, ◌-◌, ◌*◌, ◌/◌, ◌%◌, ◌^◌, ◌≤◌, ◌<◌, min, max, bit_and, bit_or, digits, bitwise,
  bit_and-bitwise, bit_or-bitwise,
}
use mathlib.Core.Path.{◌≡◌, refl, sym}
use native.Mathlib.Nat.{pow-suc, le_refl, pow-succ', div-div-eq-div-mul}
use native.Mathlib.Omega.{arith}

-- More fuel than digits makes no difference.
module _ (tail : ℕ → ℕ) (bit : ℕ → ℕ → ℕ) where
  digits_enough : (f g a b : ℕ) → a ≤ f → a ≤ g → digits tail bit f a b ≡ digits tail bit g a b
  digits_enough zero zero a b p q = refl
  digits_enough zero (suc g) zero b p q = refl
  digits_enough zero (suc g) (suc a) b p q = absurd (omega arith)
  digits_enough (suc f) zero zero b p q = refl
  digits_enough (suc f) zero (suc a) b p q = absurd (omega arith)
  digits_enough (suc f) (suc g) zero b p q = refl
  digits_enough (suc f) (suc g) (suc a) b p q =
      rw (digits_enough f g (suc a / 2) (b / 2) (omega arith) (omega arith))

  lowest_digit :
      (a b : ℕ)
      → bitwise tail bit (suc a) b
        ≡ bitwise tail bit (suc a / 2) (b / 2) * 2 + bit (suc a % 2) (b % 2)
  lowest_digit a b =
      omega (arith, digits_enough a (suc a / 2) (suc a / 2) (b / 2) (omega arith) (le_refl _))

pub bit_and_lowest : (a b : ℕ) → bit_and a b ≡ bit_and (a / 2) (b / 2) * 2 + min (a % 2) (b % 2)
bit_and_lowest zero b = simp bit_and-bitwise (omega arith)
bit_and_lowest (suc a) b = simp bit_and-bitwise (lowest_digit (λ _. 0) min a b)

pub bit_or_lowest : (a b : ℕ) → bit_or a b ≡ bit_or (a / 2) (b / 2) * 2 + max (a % 2) (b % 2)
bit_or_lowest zero b = simp bit_or-bitwise (omega arith)
bit_or_lowest (suc a) b = simp bit_or-bitwise (lowest_digit (λ y. y) max a b)

pub bit_and-lt : (k a b : ℕ) → b < 2 ^ k → bit_and a b < 2 ^ k
bit_and-lt zero a b h = omega (arith, bit_and_zero a)
  where
    bit_and_fuel : (f n : ℕ) → n ≤ f → bit_and n 0 ≡ 0
    bit_and_fuel f zero p = refl
    bit_and_fuel zero (suc n) p = absurd (omega arith)
    bit_and_fuel (suc f) (suc n) p =
        omega (arith, bit_and_lowest (suc n) 0, bit_and_fuel f (suc n / 2) (omega arith))

    bit_and_zero : (n : ℕ) → bit_and n b ≡ 0
    bit_and_zero n = let e : b ≡ 0 = omega arith in rw e (bit_and_fuel n n (le_refl _))
bit_and-lt (suc k) a b h = omega (
  arith,
  pow-suc 2 k,
  bit_and_lowest a b,
  bit_and-lt k (a / 2) (b / 2) (omega (arith, pow-suc 2 k)),
)

-- `~m` in a word of k bits.
abbrev pub complement : ℕ → ℕ → ℕ
complement k m = 2 ^ k - 1 - m

-- A masked write, `(x & ~m) | (v & m)`.
pub masked : ℕ → ℕ → ℕ → ℕ → ℕ
masked k m x v = bit_or (bit_and x (complement k m)) (bit_and v m)

masked_lowest :
    (k m x v : ℕ)
    → m < 2 ^ suc k
    → masked (suc k) m x v
      ≡ masked k (m / 2) (x / 2) (v / 2) * 2 + max (min (x % 2) (1 - m % 2)) (min (v % 2) (m % 2))
unfolding masked
masked_lowest k m x v h =
    let half : complement (suc k) m / 2 ≡ complement k (m / 2) = omega (arith, pow-suc 2 k) in
    let low : complement (suc k) m % 2 ≡ 1 - m % 2 = omega (arith, pow-suc 2 k) in
    ground (
      arith,
      half,
      low,
      bit_or_lowest (bit_and x (complement (suc k) m)) (bit_and v m),
      bit_and_lowest x (complement (suc k) m),
      bit_and_lowest v m,
    )

pub bit_and-zero : (a : ℕ) → bit_and a 0 ≡ 0
bit_and-zero a = omega (arith, bit_and-lt 0 a 0 (omega arith))

-- Under the mask the write puts the value.
pub masked_written : (k m x v : ℕ) → m < 2 ^ k → bit_and (masked k m x v) m ≡ bit_and v m
masked_written zero m x v h =
    let e : m ≡ 0 = omega arith in
    rw e (omega (arith, bit_and-zero (masked 0 0 x v), bit_and-zero v))
masked_written (suc k) m x v h = ground (
  arith,
  masked_lowest k m x v,
  bit_and_lowest (masked (suc k) m x v) m,
  bit_and_lowest v m,
  masked_written k (m / 2) (x / 2) (v / 2) (omega (arith, pow-suc 2 k)),
)

-- Outside the mask it keeps what was there.
pub masked_kept :
    (k m x v : ℕ)
    → m < 2 ^ k
    → bit_and (masked k m x v) (complement k m) ≡ bit_and x (complement k m)
masked_kept zero m x v h =
    let e : complement 0 m ≡ 0 = omega arith in
    rw e (omega (arith, bit_and-zero (masked 0 m x v), bit_and-zero x))
masked_kept (suc k) m x v h =
    let half : complement (suc k) m / 2 ≡ complement k (m / 2) = omega (arith, pow-suc 2 k) in
    let low : complement (suc k) m % 2 ≡ 1 - m % 2 = omega (arith, pow-suc 2 k) in
    ground (
      arith,
      half,
      low,
      masked_lowest k m x v,
      bit_and_lowest (masked (suc k) m x v) (complement (suc k) m),
      bit_and_lowest x (complement (suc k) m),
      masked_kept k (m / 2) (x / 2) (v / 2) (omega (arith, pow-suc 2 k)),
    )

pub masked-lt : (k m x v : ℕ) → m < 2 ^ k → masked k m x v < 2 ^ k
unfolding masked
masked-lt zero m x v h =
    let e : m ≡ 0 = omega arith in rw (e, masked, bit_and-zero x, bit_and-zero v) (omega arith)
masked-lt (suc k) m x v h = omega (
  arith,
  pow-suc 2 k,
  masked_lowest k m x v h,
  masked-lt k (m / 2) (x / 2) (v / 2) (omega (arith, pow-suc 2 k)),
)

half_first : (k x : ℕ) → x / 2 ^ suc k ≡ x / 2 / 2 ^ k
half_first k x = rw pow-succ' (sym (div-div-eq-div-mul x 2 (2 ^ k)))

-- Bit `k` of a conjunction.
pub bit_and_bit : (k a b : ℕ) → bit_and a b / 2 ^ k % 2 ≡ min (a / 2 ^ k % 2) (b / 2 ^ k % 2)
bit_and_bit zero a b = omega (arith, bit_and_lowest a b)
bit_and_bit (suc k) a b =
    let e : bit_and a b / 2 ≡ bit_and (a / 2) (b / 2) = omega (arith, bit_and_lowest a b) in
    rw (half_first k (bit_and a b), half_first k a, half_first k b, e)
      (bit_and_bit k (a / 2) (b / 2))

pub zero-bit_and : (b : ℕ) → bit_and 0 b ≡ 0
zero-bit_and b = bit_and-bitwise 0 b

pub bit_and-lt_left : (k a b : ℕ) → a < 2 ^ k → bit_and a b < 2 ^ k
bit_and-lt_left zero a b h = let e : a ≡ 0 = omega arith in rw e (omega (arith, zero-bit_and b))
bit_and-lt_left (suc k) a b h = omega (
  arith,
  pow-suc 2 k,
  bit_and_lowest a b,
  bit_and-lt_left k (a / 2) (b / 2) (omega (arith, pow-suc 2 k)),
)

pub bit_or-lt : (k a b : ℕ) → a < 2 ^ k → b < 2 ^ k → bit_or a b < 2 ^ k
bit_or-lt zero a b h g =
    let e : a ≡ 0 = omega arith in let f : b ≡ 0 = omega arith in rw (e, f) (omega arith)
bit_or-lt (suc k) a b h g = omega (
  arith,
  pow-suc 2 k,
  bit_or_lowest a b,
  bit_or-lt k (a / 2) (b / 2) (omega (arith, pow-suc 2 k)) (omega (arith, pow-suc 2 k)),
)

-- Bit `k` of a disjunction.
pub bit_or_bit : (k a b : ℕ) → bit_or a b / 2 ^ k % 2 ≡ max (a / 2 ^ k % 2) (b / 2 ^ k % 2)
bit_or_bit zero a b = omega (arith, bit_or_lowest a b)
bit_or_bit (suc k) a b =
    let e : bit_or a b / 2 ≡ bit_or (a / 2) (b / 2) = omega (arith, bit_or_lowest a b) in
    rw (half_first k (bit_or a b), half_first k a, half_first k b, e) (bit_or_bit k (a / 2) (b / 2))

bit_and_assoc_below : (k a b c : ℕ) → a < 2 ^ k → bit_and (bit_and a b) c ≡ bit_and a (bit_and b c)
bit_and_assoc_below zero a b c h =
    let e : a ≡ 0 = omega arith in
    rw (e, zero-bit_and b, zero-bit_and c, zero-bit_and (bit_and b c)) refl
bit_and_assoc_below (suc k) a b c h =
    let e : bit_and a b / 2 ≡ bit_and (a / 2) (b / 2) = omega (arith, bit_and_lowest a b) in
    let f : bit_and b c / 2 ≡ bit_and (b / 2) (c / 2) = omega (arith, bit_and_lowest b c) in
    let halves = bit_and_assoc_below k (a / 2) (b / 2) (c / 2) (omega (arith, pow-suc 2 k)) in
    let low_left = bit_and_lowest (bit_and a b) c in
    let low_right = bit_and_lowest a (bit_and b c) in
    omega
      (arith, rw e at low_left, rw f at low_right, halves, bit_and_lowest a b, bit_and_lowest b c)

pub lt_pow : (a : ℕ) → a < 2 ^ a
lt_pow zero = omega arith
lt_pow (suc a) = omega (arith, pow-suc 2 a, lt_pow a)

pub bit_and_assoc : (a b c : ℕ) → bit_and (bit_and a b) c ≡ bit_and a (bit_and b c)
bit_and_assoc a b c = bit_and_assoc_below a a b c (lt_pow a)

-- A write through a mask keeps all outside a mask that contains it.
pub masked_kept_outside :
    (k m n x v : ℕ)
    → m < 2 ^ k
    → bit_and (complement k m) (complement k n) ≡ complement k n
    → bit_and (masked k m x v) (complement k n) ≡ bit_and x (complement k n)
masked_kept_outside k m n x v h inside =
    let kept = masked_kept k m x v h in
    let new = bit_and_assoc (masked k m x v) (complement k m) (complement k n) in
    let old = bit_and_assoc x (complement k m) (complement k n) in cc

-- A bit outside the mask, and a bound that mask and word meet.
pub masked_bit :
    (j k m x v : ℕ) → m / 2 ^ j % 2 ≡ 0 → x / 2 ^ j % 2 ≡ 0 → masked k m x v / 2 ^ j % 2 ≡ 0
unfolding masked
masked_bit j k m x v h g = omega (
  arith,
  bit_or_bit j (bit_and x (complement k m)) (bit_and v m),
  bit_and_bit j x (complement k m),
  bit_and_bit j v m,
)

pub masked_below : (j k m x v : ℕ) → m < 2 ^ j → x < 2 ^ j → masked k m x v < 2 ^ j
unfolding masked
masked_below j k m x v h g =
    bit_or-lt j (bit_and x (complement k m)) (bit_and v m) (bit_and-lt_left j x (complement k m) g)
      (bit_and-lt j v m h)

-- A bit under the mask comes from the value.
pub masked_bit_written :
    (j k m x v : ℕ)
    → m / 2 ^ j % 2 ≡ 1
    → complement k m / 2 ^ j % 2 ≡ 0
    → masked k m x v / 2 ^ j % 2 ≡ v / 2 ^ j % 2
unfolding masked
masked_bit_written j k m x v h g = omega (
  arith,
  bit_or_bit j (bit_and x (complement k m)) (bit_and v m),
  bit_and_bit j x (complement k m),
  bit_and_bit j v m,
)
