-- ===== src/Clover/Buffer/Numbers.antt =====
-- The number that a buffer of bytes stands for in vp/src/symex/clover/solver.cpp.
use native.Mathlib.Nat.{div-div-eq-div-mul}
use coverage_vp.Base.{ℕ, suc, ◌+◌, ◌*◌, ◌/◌, ◌%◌, ◌^◌, ◌<◌, ◌≡◌, sym, arith, List, [], ◌∷◌}
use coverage_vp.Base.{length}
use coverage_vp.Clover.Memory.Loaded.{pow_byte}

-- Little endian.
abbrev pub number : List ℕ → ℕ
number [] = 0
number (x ∷ xs) = x + 256 * number xs

pub data AreBytes : List ℕ → Type 0 where
  none_left : AreBytes []
  byte_first : {x : ℕ} {xs : List ℕ} → x < 256 → AreBytes xs → AreBytes (x ∷ xs)

pub number-lt : (xs : List ℕ) → AreBytes xs → number xs < 2 ^ (length xs * 8)
number-lt [] h = omega arith
number-lt (x ∷ xs) (byte_first l h) =
    let e : suc (length xs) * 8 ≡ (length xs + 1) * 8 = omega arith in
    rw (e, pow_byte (length xs)) (omega (arith, number-lt xs h))

-- What is left behind a byte.
pub rest_number :
    (n j x : ℕ) (xs : List ℕ)
    → x < 256
    → n / 2 ^ (j * 8) ≡ number (x ∷ xs)
    → (n / 2 ^ (j * 8) % 256 ≡ x) × (n / 2 ^ ((j + 1) * 8) ≡ number xs)
rest_number n j x xs l e =
    let up : 2 ^ ((j + 1) * 8) ≡ 2 ^ (j * 8) * 256 = omega (arith, pow_byte j) in
    (omega (arith, e), rw (up, sym (div-div-eq-div-mul n (2 ^ (j * 8)) 256)) (omega (arith, e)))
