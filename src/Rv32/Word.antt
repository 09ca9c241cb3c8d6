-- ===== src/Rv32/Word.antt =====
-- 32-bit words and their bit fields, as the unions of vp/src/core/rv32/csr.h lay them out.
use coverage_vp.Base.{ℕ, ◌+◌, ◌*◌, ◌/◌, ◌%◌, ◌^◌, Bool, not, ◌==◌}
use coverage_vp.Base.Bits.{complement}

abbrev pub u32 : ℕ → ℕ
u32 n = n % 2 ^ 32

-- The bit field of `w` bits that begins at bit `at`.
abbrev pub field : ℕ → ℕ → ℕ → ℕ
field reg at w = reg / 2 ^ at % 2 ^ w

abbrev pub set_field : ℕ → ℕ → ℕ → ℕ → ℕ
set_field reg at w v = reg / 2 ^ (at + w) * 2 ^ (at + w) + v % 2 ^ w * 2 ^ at + reg % 2 ^ at

abbrev pub is_set : ℕ → ℕ → Bool
is_set reg at = reg / 2 ^ at % 2 == 1

-- A word as a condition.
abbrev pub nonzero : ℕ → Bool
nonzero n = not (n == 0)

-- `~m` of a `uint32_t`.
abbrev pub bit_not : ℕ → ℕ
bit_not m = complement 32 m
