-- ===== src/Rv32/Instr/Immediate.antt =====
-- The immediates of vp/src/core/common/instr.h against the instruction formats.
use coverage_vp.Base.{ℕ, ◌+◌, ◌-◌, ◌*◌, ◌%◌, ◌^◌, ◌≡◌, arith, if◌then◌else◌}
use coverage_vp.Base.Ranges.{bit_and_range, bit_or_sum}
use coverage_vp.Rv32.Word.{field, is_set, u32}
use coverage_vp.Rv32.Instr.{i_imm, s_imm, b_imm, u_imm, j_imm, shift_right, bit_range, bit_single}

-- An n bit number in two's complement, as a 32-bit word.
abbrev pub sext : ℕ → ℕ → ℕ
sext n v = if is_set v (n - 1) then v + (2 ^ 32 - 2 ^ n) else v

module _ (w : ℕ) where
  i_imm-field : i_imm w ≡ sext 12 (field w 20 12)
  unfolding i_imm
  i_imm-field = ground (arith, bit_and_range 20 12 w)

  s_imm-field : s_imm w ≡ sext 12 (field w 25 7 * 2 ^ 5 + field w 7 5)
  unfolding s_imm
  s_imm-field =
      let high : shift_right (bit_range w 31 25) 20 ≡ sext 7 (field w 25 7) % 2 ^ 27 * 2 ^ 5 =
        ground (arith, bit_and_range 25 7 w) in
      let low : shift_right (bit_range w 11 7) 7 ≡ field w 7 5 =
        ground (arith, bit_and_range 7 5 w) in
      rw
        (
          high,
          low,
          bit_or_sum 5 (sext 7 (field w 25 7) % 2 ^ 27 * 2 ^ 5) (field w 7 5) (omega arith)
              (omega arith),
        )
        (ground arith)

  b_imm-field :
      b_imm w
      ≡ sext 13
          (field w 31 1 * 2 ^ 12 + field w 7 1 * 2 ^ 11 + field w 25 6 * 2 ^ 5 + field w 8 4 * 2)
  unfolding b_imm
  b_imm-field =
      let sign : shift_right (bit_single w 31) 19 ≡ field w 31 1 * (2 ^ 32 - 2 ^ 12) =
        ground (arith, bit_and_range 31 1 w) in
      let bit11 : u32 (bit_single w 7 * 2 ^ 4) ≡ field w 7 1 * 2 ^ 11 =
        ground (arith, bit_and_range 7 1 w) in
      let mid : shift_right (bit_range w 30 25) 20 ≡ field w 25 6 * 2 ^ 5 =
        ground (arith, bit_and_range 25 6 w) in
      let low : shift_right (bit_range w 11 8) 7 ≡ field w 8 4 * 2 =
        ground (arith, bit_and_range 8 4 w) in
      rw
        (
          sign,
          bit11,
          mid,
          low,
          bit_or_sum 12 (field w 31 1 * (2 ^ 32 - 2 ^ 12)) (field w 7 1 * 2 ^ 11) (omega arith)
              (omega arith),
          bit_or_sum 11 (field w 31 1 * (2 ^ 32 - 2 ^ 12) + field w 7 1 * 2 ^ 11)
              (field w 25 6 * 2 ^ 5) (omega arith) (omega arith),
          bit_or_sum 5
              (field w 31 1 * (2 ^ 32 - 2 ^ 12) + field w 7 1 * 2 ^ 11 + field w 25 6 * 2 ^ 5)
              (field w 8 4 * 2) (omega arith) (omega arith),
        )
        (ground arith)

  u_imm-field : u_imm w ≡ field w 12 20 * 2 ^ 12
  unfolding u_imm
  u_imm-field = bit_and_range 12 20 w

  j_imm-field :
      j_imm w
      ≡ sext 21 (
          field w 31 1 * 2 ^ 20 + field w 12 8 * 2 ^ 12 + field w 20 1 * 2 ^ 11 + field w 21 10 * 2)
  unfolding j_imm
  j_imm-field =
      let sign : shift_right (bit_single w 31) 11 ≡ field w 31 1 * (2 ^ 32 - 2 ^ 20) =
        ground (arith, bit_and_range 31 1 w) in
      let high : bit_range w 19 12 ≡ field w 12 8 * 2 ^ 12 = bit_and_range 12 8 w in
      let bit11 : shift_right (bit_single w 20) 9 ≡ field w 20 1 * 2 ^ 11 =
        ground (arith, bit_and_range 20 1 w) in
      let low : shift_right (bit_range w 30 21) 20 ≡ field w 21 10 * 2 =
        ground (arith, bit_and_range 21 10 w) in
      rw
        (
          sign,
          high,
          bit11,
          low,
          bit_or_sum 20 (field w 31 1 * (2 ^ 32 - 2 ^ 20)) (field w 12 8 * 2 ^ 12) (omega arith)
              (omega arith),
          bit_or_sum 12 (field w 31 1 * (2 ^ 32 - 2 ^ 20) + field w 12 8 * 2 ^ 12)
              (field w 20 1 * 2 ^ 11) (omega arith) (omega arith),
          bit_or_sum 11
              (field w 31 1 * (2 ^ 32 - 2 ^ 20) + field w 12 8 * 2 ^ 12 + field w 20 1 * 2 ^ 11)
              (field w 21 10 * 2) (omega arith) (omega arith),
        )
        (ground arith)

-- Each immediate is the number that the instruction format spreads over the word, in two's
-- complement: 12 bits of the I and S formats, 13 even bits of the B format, 21 even bits of the J
-- format, and the upper 20 bits in place of the U format.
pub immediates :
    (w : ℕ)
    → (i_imm w ≡ sext 12 (field w 20 12))
      × (s_imm w ≡ sext 12 (field w 25 7 * 2 ^ 5 + field w 7 5))
      × (b_imm w
          ≡ sext 13 (
              field w 31 1 * 2 ^ 12
              + field w 7 1 * 2 ^ 11
              + field w 25 6 * 2 ^ 5
              + field w 8 4 * 2))
      × (u_imm w ≡ field w 12 20 * 2 ^ 12)
      × (j_imm w
          ≡ sext 21 (
              field w 31 1 * 2 ^ 20
              + field w 12 8 * 2 ^ 12
              + field w 20 1 * 2 ^ 11
              + field w 21 10 * 2))
immediates w = (i_imm-field w, s_imm-field w, b_imm-field w, u_imm-field w, j_imm-field w)
