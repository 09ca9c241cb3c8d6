-- ===== src/Rv32/Compressed/Fields.antt =====
-- The members of `Instruction` of vp/src/core/common/instr.h that read a compressed instruction, the
-- lower half of the word.
use coverage_vp.Base.{ℕ, ◌-◌, ◌*◌, ◌^◌, bit_and, bit_or}
use coverage_vp.Rv32.Word.{u32}
use coverage_vp.Rv32.Instr.{shift_right, bit_slice, bit_single, rd}

-- `BIT_SINGLE_P1`.
abbrev pub bit_single_p1 : ℕ → ℕ → ℕ
bit_single_p1 w pos = shift_right (bit_single w pos) pos

-- `BIT_SINGLE_PN`.
abbrev pub bit_single_pn : ℕ → ℕ → ℕ → ℕ
bit_single_pn w pos new_pos = u32 (bit_single_p1 w pos * 2 ^ new_pos)

-- `EXTRACT_SIGN_BIT`.
abbrev pub extract_sign_bit : ℕ → ℕ → ℕ → ℕ
extract_sign_bit w pos new_pos = shift_right (u32 (bit_single_p1 w pos * 2 ^ 31)) (31 - new_pos)

unfoldable pub c_format : ℕ → ℕ
c_format w = bit_and w 0xffff

unfoldable pub c_opcode : ℕ → ℕ
c_opcode w = bit_slice w 15 13

unfoldable pub c_b12 : ℕ → ℕ
c_b12 w = bit_single_p1 w 12

unfoldable pub c_rd : ℕ → ℕ
unfolding rd
c_rd w = rd w

unfoldable pub c_rd_small : ℕ → ℕ
c_rd_small w = bit_or (bit_slice w 9 7) 8

unfoldable pub c_rs2_small : ℕ → ℕ
c_rs2_small w = bit_or (bit_slice w 4 2) 8

unfoldable pub c_rs2 : ℕ → ℕ
c_rs2 w = bit_slice w 6 2

unfoldable pub c_imm : ℕ → ℕ
c_imm w = bit_or (bit_slice w 6 2) (extract_sign_bit w 12 5)

unfoldable pub c_uimm : ℕ → ℕ
c_uimm w = bit_or (bit_slice w 6 2) (u32 (bit_single_p1 w 12 * 2 ^ 5))

unfoldable pub c_f2_high : ℕ → ℕ
c_f2_high w = bit_slice w 11 10

unfoldable pub c_f2_low : ℕ → ℕ
c_f2_low w = bit_slice w 6 5
