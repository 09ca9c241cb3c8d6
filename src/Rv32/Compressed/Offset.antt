-- ===== src/Rv32/Compressed/Offset.antt =====
-- The immediates of the compressed instructions, the functions `C_…_IMM` of
-- vp/src/core/common/instr.cpp.
use coverage_vp.Base.{ℕ, ◌*◌, ◌^◌, bit_or}
use coverage_vp.Rv32.Word.{u32}
use coverage_vp.Rv32.Instr.{bit_slice}
use coverage_vp.Rv32.Compressed.Fields.{bit_single_pn, extract_sign_bit}

-- A slice moved to the left.
abbrev pub slice_at : ℕ → ℕ → ℕ → ℕ → ℕ
slice_at n upper lower to = u32 (bit_slice n upper lower * 2 ^ to)

infixl 40 ◌bor◌
abbrev pub ◌bor◌ : ℕ → ℕ → ℕ
a bor b = bit_or a b

unfoldable pub c_addi4spn_nzuimm : ℕ → ℕ
c_addi4spn_nzuimm n =
    slice_at n 12 11 4 bor slice_at n 10 7 6 bor bit_single_pn n 6 2 bor bit_single_pn n 5 3

unfoldable pub c_lw_uimm : ℕ → ℕ
c_lw_uimm n = slice_at n 12 10 3 bor bit_single_pn n 6 2 bor bit_single_pn n 5 6

unfoldable pub c_ld_uimm : ℕ → ℕ
c_ld_uimm n = slice_at n 12 10 3 bor slice_at n 6 5 6

unfoldable pub c_sw_uimm : ℕ → ℕ
unfolding c_lw_uimm
c_sw_uimm n = c_lw_uimm n

unfoldable pub c_sd_uimm : ℕ → ℕ
unfolding c_ld_uimm
c_sd_uimm n = c_ld_uimm n

unfoldable pub c_jal_imm : ℕ → ℕ
c_jal_imm n =
    extract_sign_bit n 12 11
    bor bit_single_pn n 11 4
    bor slice_at n 10 9 8
    bor bit_single_pn n 8 10
    bor bit_single_pn n 7 6
    bor bit_single_pn n 6 7
    bor slice_at n 5 3 1
    bor bit_single_pn n 2 5

unfoldable pub c_addi16sp_nzimm : ℕ → ℕ
c_addi16sp_nzimm n =
    extract_sign_bit n 12 9
    bor bit_single_pn n 6 4
    bor bit_single_pn n 5 6
    bor slice_at n 4 3 7
    bor bit_single_pn n 2 5

unfoldable pub c_lui_nzimm : ℕ → ℕ
c_lui_nzimm n = extract_sign_bit n 12 17 bor slice_at n 6 2 12

unfoldable pub c_j_imm : ℕ → ℕ
unfolding c_jal_imm
c_j_imm n = c_jal_imm n

unfoldable pub c_branch_imm : ℕ → ℕ
c_branch_imm n =
    extract_sign_bit n 12 8
    bor slice_at n 11 10 3
    bor slice_at n 6 5 6
    bor slice_at n 4 3 1
    bor bit_single_pn n 2 5

unfoldable pub c_lwsp_uimm : ℕ → ℕ
c_lwsp_uimm n = bit_single_pn n 12 5 bor slice_at n 6 4 2 bor slice_at n 3 2 6

unfoldable pub c_swsp_uimm : ℕ → ℕ
c_swsp_uimm n = slice_at n 12 9 2 bor slice_at n 8 7 6

unfoldable pub c_ldsp_uimm : ℕ → ℕ
c_ldsp_uimm n = bit_single_pn n 12 5 bor slice_at n 6 5 3 bor slice_at n 4 2 6

unfoldable pub c_sdsp_uimm : ℕ → ℕ
c_sdsp_uimm n = slice_at n 12 10 3 bor slice_at n 9 7 6
