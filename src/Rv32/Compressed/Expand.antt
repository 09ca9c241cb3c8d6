-- ===== src/Rv32/Compressed/Expand.antt =====
-- `expand_compressed` and `decode_and_expand_compressed` of vp/src/core/common/instr.cpp.
use coverage_vp.Base.{ℕ, Option, none, some, ◌==◌, ltb, ◌&&◌, if◌then◌else◌}
use coverage_vp.Rv32.Instr.Pattern.{Mapping}
use coverage_vp.Rv32.Decode.Match.{Architecture, is_rv32}
use coverage_vp.Rv32.Compressed.Fields.{c_rd, c_rd_small, c_rs2_small, c_rs2, c_imm, c_uimm}
use coverage_vp.Rv32.Compressed.Offset.{
  c_addi4spn_nzuimm, c_lw_uimm, c_ld_uimm, c_sw_uimm, c_sd_uimm, c_jal_imm, c_addi16sp_nzimm,
  c_lui_nzimm, c_j_imm, c_branch_imm, c_lwsp_uimm, c_swsp_uimm, c_ldsp_uimm, c_sdsp_uimm,
}
use coverage_vp.Rv32.Compressed.Factory.{
  make_add, make_addi, make_addw, make_and, make_andi, make_beq, make_bne, make_ebreak, make_fld,
  make_flw, make_fsd, make_fsw, make_jal, make_jalr, make_ld, make_lui, make_lw, make_or, make_sd,
  make_slli, make_srai, make_srli, make_sub, make_subw, make_sw, make_xor,
}
use coverage_vp.Rv32.Compressed.Decode.{
  Opcode, c_illegal, c_lq, c_lqsp, c_sq, c_sqsp, c_reserved, c_nop, c_add, c_mv, c_and, c_or, c_xor,
  c_sub, c_addw, c_subw, c_lw, c_ld, c_flw, c_fld, c_sw, c_sd, c_fsw, c_fsd, c_addi4spn, c_addi,
  c_jal, c_addiw, c_li, c_addi16sp, c_lui, c_slli, c_srli, c_srai, c_andi, c_j, c_beqz, c_bnez,
  c_lwsp, c_ldsp, c_flwsp, c_fldsp, c_swsp, c_sdsp, c_fswsp, c_fsdsp, c_ebreak, c_jr, c_jalr,
  decode_compressed,
}

-- The mapping, and the word that takes the place of the compressed one. No opcode is left over, so the
-- exception behind the cases is never thrown.
unfoldable pub expand_compressed : Opcode → Architecture → ℕ → Mapping × ℕ
expand_compressed c_illegal arch w = (Mapping.undef, w)
expand_compressed c_lq arch w = (Mapping.undef, w)
expand_compressed c_lqsp arch w = (Mapping.undef, w)
expand_compressed c_sq arch w = (Mapping.undef, w)
expand_compressed c_sqsp arch w = (Mapping.undef, w)
expand_compressed c_reserved arch w = (Mapping.undef, w)
expand_compressed c_nop arch w = (Mapping.add, make_add 0 0 0)
expand_compressed c_add arch w = (Mapping.add, make_add (c_rd w) (c_rd w) (c_rs2 w))
expand_compressed c_mv arch w = (Mapping.add, make_add (c_rd w) 0 (c_rs2 w))
expand_compressed c_and arch w =
    (Mapping.and, make_and (c_rd_small w) (c_rd_small w) (c_rs2_small w))
expand_compressed c_or arch w = (Mapping.or, make_or (c_rd_small w) (c_rd_small w) (c_rs2_small w))
expand_compressed c_xor arch w =
    (Mapping.xor, make_xor (c_rd_small w) (c_rd_small w) (c_rs2_small w))
expand_compressed c_sub arch w =
    (Mapping.sub, make_sub (c_rd_small w) (c_rd_small w) (c_rs2_small w))
expand_compressed c_addw arch w =
    (Mapping.addw, make_addw (c_rd_small w) (c_rd_small w) (c_rs2_small w))
expand_compressed c_subw arch w =
    (Mapping.subw, make_subw (c_rd_small w) (c_rd_small w) (c_rs2_small w))
expand_compressed c_lw arch w = (Mapping.lw, make_lw (c_rs2_small w) (c_rd_small w) (c_lw_uimm w))
expand_compressed c_ld arch w = (Mapping.ld, make_ld (c_rs2_small w) (c_rd_small w) (c_ld_uimm w))
expand_compressed c_flw arch w =
    (Mapping.flw, make_flw (c_rs2_small w) (c_rd_small w) (c_lw_uimm w))
expand_compressed c_fld arch w =
    (Mapping.fld, make_fld (c_rs2_small w) (c_rd_small w) (c_ld_uimm w))
expand_compressed c_sw arch w = (Mapping.sw, make_sw (c_rd_small w) (c_rs2_small w) (c_sw_uimm w))
expand_compressed c_sd arch w = (Mapping.sd, make_sd (c_rd_small w) (c_rs2_small w) (c_sd_uimm w))
expand_compressed c_fsw arch w =
    (Mapping.fsw, make_fsw (c_rd_small w) (c_rs2_small w) (c_sw_uimm w))
expand_compressed c_fsd arch w =
    (Mapping.fsd, make_fsd (c_rd_small w) (c_rs2_small w) (c_sd_uimm w))
expand_compressed c_addi4spn arch w =
    if c_addi4spn_nzuimm w == 0
    then (Mapping.undef, w)
    else (Mapping.addi, make_addi (c_rs2_small w) 2 (c_addi4spn_nzuimm w))
expand_compressed c_addi arch w = (Mapping.addi, make_addi (c_rd w) (c_rd w) (c_imm w))
expand_compressed c_jal arch w = (Mapping.jal, make_jal 1 (c_jal_imm w))
expand_compressed c_addiw arch w =
    if c_rd w == 0
    then (Mapping.undef, w)
    else (Mapping.addiw, make_addi (c_rd w) (c_rd w) (c_imm w))
expand_compressed c_li arch w = (Mapping.addi, make_addi (c_rd w) 0 (c_imm w))
expand_compressed c_addi16sp arch w =
    if c_addi16sp_nzimm w == 0
    then (Mapping.undef, w)
    else (Mapping.addi, make_addi 2 2 (c_addi16sp_nzimm w))
expand_compressed c_lui arch w =
    if c_lui_nzimm w == 0
    then (Mapping.undef, w)
    else (Mapping.lui, make_lui (c_rd w) (c_lui_nzimm w))
expand_compressed c_slli arch w =
    if is_rv32 arch && ltb 31 (c_uimm w)
    then (Mapping.undef, w)
    else (Mapping.slli, make_slli (c_rd w) (c_rd w) (c_uimm w))
expand_compressed c_srli arch w =
    if is_rv32 arch && ltb 31 (c_uimm w)
    then (Mapping.undef, w)
    else (Mapping.srli, make_srli (c_rd_small w) (c_rd_small w) (c_uimm w))
expand_compressed c_srai arch w =
    if is_rv32 arch && ltb 31 (c_uimm w)
    then (Mapping.undef, w)
    else (Mapping.srai, make_srai (c_rd_small w) (c_rd_small w) (c_uimm w))
expand_compressed c_andi arch w = (Mapping.andi, make_andi (c_rd_small w) (c_rd_small w) (c_imm w))
expand_compressed c_j arch w = (Mapping.jal, make_jal 0 (c_j_imm w))
expand_compressed c_beqz arch w = (Mapping.beq, make_beq (c_rd_small w) 0 (c_branch_imm w))
expand_compressed c_bnez arch w = (Mapping.bne, make_bne (c_rd_small w) 0 (c_branch_imm w))
expand_compressed c_lwsp arch w =
    if c_rd w == 0 then (Mapping.undef, w) else (Mapping.lw, make_lw (c_rd w) 2 (c_lwsp_uimm w))
expand_compressed c_ldsp arch w =
    if c_rd w == 0 then (Mapping.undef, w) else (Mapping.ld, make_ld (c_rd w) 2 (c_ldsp_uimm w))
expand_compressed c_flwsp arch w = (Mapping.flw, make_flw (c_rd w) 2 (c_lwsp_uimm w))
expand_compressed c_fldsp arch w = (Mapping.fld, make_fld (c_rd w) 2 (c_ldsp_uimm w))
expand_compressed c_swsp arch w = (Mapping.sw, make_sw 2 (c_rs2 w) (c_swsp_uimm w))
expand_compressed c_sdsp arch w = (Mapping.sd, make_sd 2 (c_rs2 w) (c_sdsp_uimm w))
expand_compressed c_fswsp arch w = (Mapping.fsw, make_fsw 2 (c_rs2 w) (c_swsp_uimm w))
expand_compressed c_fsdsp arch w = (Mapping.fsd, make_fsd 2 (c_rs2 w) (c_sdsp_uimm w))
expand_compressed c_ebreak arch w = (Mapping.ebreak, make_ebreak)
expand_compressed c_jr arch w =
    if c_rd w == 0 then (Mapping.undef, w) else (Mapping.jalr, make_jalr 0 (c_rd w) 0)
expand_compressed c_jalr arch w = (Mapping.jalr, make_jalr 1 (c_rd w) 0)

unfoldable pub decode_and_expand_compressed : Architecture → ℕ → Option (Mapping × ℕ)
decode_and_expand_compressed arch w = elim (decode_compressed arch w) [
  | none ↦ none
  | some op ↦ some (expand_compressed op arch w)
]
