-- ===== src/Rv32/Decode/Complete.antt =====
-- A word that fits the pattern of an instruction decodes to it (vp/src/core/common/instr.cpp).
use coverage_vp.Base.{arith, ℕ, ◌≡◌, refl}
use coverage_vp.Rv32.Instr.Pattern.{Mapping, pattern}
use coverage_vp.Rv32.Decode.Match.{Architecture, match_and_return_instr, match_and_return_instr2}
use coverage_vp.Rv32.Decode.Integer.{
  decode_branch, decode_load, decode_store, decode_imm, decode_arithmetic, decode_fence,
}
use coverage_vp.Rv32.Decode.Wide.{decode_imm_w, decode_arithmetic_w}
use coverage_vp.Rv32.Decode.System.{decode_system, decode_amo}
use coverage_vp.Rv32.Decode.Float.{
  decode_fmadd, decode_float, decode_float_load, decode_float_store, decode_fmsub, decode_fnmsub,
  decode_fnmadd,
}
use coverage_vp.Rv32.Decode.Normal.{decode_normal}
use coverage_vp.Rv32.Decode.Fits.{Fits, pattern_on}
use coverage_vp.Rv32.Decode.Covered.{
  opcode_of, funct2_of, funct3_of, funct12_of, funct7_of, funct5_of, rs2_of,
}
use coverage_vp.Base.Bits.{bit_and-zero}
use coverage_vp.Rv32.Instr.Pattern.Mapping.{
  undef, lui, auipc, jal, jalr, beq, bne, blt, bge, bltu, bgeu, lb, lh, lw, lbu, lhu, sb, sh, sw,
  addi, slti, sltiu, xori, ori, andi, slli, srli, srai, add, sub, sll, slt, sltu, xor, srl, sra, or,
  and, fence, ecall, ebreak, fence_i, csrrw, csrrs, csrrc, csrrwi, csrrsi, csrrci, mul, mulh,
  mulhsu, mulhu, div, divu, rem, remu, lr_w, sc_w, amoswap_w, amoadd_w, amoxor_w, amoand_w, amoor_w,
  amomin_w, amomax_w, amominu_w, amomaxu_w, lwu, ld, sd, addiw, slliw, srliw, sraiw, addw, subw,
  sllw, srlw, sraw, mulw, divw, divuw, remw, remuw, lr_d, sc_d, amoswap_d, amoadd_d, amoxor_d,
  amoand_d, amoor_d, amomin_d, amomax_d, amominu_d, amomaxu_d, flw, fsw, fmadd_s, fmsub_s, fnmadd_s,
  fnmsub_s, fadd_s, fsub_s, fmul_s, fdiv_s, fsqrt_s, fsgnj_s, fsgnjn_s, fsgnjx_s, fmin_s, fmax_s,
  fcvt_w_s, fcvt_wu_s, fmv_x_w, feq_s, flt_s, fle_s, fclass_s, fcvt_s_w, fcvt_s_wu, fmv_w_x,
  fcvt_l_s, fcvt_lu_s, fcvt_s_l, fcvt_s_lu, fld, fsd, fmadd_d, fmsub_d, fnmsub_d, fnmadd_d, fadd_d,
  fsub_d, fmul_d, fdiv_d, fsqrt_d, fsgnj_d, fsgnjn_d, fsgnjx_d, fmin_d, fmax_d, fcvt_s_d, fcvt_d_s,
  feq_d, flt_d, fle_d, fclass_d, fcvt_w_d, fcvt_wu_d, fcvt_d_w, fcvt_d_wu, fcvt_l_d, fcvt_lu_d,
  fmv_x_d, fcvt_d_l, fcvt_d_lu, fmv_d_x, uret, sret, mret, wfi, sfence_vma,
}
use coverage_vp.Rv32.Decode.Cases.{slli_complete, srli_complete, srai_complete, sfence_vma_complete}

module _ (arch : Architecture) (w : ℕ) where
  pub complete : (m : Mapping) → Fits arch w m → decode_normal arch w ≡ m
  unfolding decode_normal pattern_on pattern match_and_return_instr match_and_return_instr2
      decode_branch decode_load decode_store decode_imm decode_imm_w decode_arithmetic
      decode_arithmetic_w decode_fence decode_system decode_amo decode_fmadd decode_float
      decode_float_load decode_float_store decode_fmsub decode_fnmsub decode_fnmadd
  complete undef e = absurd (omega (arith, bit_and-zero w, e.bits))
  complete lui e = rw (opcode_of e refl, e.bits) refl
  complete auipc e = rw (opcode_of e refl, e.bits) refl
  complete jal e = rw (opcode_of e refl, e.bits) refl
  complete jalr e = rw (opcode_of e refl, e.bits) refl
  complete beq e = rw (opcode_of e refl, funct3_of e refl, e.bits) refl
  complete bne e = rw (opcode_of e refl, funct3_of e refl, e.bits) refl
  complete blt e = rw (opcode_of e refl, funct3_of e refl, e.bits) refl
  complete bge e = rw (opcode_of e refl, funct3_of e refl, e.bits) refl
  complete bltu e = rw (opcode_of e refl, funct3_of e refl, e.bits) refl
  complete bgeu e = rw (opcode_of e refl, funct3_of e refl, e.bits) refl
  complete lb e = rw (opcode_of e refl, funct3_of e refl, e.bits) refl
  complete lh e = rw (opcode_of e refl, funct3_of e refl, e.bits) refl
  complete lw e = rw (opcode_of e refl, funct3_of e refl, e.bits) refl
  complete lbu e = rw (opcode_of e refl, funct3_of e refl, e.bits) refl
  complete lhu e = rw (opcode_of e refl, funct3_of e refl, e.bits) refl
  complete sb e = rw (opcode_of e refl, funct3_of e refl, e.bits) refl
  complete sh e = rw (opcode_of e refl, funct3_of e refl, e.bits) refl
  complete sw e = rw (opcode_of e refl, funct3_of e refl, e.bits) refl
  complete addi e = rw (opcode_of e refl, funct3_of e refl, e.bits) refl
  complete slti e = rw (opcode_of e refl, funct3_of e refl, e.bits) refl
  complete sltiu e = rw (opcode_of e refl, funct3_of e refl, e.bits) refl
  complete xori e = rw (opcode_of e refl, funct3_of e refl, e.bits) refl
  complete ori e = rw (opcode_of e refl, funct3_of e refl, e.bits) refl
  complete andi e = rw (opcode_of e refl, funct3_of e refl, e.bits) refl
  complete slli e = slli_complete arch w e
  complete srli e = srli_complete arch w e
  complete srai e = srai_complete arch w e
  complete add e = rw (opcode_of e refl, funct7_of e refl, funct3_of e refl, e.bits) refl
  complete sub e = rw (opcode_of e refl, funct7_of e refl, funct3_of e refl, e.bits) refl
  complete sll e = rw (opcode_of e refl, funct7_of e refl, funct3_of e refl, e.bits) refl
  complete slt e = rw (opcode_of e refl, funct7_of e refl, funct3_of e refl, e.bits) refl
  complete sltu e = rw (opcode_of e refl, funct7_of e refl, funct3_of e refl, e.bits) refl
  complete xor e = rw (opcode_of e refl, funct7_of e refl, funct3_of e refl, e.bits) refl
  complete srl e = rw (opcode_of e refl, funct7_of e refl, funct3_of e refl, e.bits) refl
  complete sra e = rw (opcode_of e refl, funct7_of e refl, funct3_of e refl, e.bits) refl
  complete or e = rw (opcode_of e refl, funct7_of e refl, funct3_of e refl, e.bits) refl
  complete and e = rw (opcode_of e refl, funct7_of e refl, funct3_of e refl, e.bits) refl
  complete fence e = rw (opcode_of e refl, funct3_of e refl, e.bits) refl
  complete ecall e = rw (opcode_of e refl, funct3_of e refl, funct12_of e refl, e.bits) refl
  complete ebreak e = rw (opcode_of e refl, funct3_of e refl, funct12_of e refl, e.bits) refl
  complete fence_i e = rw (opcode_of e refl, funct3_of e refl, e.bits) refl
  complete csrrw e = rw (opcode_of e refl, funct3_of e refl, e.bits) refl
  complete csrrs e = rw (opcode_of e refl, funct3_of e refl, e.bits) refl
  complete csrrc e = rw (opcode_of e refl, funct3_of e refl, e.bits) refl
  complete csrrwi e = rw (opcode_of e refl, funct3_of e refl, e.bits) refl
  complete csrrsi e = rw (opcode_of e refl, funct3_of e refl, e.bits) refl
  complete csrrci e = rw (opcode_of e refl, funct3_of e refl, e.bits) refl
  complete mul e = rw (opcode_of e refl, funct7_of e refl, funct3_of e refl, e.bits) refl
  complete mulh e = rw (opcode_of e refl, funct7_of e refl, funct3_of e refl, e.bits) refl
  complete mulhsu e = rw (opcode_of e refl, funct7_of e refl, funct3_of e refl, e.bits) refl
  complete mulhu e = rw (opcode_of e refl, funct7_of e refl, funct3_of e refl, e.bits) refl
  complete div e = rw (opcode_of e refl, funct7_of e refl, funct3_of e refl, e.bits) refl
  complete divu e = rw (opcode_of e refl, funct7_of e refl, funct3_of e refl, e.bits) refl
  complete rem e = rw (opcode_of e refl, funct7_of e refl, funct3_of e refl, e.bits) refl
  complete remu e = rw (opcode_of e refl, funct7_of e refl, funct3_of e refl, e.bits) refl
  complete lr_w e = rw (opcode_of e refl, funct5_of e refl, funct3_of e refl, e.bits) refl
  complete sc_w e = rw (opcode_of e refl, funct5_of e refl, funct3_of e refl, e.bits) refl
  complete amoswap_w e = rw (opcode_of e refl, funct5_of e refl, funct3_of e refl, e.bits) refl
  complete amoadd_w e = rw (opcode_of e refl, funct5_of e refl, funct3_of e refl, e.bits) refl
  complete amoxor_w e = rw (opcode_of e refl, funct5_of e refl, funct3_of e refl, e.bits) refl
  complete amoand_w e = rw (opcode_of e refl, funct5_of e refl, funct3_of e refl, e.bits) refl
  complete amoor_w e = rw (opcode_of e refl, funct5_of e refl, funct3_of e refl, e.bits) refl
  complete amomin_w e = rw (opcode_of e refl, funct5_of e refl, funct3_of e refl, e.bits) refl
  complete amomax_w e = rw (opcode_of e refl, funct5_of e refl, funct3_of e refl, e.bits) refl
  complete amominu_w e = rw (opcode_of e refl, funct5_of e refl, funct3_of e refl, e.bits) refl
  complete amomaxu_w e = rw (opcode_of e refl, funct5_of e refl, funct3_of e refl, e.bits) refl
  complete lwu e = rw (opcode_of e refl, funct3_of e refl, e.bits) refl
  complete ld e = rw (opcode_of e refl, funct3_of e refl, e.bits) refl
  complete sd e = rw (opcode_of e refl, funct3_of e refl, e.bits) refl
  complete addiw e = rw (opcode_of e refl, funct3_of e refl, e.bits) refl
  complete slliw e = rw (opcode_of e refl, funct3_of e refl, e.bits) refl
  complete srliw e = rw (opcode_of e refl, funct3_of e refl, funct7_of e refl, e.bits) refl
  complete sraiw e = rw (opcode_of e refl, funct3_of e refl, funct7_of e refl, e.bits) refl
  complete addw e = rw (opcode_of e refl, funct7_of e refl, funct3_of e refl, e.bits) refl
  complete subw e = rw (opcode_of e refl, funct7_of e refl, funct3_of e refl, e.bits) refl
  complete sllw e = rw (opcode_of e refl, funct7_of e refl, funct3_of e refl, e.bits) refl
  complete srlw e = rw (opcode_of e refl, funct7_of e refl, funct3_of e refl, e.bits) refl
  complete sraw e = rw (opcode_of e refl, funct7_of e refl, funct3_of e refl, e.bits) refl
  complete mulw e = rw (opcode_of e refl, funct7_of e refl, funct3_of e refl, e.bits) refl
  complete divw e = rw (opcode_of e refl, funct7_of e refl, funct3_of e refl, e.bits) refl
  complete divuw e = rw (opcode_of e refl, funct7_of e refl, funct3_of e refl, e.bits) refl
  complete remw e = rw (opcode_of e refl, funct7_of e refl, funct3_of e refl, e.bits) refl
  complete remuw e = rw (opcode_of e refl, funct7_of e refl, funct3_of e refl, e.bits) refl
  complete lr_d e = rw (opcode_of e refl, funct5_of e refl, funct3_of e refl, e.bits) refl
  complete sc_d e = rw (opcode_of e refl, funct5_of e refl, funct3_of e refl, e.bits) refl
  complete amoswap_d e = rw (opcode_of e refl, funct5_of e refl, funct3_of e refl, e.bits) refl
  complete amoadd_d e = rw (opcode_of e refl, funct5_of e refl, funct3_of e refl, e.bits) refl
  complete amoxor_d e = rw (opcode_of e refl, funct5_of e refl, funct3_of e refl, e.bits) refl
  complete amoand_d e = rw (opcode_of e refl, funct5_of e refl, funct3_of e refl, e.bits) refl
  complete amoor_d e = rw (opcode_of e refl, funct5_of e refl, funct3_of e refl, e.bits) refl
  complete amomin_d e = rw (opcode_of e refl, funct5_of e refl, funct3_of e refl, e.bits) refl
  complete amomax_d e = rw (opcode_of e refl, funct5_of e refl, funct3_of e refl, e.bits) refl
  complete amominu_d e = rw (opcode_of e refl, funct5_of e refl, funct3_of e refl, e.bits) refl
  complete amomaxu_d e = rw (opcode_of e refl, funct5_of e refl, funct3_of e refl, e.bits) refl
  complete flw e = rw (opcode_of e refl, funct3_of e refl, e.bits) refl
  complete fsw e = rw (opcode_of e refl, funct3_of e refl, e.bits) refl
  complete fmadd_s e = rw (opcode_of e refl, funct2_of e refl, e.bits) refl
  complete fmsub_s e = rw (opcode_of e refl, funct2_of e refl, e.bits) refl
  complete fnmadd_s e = rw (opcode_of e refl, funct2_of e refl, e.bits) refl
  complete fnmsub_s e = rw (opcode_of e refl, funct2_of e refl, e.bits) refl
  complete fadd_s e = rw (opcode_of e refl, funct7_of e refl, e.bits) refl
  complete fsub_s e = rw (opcode_of e refl, funct7_of e refl, e.bits) refl
  complete fmul_s e = rw (opcode_of e refl, funct7_of e refl, e.bits) refl
  complete fdiv_s e = rw (opcode_of e refl, funct7_of e refl, e.bits) refl
  complete fsqrt_s e = rw (opcode_of e refl, funct7_of e refl, e.bits) refl
  complete fsgnj_s e = rw (opcode_of e refl, funct7_of e refl, funct3_of e refl, e.bits) refl
  complete fsgnjn_s e = rw (opcode_of e refl, funct7_of e refl, funct3_of e refl, e.bits) refl
  complete fsgnjx_s e = rw (opcode_of e refl, funct7_of e refl, funct3_of e refl, e.bits) refl
  complete fmin_s e = rw (opcode_of e refl, funct7_of e refl, funct3_of e refl, e.bits) refl
  complete fmax_s e = rw (opcode_of e refl, funct7_of e refl, funct3_of e refl, e.bits) refl
  complete fcvt_w_s e = rw (opcode_of e refl, funct7_of e refl, rs2_of e refl, e.bits) refl
  complete fcvt_wu_s e = rw (opcode_of e refl, funct7_of e refl, rs2_of e refl, e.bits) refl
  complete fmv_x_w e = rw (opcode_of e refl, funct7_of e refl, funct3_of e refl, e.bits) refl
  complete feq_s e = rw (opcode_of e refl, funct7_of e refl, funct3_of e refl, e.bits) refl
  complete flt_s e = rw (opcode_of e refl, funct7_of e refl, funct3_of e refl, e.bits) refl
  complete fle_s e = rw (opcode_of e refl, funct7_of e refl, funct3_of e refl, e.bits) refl
  complete fclass_s e = rw (opcode_of e refl, funct7_of e refl, funct3_of e refl, e.bits) refl
  complete fcvt_s_w e = rw (opcode_of e refl, funct7_of e refl, rs2_of e refl, e.bits) refl
  complete fcvt_s_wu e = rw (opcode_of e refl, funct7_of e refl, rs2_of e refl, e.bits) refl
  complete fmv_w_x e = rw (opcode_of e refl, funct7_of e refl, e.bits) refl
  complete fcvt_l_s e = rw (opcode_of e refl, funct7_of e refl, rs2_of e refl, e.bits) refl
  complete fcvt_lu_s e = rw (opcode_of e refl, funct7_of e refl, rs2_of e refl, e.bits) refl
  complete fcvt_s_l e = rw (opcode_of e refl, funct7_of e refl, rs2_of e refl, e.bits) refl
  complete fcvt_s_lu e = rw (opcode_of e refl, funct7_of e refl, rs2_of e refl, e.bits) refl
  complete fld e = rw (opcode_of e refl, funct3_of e refl, e.bits) refl
  complete fsd e = rw (opcode_of e refl, funct3_of e refl, e.bits) refl
  complete fmadd_d e = rw (opcode_of e refl, funct2_of e refl, e.bits) refl
  complete fmsub_d e = rw (opcode_of e refl, funct2_of e refl, e.bits) refl
  complete fnmsub_d e = rw (opcode_of e refl, funct2_of e refl, e.bits) refl
  complete fnmadd_d e = rw (opcode_of e refl, funct2_of e refl, e.bits) refl
  complete fadd_d e = rw (opcode_of e refl, funct7_of e refl, e.bits) refl
  complete fsub_d e = rw (opcode_of e refl, funct7_of e refl, e.bits) refl
  complete fmul_d e = rw (opcode_of e refl, funct7_of e refl, e.bits) refl
  complete fdiv_d e = rw (opcode_of e refl, funct7_of e refl, e.bits) refl
  complete fsqrt_d e = rw (opcode_of e refl, funct7_of e refl, e.bits) refl
  complete fsgnj_d e = rw (opcode_of e refl, funct7_of e refl, funct3_of e refl, e.bits) refl
  complete fsgnjn_d e = rw (opcode_of e refl, funct7_of e refl, funct3_of e refl, e.bits) refl
  complete fsgnjx_d e = rw (opcode_of e refl, funct7_of e refl, funct3_of e refl, e.bits) refl
  complete fmin_d e = rw (opcode_of e refl, funct7_of e refl, funct3_of e refl, e.bits) refl
  complete fmax_d e = rw (opcode_of e refl, funct7_of e refl, funct3_of e refl, e.bits) refl
  complete fcvt_s_d e = rw (opcode_of e refl, funct7_of e refl, e.bits) refl
  complete fcvt_d_s e = rw (opcode_of e refl, funct7_of e refl, e.bits) refl
  complete feq_d e = rw (opcode_of e refl, funct7_of e refl, funct3_of e refl, e.bits) refl
  complete flt_d e = rw (opcode_of e refl, funct7_of e refl, funct3_of e refl, e.bits) refl
  complete fle_d e = rw (opcode_of e refl, funct7_of e refl, funct3_of e refl, e.bits) refl
  complete fclass_d e = rw (opcode_of e refl, funct7_of e refl, funct3_of e refl, e.bits) refl
  complete fcvt_w_d e = rw (opcode_of e refl, funct7_of e refl, rs2_of e refl, e.bits) refl
  complete fcvt_wu_d e = rw (opcode_of e refl, funct7_of e refl, rs2_of e refl, e.bits) refl
  complete fcvt_d_w e = rw (opcode_of e refl, funct7_of e refl, rs2_of e refl, e.bits) refl
  complete fcvt_d_wu e = rw (opcode_of e refl, funct7_of e refl, rs2_of e refl, e.bits) refl
  complete fcvt_l_d e = rw (opcode_of e refl, funct7_of e refl, rs2_of e refl, e.bits) refl
  complete fcvt_lu_d e = rw (opcode_of e refl, funct7_of e refl, rs2_of e refl, e.bits) refl
  complete fmv_x_d e = rw (opcode_of e refl, funct7_of e refl, funct3_of e refl, e.bits) refl
  complete fcvt_d_l e = rw (opcode_of e refl, funct7_of e refl, rs2_of e refl, e.bits) refl
  complete fcvt_d_lu e = rw (opcode_of e refl, funct7_of e refl, rs2_of e refl, e.bits) refl
  complete fmv_d_x e = rw (opcode_of e refl, funct7_of e refl, e.bits) refl
  complete uret e = rw (opcode_of e refl, funct3_of e refl, funct12_of e refl, e.bits) refl
  complete sret e = rw (opcode_of e refl, funct3_of e refl, funct12_of e refl, e.bits) refl
  complete mret e = rw (opcode_of e refl, funct3_of e refl, funct12_of e refl, e.bits) refl
  complete wfi e = rw (opcode_of e refl, funct3_of e refl, funct12_of e refl, e.bits) refl
  complete sfence_vma e = sfence_vma_complete arch w e
