-- ===== src/Rv32/Instr/Format.antt =====
-- `Opcode::getType` of vp/src/core/common/instr.cpp: the formats of the instructions.
use coverage_vp.Rv32.Instr.Pattern.{Mapping}

-- `Opcode::Type`.
pub data Format : Type 0 where
  r_type i_type s_type b_type u_type j_type r4_type unknown_type : Format

unfoldable pub get_type : Mapping → Format
get_type Mapping.slli = r_type
get_type Mapping.srli = r_type
get_type Mapping.srai = r_type
get_type Mapping.add = r_type
get_type Mapping.sub = r_type
get_type Mapping.sll = r_type
get_type Mapping.slt = r_type
get_type Mapping.sltu = r_type
get_type Mapping.xor = r_type
get_type Mapping.srl = r_type
get_type Mapping.sra = r_type
get_type Mapping.or = r_type
get_type Mapping.and = r_type
get_type Mapping.mul = r_type
get_type Mapping.mulh = r_type
get_type Mapping.mulhsu = r_type
get_type Mapping.mulhu = r_type
get_type Mapping.div = r_type
get_type Mapping.divu = r_type
get_type Mapping.rem = r_type
get_type Mapping.remu = r_type
get_type Mapping.addw = r_type
get_type Mapping.subw = r_type
get_type Mapping.sllw = r_type
get_type Mapping.srlw = r_type
get_type Mapping.sraw = r_type
get_type Mapping.mulw = r_type
get_type Mapping.divw = r_type
get_type Mapping.divuw = r_type
get_type Mapping.remw = r_type
get_type Mapping.remuw = r_type
get_type Mapping.lr_w = r_type
get_type Mapping.sc_w = r_type
get_type Mapping.amoswap_w = r_type
get_type Mapping.amoadd_w = r_type
get_type Mapping.amoxor_w = r_type
get_type Mapping.amoand_w = r_type
get_type Mapping.amoor_w = r_type
get_type Mapping.amomin_w = r_type
get_type Mapping.amomax_w = r_type
get_type Mapping.amominu_w = r_type
get_type Mapping.amomaxu_w = r_type
get_type Mapping.lr_d = r_type
get_type Mapping.sc_d = r_type
get_type Mapping.amoswap_d = r_type
get_type Mapping.amoadd_d = r_type
get_type Mapping.amoxor_d = r_type
get_type Mapping.amoand_d = r_type
get_type Mapping.amoor_d = r_type
get_type Mapping.amomin_d = r_type
get_type Mapping.amomax_d = r_type
get_type Mapping.amominu_d = r_type
get_type Mapping.amomaxu_d = r_type
get_type Mapping.fadd_s = r_type
get_type Mapping.fsub_s = r_type
get_type Mapping.fmul_s = r_type
get_type Mapping.fdiv_s = r_type
get_type Mapping.fsqrt_s = r_type
get_type Mapping.fsgnj_s = r_type
get_type Mapping.fsgnjn_s = r_type
get_type Mapping.fsgnjx_s = r_type
get_type Mapping.fmin_s = r_type
get_type Mapping.fmax_s = r_type
get_type Mapping.fcvt_w_s = r_type
get_type Mapping.fcvt_wu_s = r_type
get_type Mapping.fmv_x_w = r_type
get_type Mapping.feq_s = r_type
get_type Mapping.flt_s = r_type
get_type Mapping.fle_s = r_type
get_type Mapping.fclass_s = r_type
get_type Mapping.fcvt_s_w = r_type
get_type Mapping.fcvt_s_wu = r_type
get_type Mapping.fmv_w_x = r_type
get_type Mapping.fcvt_l_s = r_type
get_type Mapping.fcvt_lu_s = r_type
get_type Mapping.fcvt_s_l = r_type
get_type Mapping.fcvt_s_lu = r_type
get_type Mapping.fadd_d = r_type
get_type Mapping.fsub_d = r_type
get_type Mapping.fmul_d = r_type
get_type Mapping.fdiv_d = r_type
get_type Mapping.fsqrt_d = r_type
get_type Mapping.fsgnj_d = r_type
get_type Mapping.fsgnjn_d = r_type
get_type Mapping.fsgnjx_d = r_type
get_type Mapping.fmin_d = r_type
get_type Mapping.fmax_d = r_type
get_type Mapping.fcvt_s_d = r_type
get_type Mapping.fcvt_d_s = r_type
get_type Mapping.feq_d = r_type
get_type Mapping.flt_d = r_type
get_type Mapping.fle_d = r_type
get_type Mapping.fclass_d = r_type
get_type Mapping.fcvt_w_d = r_type
get_type Mapping.fcvt_wu_d = r_type
get_type Mapping.fcvt_d_w = r_type
get_type Mapping.fcvt_d_wu = r_type
get_type Mapping.fcvt_l_d = r_type
get_type Mapping.fcvt_lu_d = r_type
get_type Mapping.fmv_x_d = r_type
get_type Mapping.fcvt_d_l = r_type
get_type Mapping.fcvt_d_lu = r_type
get_type Mapping.fmv_d_x = r_type
get_type Mapping.jalr = i_type
get_type Mapping.lb = i_type
get_type Mapping.lh = i_type
get_type Mapping.lw = i_type
get_type Mapping.ld = i_type
get_type Mapping.lbu = i_type
get_type Mapping.lhu = i_type
get_type Mapping.lwu = i_type
get_type Mapping.addi = i_type
get_type Mapping.slti = i_type
get_type Mapping.sltiu = i_type
get_type Mapping.xori = i_type
get_type Mapping.ori = i_type
get_type Mapping.andi = i_type
get_type Mapping.addiw = i_type
get_type Mapping.slliw = i_type
get_type Mapping.srliw = i_type
get_type Mapping.sraiw = i_type
get_type Mapping.flw = i_type
get_type Mapping.fld = i_type
get_type Mapping.sb = s_type
get_type Mapping.sh = s_type
get_type Mapping.sw = s_type
get_type Mapping.sd = s_type
get_type Mapping.fsw = s_type
get_type Mapping.fsd = s_type
get_type Mapping.beq = b_type
get_type Mapping.bne = b_type
get_type Mapping.blt = b_type
get_type Mapping.bge = b_type
get_type Mapping.bltu = b_type
get_type Mapping.bgeu = b_type
get_type Mapping.lui = u_type
get_type Mapping.auipc = u_type
get_type Mapping.jal = j_type
get_type Mapping.fmadd_s = r4_type
get_type Mapping.fmsub_s = r4_type
get_type Mapping.fnmsub_s = r4_type
get_type Mapping.fnmadd_s = r4_type
get_type Mapping.fmadd_d = r4_type
get_type Mapping.fmsub_d = r4_type
get_type Mapping.fnmsub_d = r4_type
get_type Mapping.fnmadd_d = r4_type
get_type m = unknown_type
