-- ===== src/Rv32/Instr/Pattern.antt =====
-- `Opcode::Mapping` of vp/src/core/common/instr.h, and the constants of instr.cpp that give the bits by
-- which each instruction is recognised. The count at the end of the enumeration is left out.
use coverage_vp.Base.{ℕ}

pub data Mapping : Type 0 where
  undef lui auipc jal jalr beq bne blt bge bltu bgeu lb lh lw lbu lhu sb sh sw addi slti sltiu xori
        ori andi slli srli srai add sub sll slt sltu xor srl sra or and fence ecall ebreak fence_i
        csrrw csrrs csrrc csrrwi csrrsi csrrci mul mulh mulhsu mulhu div divu rem remu lr_w sc_w
        amoswap_w amoadd_w amoxor_w amoand_w amoor_w amomin_w amomax_w amominu_w amomaxu_w lwu ld sd
        addiw slliw srliw sraiw addw subw sllw srlw sraw mulw divw divuw remw remuw lr_d sc_d
        amoswap_d amoadd_d amoxor_d amoand_d amoor_d amomin_d amomax_d amominu_d amomaxu_d flw fsw
        fmadd_s fmsub_s fnmadd_s fnmsub_s fadd_s fsub_s fmul_s fdiv_s fsqrt_s fsgnj_s fsgnjn_s
        fsgnjx_s fmin_s fmax_s fcvt_w_s fcvt_wu_s fmv_x_w feq_s flt_s fle_s fclass_s fcvt_s_w
        fcvt_s_wu fmv_w_x fcvt_l_s fcvt_lu_s fcvt_s_l fcvt_s_lu fld fsd fmadd_d fmsub_d fnmsub_d
        fnmadd_d fadd_d fsub_d fmul_d fdiv_d fsqrt_d fsgnj_d fsgnjn_d fsgnjx_d fmin_d fmax_d
        fcvt_s_d fcvt_d_s feq_d flt_d fle_d fclass_d fcvt_w_d fcvt_wu_d fcvt_d_w fcvt_d_wu fcvt_l_d
        fcvt_lu_d fmv_x_d fcvt_d_l fcvt_d_lu fmv_d_x uret sret mret wfi sfence_vma :
      Mapping

-- A mask and an encoding: the bits under the mask are those of the encoding.
pub record Pattern : Type 0 where
  pub mask : ℕ
  pub encoding : ℕ

-- The shifts of RV32, whose masks have one bit more.
abbrev pub slli_32_pattern : Pattern
slli_32_pattern = record { mask = 0xfe00707f; encoding = 0x00001013 }

abbrev pub srli_32_pattern : Pattern
srli_32_pattern = record { mask = 0xfe00707f; encoding = 0x00005013 }

abbrev pub srai_32_pattern : Pattern
srai_32_pattern = record { mask = 0xfe00707f; encoding = 0x40005013 }

-- `X_MASK` and `X_ENCODING`. No word fits the pattern of `undef`, which has no constants.
unfoldable pub pattern : Mapping → Pattern
pattern Mapping.undef = record { mask = 0; encoding = 1 }
pattern Mapping.lui = record { mask = 0x0000007f; encoding = 0x00000037 }
pattern Mapping.auipc = record { mask = 0x0000007f; encoding = 0x00000017 }
pattern Mapping.jal = record { mask = 0x0000007f; encoding = 0x0000006f }
pattern Mapping.jalr = record { mask = 0x0000707f; encoding = 0x00000067 }
pattern Mapping.beq = record { mask = 0x0000707f; encoding = 0x00000063 }
pattern Mapping.bne = record { mask = 0x0000707f; encoding = 0x00001063 }
pattern Mapping.blt = record { mask = 0x0000707f; encoding = 0x00004063 }
pattern Mapping.bge = record { mask = 0x0000707f; encoding = 0x00005063 }
pattern Mapping.bltu = record { mask = 0x0000707f; encoding = 0x00006063 }
pattern Mapping.bgeu = record { mask = 0x0000707f; encoding = 0x00007063 }
pattern Mapping.lb = record { mask = 0x0000707f; encoding = 0x00000003 }
pattern Mapping.lh = record { mask = 0x0000707f; encoding = 0x00001003 }
pattern Mapping.lw = record { mask = 0x0000707f; encoding = 0x00002003 }
pattern Mapping.lbu = record { mask = 0x0000707f; encoding = 0x00004003 }
pattern Mapping.lhu = record { mask = 0x0000707f; encoding = 0x00005003 }
pattern Mapping.sb = record { mask = 0x0000707f; encoding = 0x00000023 }
pattern Mapping.sh = record { mask = 0x0000707f; encoding = 0x00001023 }
pattern Mapping.sw = record { mask = 0x0000707f; encoding = 0x00002023 }
pattern Mapping.addi = record { mask = 0x0000707f; encoding = 0x00000013 }
pattern Mapping.slti = record { mask = 0x0000707f; encoding = 0x00002013 }
pattern Mapping.sltiu = record { mask = 0x0000707f; encoding = 0x00003013 }
pattern Mapping.xori = record { mask = 0x0000707f; encoding = 0x00004013 }
pattern Mapping.ori = record { mask = 0x0000707f; encoding = 0x00006013 }
pattern Mapping.andi = record { mask = 0x0000707f; encoding = 0x00007013 }
pattern Mapping.slli = record { mask = 0xfc00707f; encoding = 0x00001013 }
pattern Mapping.srli = record { mask = 0xfc00707f; encoding = 0x00005013 }
pattern Mapping.srai = record { mask = 0xfc00707f; encoding = 0x40005013 }
pattern Mapping.add = record { mask = 0xfe00707f; encoding = 0x00000033 }
pattern Mapping.sub = record { mask = 0xfe00707f; encoding = 0x40000033 }
pattern Mapping.sll = record { mask = 0xfe00707f; encoding = 0x00001033 }
pattern Mapping.slt = record { mask = 0xfe00707f; encoding = 0x00002033 }
pattern Mapping.sltu = record { mask = 0xfe00707f; encoding = 0x00003033 }
pattern Mapping.xor = record { mask = 0xfe00707f; encoding = 0x00004033 }
pattern Mapping.srl = record { mask = 0xfe00707f; encoding = 0x00005033 }
pattern Mapping.sra = record { mask = 0xfe00707f; encoding = 0x40005033 }
pattern Mapping.or = record { mask = 0xfe00707f; encoding = 0x00006033 }
pattern Mapping.and = record { mask = 0xfe00707f; encoding = 0x00007033 }
pattern Mapping.fence = record { mask = 0x0000707f; encoding = 0x0000000f }
pattern Mapping.ecall = record { mask = 0xffffffff; encoding = 0x00000073 }
pattern Mapping.ebreak = record { mask = 0xffffffff; encoding = 0x00100073 }
pattern Mapping.fence_i = record { mask = 0x0000707f; encoding = 0x0000100f }
pattern Mapping.csrrw = record { mask = 0x0000707f; encoding = 0x00001073 }
pattern Mapping.csrrs = record { mask = 0x0000707f; encoding = 0x00002073 }
pattern Mapping.csrrc = record { mask = 0x0000707f; encoding = 0x00003073 }
pattern Mapping.csrrwi = record { mask = 0x0000707f; encoding = 0x00005073 }
pattern Mapping.csrrsi = record { mask = 0x0000707f; encoding = 0x00006073 }
pattern Mapping.csrrci = record { mask = 0x0000707f; encoding = 0x00007073 }
pattern Mapping.mul = record { mask = 0xfe00707f; encoding = 0x02000033 }
pattern Mapping.mulh = record { mask = 0xfe00707f; encoding = 0x02001033 }
pattern Mapping.mulhsu = record { mask = 0xfe00707f; encoding = 0x02002033 }
pattern Mapping.mulhu = record { mask = 0xfe00707f; encoding = 0x02003033 }
pattern Mapping.div = record { mask = 0xfe00707f; encoding = 0x02004033 }
pattern Mapping.divu = record { mask = 0xfe00707f; encoding = 0x02005033 }
pattern Mapping.rem = record { mask = 0xfe00707f; encoding = 0x02006033 }
pattern Mapping.remu = record { mask = 0xfe00707f; encoding = 0x02007033 }
pattern Mapping.lr_w = record { mask = 0xf9f0707f; encoding = 0x1000202f }
pattern Mapping.sc_w = record { mask = 0xf800707f; encoding = 0x1800202f }
pattern Mapping.amoswap_w = record { mask = 0xf800707f; encoding = 0x0800202f }
pattern Mapping.amoadd_w = record { mask = 0xf800707f; encoding = 0x0000202f }
pattern Mapping.amoxor_w = record { mask = 0xf800707f; encoding = 0x2000202f }
pattern Mapping.amoand_w = record { mask = 0xf800707f; encoding = 0x6000202f }
pattern Mapping.amoor_w = record { mask = 0xf800707f; encoding = 0x4000202f }
pattern Mapping.amomin_w = record { mask = 0xf800707f; encoding = 0x8000202f }
pattern Mapping.amomax_w = record { mask = 0xf800707f; encoding = 0xa000202f }
pattern Mapping.amominu_w = record { mask = 0xf800707f; encoding = 0xc000202f }
pattern Mapping.amomaxu_w = record { mask = 0xf800707f; encoding = 0xe000202f }
pattern Mapping.lwu = record { mask = 0x0000707f; encoding = 0x00006003 }
pattern Mapping.ld = record { mask = 0x0000707f; encoding = 0x00003003 }
pattern Mapping.sd = record { mask = 0x0000707f; encoding = 0x00003023 }
pattern Mapping.addiw = record { mask = 0x0000707f; encoding = 0x0000001b }
pattern Mapping.slliw = record { mask = 0xfe00707f; encoding = 0x0000101b }
pattern Mapping.srliw = record { mask = 0xfe00707f; encoding = 0x0000501b }
pattern Mapping.sraiw = record { mask = 0xfe00707f; encoding = 0x4000501b }
pattern Mapping.addw = record { mask = 0xfe00707f; encoding = 0x0000003b }
pattern Mapping.subw = record { mask = 0xfe00707f; encoding = 0x4000003b }
pattern Mapping.sllw = record { mask = 0xfe00707f; encoding = 0x0000103b }
pattern Mapping.srlw = record { mask = 0xfe00707f; encoding = 0x0000503b }
pattern Mapping.sraw = record { mask = 0xfe00707f; encoding = 0x4000503b }
pattern Mapping.mulw = record { mask = 0xfe00707f; encoding = 0x0200003b }
pattern Mapping.divw = record { mask = 0xfe00707f; encoding = 0x0200403b }
pattern Mapping.divuw = record { mask = 0xfe00707f; encoding = 0x0200503b }
pattern Mapping.remw = record { mask = 0xfe00707f; encoding = 0x0200603b }
pattern Mapping.remuw = record { mask = 0xfe00707f; encoding = 0x0200703b }
pattern Mapping.lr_d = record { mask = 0xf9f0707f; encoding = 0x1000302f }
pattern Mapping.sc_d = record { mask = 0xf800707f; encoding = 0x1800302f }
pattern Mapping.amoswap_d = record { mask = 0xf800707f; encoding = 0x0800302f }
pattern Mapping.amoadd_d = record { mask = 0xf800707f; encoding = 0x0000302f }
pattern Mapping.amoxor_d = record { mask = 0xf800707f; encoding = 0x2000302f }
pattern Mapping.amoand_d = record { mask = 0xf800707f; encoding = 0x6000302f }
pattern Mapping.amoor_d = record { mask = 0xf800707f; encoding = 0x4000302f }
pattern Mapping.amomin_d = record { mask = 0xf800707f; encoding = 0x8000302f }
pattern Mapping.amomax_d = record { mask = 0xf800707f; encoding = 0xa000302f }
pattern Mapping.amominu_d = record { mask = 0xf800707f; encoding = 0xc000302f }
pattern Mapping.amomaxu_d = record { mask = 0xf800707f; encoding = 0xe000302f }
pattern Mapping.flw = record { mask = 0x0000707f; encoding = 0x00002007 }
pattern Mapping.fsw = record { mask = 0x0000707f; encoding = 0x00002027 }
pattern Mapping.fmadd_s = record { mask = 0x0600007f; encoding = 0x00000043 }
pattern Mapping.fmsub_s = record { mask = 0x0600007f; encoding = 0x00000047 }
pattern Mapping.fnmadd_s = record { mask = 0x0600007f; encoding = 0x0000004f }
pattern Mapping.fnmsub_s = record { mask = 0x0600007f; encoding = 0x0000004b }
pattern Mapping.fadd_s = record { mask = 0xfe00007f; encoding = 0x00000053 }
pattern Mapping.fsub_s = record { mask = 0xfe00007f; encoding = 0x08000053 }
pattern Mapping.fmul_s = record { mask = 0xfe00007f; encoding = 0x10000053 }
pattern Mapping.fdiv_s = record { mask = 0xfe00007f; encoding = 0x18000053 }
pattern Mapping.fsqrt_s = record { mask = 0xfff0007f; encoding = 0x58000053 }
pattern Mapping.fsgnj_s = record { mask = 0xfe00707f; encoding = 0x20000053 }
pattern Mapping.fsgnjn_s = record { mask = 0xfe00707f; encoding = 0x20001053 }
pattern Mapping.fsgnjx_s = record { mask = 0xfe00707f; encoding = 0x20002053 }
pattern Mapping.fmin_s = record { mask = 0xfe00707f; encoding = 0x28000053 }
pattern Mapping.fmax_s = record { mask = 0xfe00707f; encoding = 0x28001053 }
pattern Mapping.fcvt_w_s = record { mask = 0xfff0007f; encoding = 0xc0000053 }
pattern Mapping.fcvt_wu_s = record { mask = 0xfff0007f; encoding = 0xc0100053 }
pattern Mapping.fmv_x_w = record { mask = 0xfff0707f; encoding = 0xe0000053 }
pattern Mapping.feq_s = record { mask = 0xfe00707f; encoding = 0xa0002053 }
pattern Mapping.flt_s = record { mask = 0xfe00707f; encoding = 0xa0001053 }
pattern Mapping.fle_s = record { mask = 0xfe00707f; encoding = 0xa0000053 }
pattern Mapping.fclass_s = record { mask = 0xfff0707f; encoding = 0xe0001053 }
pattern Mapping.fcvt_s_w = record { mask = 0xfff0007f; encoding = 0xd0000053 }
pattern Mapping.fcvt_s_wu = record { mask = 0xfff0007f; encoding = 0xd0100053 }
pattern Mapping.fmv_w_x = record { mask = 0xfff0707f; encoding = 0xf0000053 }
pattern Mapping.fcvt_l_s = record { mask = 0xfff0007f; encoding = 0xc0200053 }
pattern Mapping.fcvt_lu_s = record { mask = 0xfff0007f; encoding = 0xc0300053 }
pattern Mapping.fcvt_s_l = record { mask = 0xfff0007f; encoding = 0xd0200053 }
pattern Mapping.fcvt_s_lu = record { mask = 0xfff0007f; encoding = 0xd0300053 }
pattern Mapping.fld = record { mask = 0x0000707f; encoding = 0x00003007 }
pattern Mapping.fsd = record { mask = 0x0000707f; encoding = 0x00003027 }
pattern Mapping.fmadd_d = record { mask = 0x0600007f; encoding = 0x02000043 }
pattern Mapping.fmsub_d = record { mask = 0x0600007f; encoding = 0x02000047 }
pattern Mapping.fnmsub_d = record { mask = 0x0600007f; encoding = 0x0200004b }
pattern Mapping.fnmadd_d = record { mask = 0x0600007f; encoding = 0x0200004f }
pattern Mapping.fadd_d = record { mask = 0xfe00007f; encoding = 0x02000053 }
pattern Mapping.fsub_d = record { mask = 0xfe00007f; encoding = 0x0a000053 }
pattern Mapping.fmul_d = record { mask = 0xfe00007f; encoding = 0x12000053 }
pattern Mapping.fdiv_d = record { mask = 0xfe00007f; encoding = 0x1a000053 }
pattern Mapping.fsqrt_d = record { mask = 0xfff0007f; encoding = 0x5a000053 }
pattern Mapping.fsgnj_d = record { mask = 0xfe00707f; encoding = 0x22000053 }
pattern Mapping.fsgnjn_d = record { mask = 0xfe00707f; encoding = 0x22001053 }
pattern Mapping.fsgnjx_d = record { mask = 0xfe00707f; encoding = 0x22002053 }
pattern Mapping.fmin_d = record { mask = 0xfe00707f; encoding = 0x2a000053 }
pattern Mapping.fmax_d = record { mask = 0xfe00707f; encoding = 0x2a001053 }
pattern Mapping.fcvt_s_d = record { mask = 0xfff0007f; encoding = 0x40100053 }
pattern Mapping.fcvt_d_s = record { mask = 0xfff0007f; encoding = 0x42000053 }
pattern Mapping.feq_d = record { mask = 0xfe00707f; encoding = 0xa2002053 }
pattern Mapping.flt_d = record { mask = 0xfe00707f; encoding = 0xa2001053 }
pattern Mapping.fle_d = record { mask = 0xfe00707f; encoding = 0xa2000053 }
pattern Mapping.fclass_d = record { mask = 0xfff0707f; encoding = 0xe2001053 }
pattern Mapping.fcvt_w_d = record { mask = 0xfff0007f; encoding = 0xc2000053 }
pattern Mapping.fcvt_wu_d = record { mask = 0xfff0007f; encoding = 0xc2100053 }
pattern Mapping.fcvt_d_w = record { mask = 0xfff0007f; encoding = 0xd2000053 }
pattern Mapping.fcvt_d_wu = record { mask = 0xfff0007f; encoding = 0xd2100053 }
pattern Mapping.fcvt_l_d = record { mask = 0xfff0007f; encoding = 0xc2200053 }
pattern Mapping.fcvt_lu_d = record { mask = 0xfff0007f; encoding = 0xc2300053 }
pattern Mapping.fmv_x_d = record { mask = 0xfff0707f; encoding = 0xe2000053 }
pattern Mapping.fcvt_d_l = record { mask = 0xfff0007f; encoding = 0xd2200053 }
pattern Mapping.fcvt_d_lu = record { mask = 0xfff0007f; encoding = 0xd2300053 }
pattern Mapping.fmv_d_x = record { mask = 0xfff0707f; encoding = 0xf2000053 }
pattern Mapping.uret = record { mask = 0xffffffff; encoding = 0x00200073 }
pattern Mapping.sret = record { mask = 0xffffffff; encoding = 0x10200073 }
pattern Mapping.mret = record { mask = 0xffffffff; encoding = 0x30200073 }
pattern Mapping.wfi = record { mask = 0xffffffff; encoding = 0x10500073 }
pattern Mapping.sfence_vma = record { mask = 0xfe007fff; encoding = 0x12000073 }
