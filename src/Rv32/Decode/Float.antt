-- ===== src/Rv32/Decode/Float.antt =====
-- `Instruction::decode_normal` of vp/src/core/common/instr.cpp: the groups of the F and D extensions.
use coverage_vp.Base.{ℕ, ◌==◌, if◌then◌else◌}
use coverage_vp.Rv32.Instr.{funct2, funct3, funct7, rs2}
use coverage_vp.Rv32.Instr.Pattern.{Mapping}
use coverage_vp.Rv32.Decode.Match.{match_and_return_instr}

-- `OP_FMADD_S`.
unfoldable pub decode_fmadd : ℕ → Mapping
decode_fmadd w =
    if funct2 w == 0
    then match_and_return_instr w Mapping.fmadd_s
    else if funct2 w == 1
    then match_and_return_instr w Mapping.fmadd_d
    else Mapping.undef

-- `OP_FADD_S`.
unfoldable pub decode_float : ℕ → Mapping
decode_float w =
    if funct7 w == 0
    then match_and_return_instr w Mapping.fadd_s
    else if funct7 w == 1
    then match_and_return_instr w Mapping.fadd_d
    else if funct7 w == 4
    then match_and_return_instr w Mapping.fsub_s
    else if funct7 w == 5
    then match_and_return_instr w Mapping.fsub_d
    else if funct7 w == 33
    then match_and_return_instr w Mapping.fcvt_d_s
    else if funct7 w == 8
    then match_and_return_instr w Mapping.fmul_s
    else if funct7 w == 9
    then match_and_return_instr w Mapping.fmul_d
    else if funct7 w == 12
    then match_and_return_instr w Mapping.fdiv_s
    else if funct7 w == 13
    then match_and_return_instr w Mapping.fdiv_d
    else if funct7 w == 80
    then (if funct3 w == 0
        then match_and_return_instr w Mapping.fle_s
        else if funct3 w == 1
        then match_and_return_instr w Mapping.flt_s
        else if funct3 w == 2
        then match_and_return_instr w Mapping.feq_s
        else Mapping.undef)
    else if funct7 w == 17
    then (if funct3 w == 0
        then match_and_return_instr w Mapping.fsgnj_d
        else if funct3 w == 1
        then match_and_return_instr w Mapping.fsgnjn_d
        else if funct3 w == 2
        then match_and_return_instr w Mapping.fsgnjx_d
        else Mapping.undef)
    else if funct7 w == 20
    then (if funct3 w == 0
        then match_and_return_instr w Mapping.fmin_s
        else if funct3 w == 1
        then match_and_return_instr w Mapping.fmax_s
        else Mapping.undef)
    else if funct7 w == 21
    then (if funct3 w == 0
        then match_and_return_instr w Mapping.fmin_d
        else if funct3 w == 1
        then match_and_return_instr w Mapping.fmax_d
        else Mapping.undef)
    else if funct7 w == 32
    then match_and_return_instr w Mapping.fcvt_s_d
    else if funct7 w == 16
    then (if funct3 w == 0
        then match_and_return_instr w Mapping.fsgnj_s
        else if funct3 w == 1
        then match_and_return_instr w Mapping.fsgnjn_s
        else if funct3 w == 2
        then match_and_return_instr w Mapping.fsgnjx_s
        else Mapping.undef)
    else if funct7 w == 81
    then (if funct3 w == 0
        then match_and_return_instr w Mapping.fle_d
        else if funct3 w == 1
        then match_and_return_instr w Mapping.flt_d
        else if funct3 w == 2
        then match_and_return_instr w Mapping.feq_d
        else Mapping.undef)
    else if funct7 w == 104
    then (if rs2 w == 0
        then match_and_return_instr w Mapping.fcvt_s_w
        else if rs2 w == 1
        then match_and_return_instr w Mapping.fcvt_s_wu
        else if rs2 w == 2
        then match_and_return_instr w Mapping.fcvt_s_l
        else if rs2 w == 3
        then match_and_return_instr w Mapping.fcvt_s_lu
        else Mapping.undef)
    else if funct7 w == 105
    then (if rs2 w == 0
        then match_and_return_instr w Mapping.fcvt_d_w
        else if rs2 w == 1
        then match_and_return_instr w Mapping.fcvt_d_wu
        else if rs2 w == 2
        then match_and_return_instr w Mapping.fcvt_d_l
        else if rs2 w == 3
        then match_and_return_instr w Mapping.fcvt_d_lu
        else Mapping.undef)
    else if funct7 w == 97
    then (if rs2 w == 0
        then match_and_return_instr w Mapping.fcvt_w_d
        else if rs2 w == 1
        then match_and_return_instr w Mapping.fcvt_wu_d
        else if rs2 w == 2
        then match_and_return_instr w Mapping.fcvt_l_d
        else if rs2 w == 3
        then match_and_return_instr w Mapping.fcvt_lu_d
        else Mapping.undef)
    else if funct7 w == 44
    then match_and_return_instr w Mapping.fsqrt_s
    else if funct7 w == 45
    then match_and_return_instr w Mapping.fsqrt_d
    else if funct7 w == 96
    then (if rs2 w == 0
        then match_and_return_instr w Mapping.fcvt_w_s
        else if rs2 w == 1
        then match_and_return_instr w Mapping.fcvt_wu_s
        else if rs2 w == 2
        then match_and_return_instr w Mapping.fcvt_l_s
        else if rs2 w == 3
        then match_and_return_instr w Mapping.fcvt_lu_s
        else Mapping.undef)
    else if funct7 w == 112
    then (if funct3 w == 0
        then match_and_return_instr w Mapping.fmv_x_w
        else if funct3 w == 1
        then match_and_return_instr w Mapping.fclass_s
        else Mapping.undef)
    else if funct7 w == 113
    then (if funct3 w == 0
        then match_and_return_instr w Mapping.fmv_x_d
        else if funct3 w == 1
        then match_and_return_instr w Mapping.fclass_d
        else Mapping.undef)
    else if funct7 w == 120
    then match_and_return_instr w Mapping.fmv_w_x
    else if funct7 w == 121
    then match_and_return_instr w Mapping.fmv_d_x
    else Mapping.undef

-- `OP_FLW`.
unfoldable pub decode_float_load : ℕ → Mapping
decode_float_load w =
    if funct3 w == 2
    then match_and_return_instr w Mapping.flw
    else if funct3 w == 3
    then match_and_return_instr w Mapping.fld
    else Mapping.undef

-- `OP_FSW`.
unfoldable pub decode_float_store : ℕ → Mapping
decode_float_store w =
    if funct3 w == 2
    then match_and_return_instr w Mapping.fsw
    else if funct3 w == 3
    then match_and_return_instr w Mapping.fsd
    else Mapping.undef

-- `OP_FMSUB_S`.
unfoldable pub decode_fmsub : ℕ → Mapping
decode_fmsub w =
    if funct2 w == 0
    then match_and_return_instr w Mapping.fmsub_s
    else if funct2 w == 1
    then match_and_return_instr w Mapping.fmsub_d
    else Mapping.undef

-- `OP_FNMSUB_S`.
unfoldable pub decode_fnmsub : ℕ → Mapping
decode_fnmsub w =
    if funct2 w == 0
    then match_and_return_instr w Mapping.fnmsub_s
    else if funct2 w == 1
    then match_and_return_instr w Mapping.fnmsub_d
    else Mapping.undef

-- `OP_FNMADD_S`.
unfoldable pub decode_fnmadd : ℕ → Mapping
decode_fnmadd w =
    if funct2 w == 0
    then match_and_return_instr w Mapping.fnmadd_s
    else if funct2 w == 1
    then match_and_return_instr w Mapping.fnmadd_d
    else Mapping.undef
