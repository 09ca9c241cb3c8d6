-- ===== src/Rv32/Decode/System.antt =====
-- `Instruction::decode_normal` of vp/src/core/common/instr.cpp: the system and atomic instructions.
use coverage_vp.Base.{ℕ, ◌==◌, if◌then◌else◌}
use coverage_vp.Rv32.Instr.{funct3, funct5, funct12}
use coverage_vp.Rv32.Instr.Pattern.{Mapping}
use coverage_vp.Rv32.Decode.Match.{match_and_return_instr}

-- `OP_ECALL`.
unfoldable pub decode_system : ℕ → Mapping
decode_system w =
    if funct3 w == 0
    then (if funct12 w == 0
        then match_and_return_instr w Mapping.ecall
        else if funct12 w == 1
        then match_and_return_instr w Mapping.ebreak
        else if funct12 w == 2
        then match_and_return_instr w Mapping.uret
        else if funct12 w == 258
        then match_and_return_instr w Mapping.sret
        else if funct12 w == 770
        then match_and_return_instr w Mapping.mret
        else if funct12 w == 261
        then match_and_return_instr w Mapping.wfi
        else match_and_return_instr w Mapping.sfence_vma)
    else if funct3 w == 1
    then match_and_return_instr w Mapping.csrrw
    else if funct3 w == 2
    then match_and_return_instr w Mapping.csrrs
    else if funct3 w == 3
    then match_and_return_instr w Mapping.csrrc
    else if funct3 w == 5
    then match_and_return_instr w Mapping.csrrwi
    else if funct3 w == 6
    then match_and_return_instr w Mapping.csrrsi
    else if funct3 w == 7
    then match_and_return_instr w Mapping.csrrci
    else Mapping.undef

-- `OP_AMO`.
unfoldable pub decode_amo : ℕ → Mapping
decode_amo w =
    if funct5 w == 2
    then (if funct3 w == 3
        then match_and_return_instr w Mapping.lr_d
        else match_and_return_instr w Mapping.lr_w)
    else if funct5 w == 3
    then (if funct3 w == 3
        then match_and_return_instr w Mapping.sc_d
        else match_and_return_instr w Mapping.sc_w)
    else if funct5 w == 1
    then (if funct3 w == 3
        then match_and_return_instr w Mapping.amoswap_d
        else match_and_return_instr w Mapping.amoswap_w)
    else if funct5 w == 0
    then (if funct3 w == 3
        then match_and_return_instr w Mapping.amoadd_d
        else match_and_return_instr w Mapping.amoadd_w)
    else if funct5 w == 4
    then (if funct3 w == 3
        then match_and_return_instr w Mapping.amoxor_d
        else match_and_return_instr w Mapping.amoxor_w)
    else if funct5 w == 12
    then (if funct3 w == 3
        then match_and_return_instr w Mapping.amoand_d
        else match_and_return_instr w Mapping.amoand_w)
    else if funct5 w == 8
    then (if funct3 w == 3
        then match_and_return_instr w Mapping.amoor_d
        else match_and_return_instr w Mapping.amoor_w)
    else if funct5 w == 16
    then (if funct3 w == 3
        then match_and_return_instr w Mapping.amomin_d
        else match_and_return_instr w Mapping.amomin_w)
    else if funct5 w == 20
    then (if funct3 w == 3
        then match_and_return_instr w Mapping.amomax_d
        else match_and_return_instr w Mapping.amomax_w)
    else if funct5 w == 24
    then (if funct3 w == 3
        then match_and_return_instr w Mapping.amominu_d
        else match_and_return_instr w Mapping.amominu_w)
    else if funct5 w == 28
    then (if funct3 w == 3
        then match_and_return_instr w Mapping.amomaxu_d
        else match_and_return_instr w Mapping.amomaxu_w)
    else Mapping.undef
