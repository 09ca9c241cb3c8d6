-- ===== src/Rv32/Decode/Wide.antt =====
-- `Instruction::decode_normal` of vp/src/core/common/instr.cpp: the groups that RV64 adds.
use coverage_vp.Base.{ℕ, ◌==◌, if◌then◌else◌}
use coverage_vp.Rv32.Instr.{funct3, funct7}
use coverage_vp.Rv32.Instr.Pattern.{Mapping}
use coverage_vp.Rv32.Decode.Match.{match_and_return_instr}

-- `OP_ADDIW`.
unfoldable pub decode_imm_w : ℕ → Mapping
decode_imm_w w =
    if funct3 w == 0
    then match_and_return_instr w Mapping.addiw
    else if funct3 w == 1
    then match_and_return_instr w Mapping.slliw
    else if funct3 w == 5
    then (if funct7 w == 0
        then match_and_return_instr w Mapping.srliw
        else if funct7 w == 32
        then match_and_return_instr w Mapping.sraiw
        else Mapping.undef)
    else Mapping.undef

-- `OP_ADDW`.
unfoldable pub decode_arithmetic_w : ℕ → Mapping
decode_arithmetic_w w =
    if funct7 w == 0
    then (if funct3 w == 0
        then match_and_return_instr w Mapping.addw
        else if funct3 w == 1
        then match_and_return_instr w Mapping.sllw
        else if funct3 w == 5
        then match_and_return_instr w Mapping.srlw
        else Mapping.undef)
    else if funct7 w == 32
    then (if funct3 w == 0
        then match_and_return_instr w Mapping.subw
        else if funct3 w == 5
        then match_and_return_instr w Mapping.sraw
        else Mapping.undef)
    else if funct7 w == 1
    then (if funct3 w == 0
        then match_and_return_instr w Mapping.mulw
        else if funct3 w == 4
        then match_and_return_instr w Mapping.divw
        else if funct3 w == 5
        then match_and_return_instr w Mapping.divuw
        else if funct3 w == 6
        then match_and_return_instr w Mapping.remw
        else if funct3 w == 7
        then match_and_return_instr w Mapping.remuw
        else Mapping.undef)
    else Mapping.undef
