-- ===== src/Rv32/Decode/Integer.antt =====
-- `Instruction::decode_normal` of vp/src/core/common/instr.cpp: the groups of RV32I and RV32M. The labels
-- of the cases are written as their numbers in `Opcode::Parts`.
use coverage_vp.Base.{ℕ, ◌==◌, if◌then◌else◌}
use coverage_vp.Rv32.Instr.{funct3, funct6, funct7}
use coverage_vp.Rv32.Instr.Pattern.{Mapping, slli_32_pattern, srli_32_pattern, srai_32_pattern}
use coverage_vp.Rv32.Decode.Match.{
  Architecture, is_rv32, match_and_return_instr, match_and_return_instr2,
}

-- `OP_BEQ`.
unfoldable pub decode_branch : ℕ → Mapping
decode_branch w =
    if funct3 w == 0
    then match_and_return_instr w Mapping.beq
    else if funct3 w == 1
    then match_and_return_instr w Mapping.bne
    else if funct3 w == 4
    then match_and_return_instr w Mapping.blt
    else if funct3 w == 5
    then match_and_return_instr w Mapping.bge
    else if funct3 w == 6
    then match_and_return_instr w Mapping.bltu
    else if funct3 w == 7
    then match_and_return_instr w Mapping.bgeu
    else Mapping.undef

-- `OP_LB`.
unfoldable pub decode_load : ℕ → Mapping
decode_load w =
    if funct3 w == 0
    then match_and_return_instr w Mapping.lb
    else if funct3 w == 1
    then match_and_return_instr w Mapping.lh
    else if funct3 w == 2
    then match_and_return_instr w Mapping.lw
    else if funct3 w == 4
    then match_and_return_instr w Mapping.lbu
    else if funct3 w == 5
    then match_and_return_instr w Mapping.lhu
    else if funct3 w == 6
    then match_and_return_instr w Mapping.lwu
    else if funct3 w == 3
    then match_and_return_instr w Mapping.ld
    else Mapping.undef

-- `OP_SB`.
unfoldable pub decode_store : ℕ → Mapping
decode_store w =
    if funct3 w == 0
    then match_and_return_instr w Mapping.sb
    else if funct3 w == 1
    then match_and_return_instr w Mapping.sh
    else if funct3 w == 2
    then match_and_return_instr w Mapping.sw
    else if funct3 w == 3
    then match_and_return_instr w Mapping.sd
    else Mapping.undef

-- `OP_ADDI`.
unfoldable pub decode_imm : Architecture → ℕ → Mapping
decode_imm arch w =
    if funct3 w == 0
    then match_and_return_instr w Mapping.addi
    else if funct3 w == 2
    then match_and_return_instr w Mapping.slti
    else if funct3 w == 3
    then match_and_return_instr w Mapping.sltiu
    else if funct3 w == 4
    then match_and_return_instr w Mapping.xori
    else if funct3 w == 6
    then match_and_return_instr w Mapping.ori
    else if funct3 w == 7
    then match_and_return_instr w Mapping.andi
    else if funct3 w == 1
    then (if is_rv32 arch
        then match_and_return_instr2 w slli_32_pattern Mapping.slli
        else match_and_return_instr w Mapping.slli)
    else if funct3 w == 5
    then (if funct6 w == 0
        then (if is_rv32 arch
            then match_and_return_instr2 w srli_32_pattern Mapping.srli
            else match_and_return_instr w Mapping.srli)
        else if funct6 w == 16
        then (if is_rv32 arch
            then match_and_return_instr2 w srai_32_pattern Mapping.srai
            else match_and_return_instr w Mapping.srai)
        else Mapping.undef)
    else Mapping.undef

-- `OP_ADD`.
unfoldable pub decode_arithmetic : ℕ → Mapping
decode_arithmetic w =
    if funct7 w == 0
    then (if funct3 w == 0
        then match_and_return_instr w Mapping.add
        else if funct3 w == 1
        then match_and_return_instr w Mapping.sll
        else if funct3 w == 2
        then match_and_return_instr w Mapping.slt
        else if funct3 w == 3
        then match_and_return_instr w Mapping.sltu
        else if funct3 w == 4
        then match_and_return_instr w Mapping.xor
        else if funct3 w == 5
        then match_and_return_instr w Mapping.srl
        else if funct3 w == 6
        then match_and_return_instr w Mapping.or
        else if funct3 w == 7
        then match_and_return_instr w Mapping.and
        else Mapping.undef)
    else if funct7 w == 32
    then (if funct3 w == 0
        then match_and_return_instr w Mapping.sub
        else if funct3 w == 5
        then match_and_return_instr w Mapping.sra
        else Mapping.undef)
    else if funct7 w == 1
    then (if funct3 w == 0
        then match_and_return_instr w Mapping.mul
        else if funct3 w == 1
        then match_and_return_instr w Mapping.mulh
        else if funct3 w == 2
        then match_and_return_instr w Mapping.mulhsu
        else if funct3 w == 3
        then match_and_return_instr w Mapping.mulhu
        else if funct3 w == 4
        then match_and_return_instr w Mapping.div
        else if funct3 w == 5
        then match_and_return_instr w Mapping.divu
        else if funct3 w == 6
        then match_and_return_instr w Mapping.rem
        else if funct3 w == 7
        then match_and_return_instr w Mapping.remu
        else Mapping.undef)
    else Mapping.undef

-- `OP_FENCE`.
unfoldable pub decode_fence : ℕ → Mapping
decode_fence w =
    if funct3 w == 0
    then match_and_return_instr w Mapping.fence
    else if funct3 w == 1
    then match_and_return_instr w Mapping.fence_i
    else Mapping.undef
