-- ===== src/Rv32/Decode/Normal.antt =====
-- `Instruction::decode_normal` of vp/src/core/common/instr.cpp: the choice of the group.
use coverage_vp.Base.{ℕ, ◌==◌, if◌then◌else◌}
use coverage_vp.Rv32.Instr.{opcode}
use coverage_vp.Rv32.Instr.Pattern.{Mapping}
use coverage_vp.Rv32.Decode.Match.{Architecture, match_and_return_instr}
use coverage_vp.Rv32.Decode.Integer.{
  decode_branch, decode_load, decode_store, decode_imm, decode_arithmetic, decode_fence,
}
use coverage_vp.Rv32.Decode.Wide.{decode_imm_w, decode_arithmetic_w}
use coverage_vp.Rv32.Decode.System.{decode_system, decode_amo}
use coverage_vp.Rv32.Decode.Float.{
  decode_fmadd, decode_float, decode_float_load, decode_float_store, decode_fmsub, decode_fnmsub,
  decode_fnmadd,
}

unfoldable pub decode_normal : Architecture → ℕ → Mapping
decode_normal arch w =
    if opcode w == 55
    then match_and_return_instr w Mapping.lui
    else if opcode w == 23
    then match_and_return_instr w Mapping.auipc
    else if opcode w == 111
    then match_and_return_instr w Mapping.jal
    else if opcode w == 103
    then match_and_return_instr w Mapping.jalr
    else if opcode w == 99
    then decode_branch w
    else if opcode w == 3
    then decode_load w
    else if opcode w == 35
    then decode_store w
    else if opcode w == 19
    then decode_imm arch w
    else if opcode w == 27
    then decode_imm_w w
    else if opcode w == 51
    then decode_arithmetic w
    else if opcode w == 59
    then decode_arithmetic_w w
    else if opcode w == 15
    then decode_fence w
    else if opcode w == 115
    then decode_system w
    else if opcode w == 47
    then decode_amo w
    else if opcode w == 67
    then decode_fmadd w
    else if opcode w == 83
    then decode_float w
    else if opcode w == 7
    then decode_float_load w
    else if opcode w == 39
    then decode_float_store w
    else if opcode w == 71
    then decode_fmsub w
    else if opcode w == 75
    then decode_fnmsub w
    else if opcode w == 79
    then decode_fnmadd w
    else Mapping.undef
