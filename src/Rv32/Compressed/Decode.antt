-- ===== src/Rv32/Compressed/Decode.antt =====
-- `decode_compressed` of vp/src/core/common/instr.cpp: the three quadrants of compressed instructions.
use coverage_vp.Base.{ℕ, Option, none, some, ◌==◌, if◌then◌else◌}
use coverage_vp.Rv32.Word.{nonzero}
use coverage_vp.Rv32.Instr.{quadrant}
use coverage_vp.Rv32.Decode.Match.{Architecture, is_rv32}
use coverage_vp.Rv32.Compressed.Fields.{c_format, c_opcode, c_b12, c_rd, c_rs2, c_f2_high, c_f2_low}

-- `Compressed::Opcode`.
pub data Opcode : Type 0 where
  c_illegal c_reserved c_addi4spn c_fld c_lq c_lw c_flw c_ld c_fsd c_sq c_sw c_fsw c_sd c_nop c_addi
        c_jal c_addiw c_li c_addi16sp c_lui c_srli c_srai c_andi c_sub c_xor c_or c_and c_subw
        c_addw c_j c_beqz c_bnez c_slli c_fldsp c_lqsp c_lwsp c_flwsp c_ldsp c_jr c_mv c_ebreak
        c_jalr c_add c_fsdsp c_sqsp c_swsp c_fswsp c_sdsp :
      Opcode

-- `case 0`.
unfoldable pub quadrant_zero : Architecture → ℕ → Opcode
quadrant_zero arch w =
    if c_opcode w == 0
    then (if c_format w == 0 then c_illegal else c_addi4spn)
    else if c_opcode w == 1
    then c_fld
    else if c_opcode w == 2
    then c_lw
    else if c_opcode w == 3
    then (if is_rv32 arch then c_flw else c_ld)
    else if c_opcode w == 4
    then c_reserved
    else if c_opcode w == 5
    then c_fsd
    else if c_opcode w == 6
    then c_sw
    else if c_opcode w == 7
    then (if is_rv32 arch then c_fsw else c_sd)
    else c_illegal

-- `case 1`, `case 0b100`: the arithmetic on the small registers.
unfoldable pub small_arithmetic : ℕ → Opcode
small_arithmetic w =
    if c_f2_high w == 0
    then c_srli
    else if c_f2_high w == 1
    then c_srai
    else if c_f2_high w == 2
    then c_andi
    else if c_f2_high w == 3
    then (if nonzero (c_b12 w)
        then (if c_f2_low w == 0 then c_subw else if c_f2_low w == 1 then c_addw else c_reserved)
        else if c_f2_low w == 0
        then c_sub
        else if c_f2_low w == 1
        then c_xor
        else if c_f2_low w == 2
        then c_or
        else if c_f2_low w == 3
        then c_and
        else c_illegal)
    else c_illegal

-- `case 1`.
unfoldable pub quadrant_one : Architecture → ℕ → Opcode
quadrant_one arch w =
    if c_opcode w == 0
    then (if c_format w == 1 then c_nop else c_addi)
    else if c_opcode w == 1
    then (if is_rv32 arch then c_jal else c_addiw)
    else if c_opcode w == 2
    then c_li
    else if c_opcode w == 3
    then (if c_rd w == 2 then c_addi16sp else c_lui)
    else if c_opcode w == 4
    then small_arithmetic w
    else if c_opcode w == 5
    then c_j
    else if c_opcode w == 6
    then c_beqz
    else if c_opcode w == 7
    then c_bnez
    else c_illegal

-- `case 2`.
unfoldable pub quadrant_two : Architecture → ℕ → Opcode
quadrant_two arch w =
    if c_opcode w == 0
    then c_slli
    else if c_opcode w == 1
    then c_fldsp
    else if c_opcode w == 2
    then c_lwsp
    else if c_opcode w == 3
    then (if is_rv32 arch then c_flwsp else c_ldsp)
    else if c_opcode w == 4
    then (if nonzero (c_b12 w)
        then (if nonzero (c_rd w) then (if nonzero (c_rs2 w) then c_add else c_jalr) else c_ebreak)
        else if nonzero (c_rs2 w)
        then c_mv
        else c_jr)
    else if c_opcode w == 5
    then c_fsdsp
    else if c_opcode w == 6
    then c_swsp
    else if c_opcode w == 7
    then (if is_rv32 arch then c_fswsp else c_sdsp)
    else c_illegal

-- `none` is the exception on an instruction that is not compressed.
unfoldable pub decode_compressed : Architecture → ℕ → Option Opcode
decode_compressed arch w =
    if quadrant w == 0
    then some (quadrant_zero arch w)
    else if quadrant w == 1
    then some (quadrant_one arch w)
    else if quadrant w == 2
    then some (quadrant_two arch w)
    else if quadrant w == 3
    then none
    else some c_illegal
