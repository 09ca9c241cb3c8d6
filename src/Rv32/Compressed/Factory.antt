-- ===== src/Rv32/Compressed/Factory.antt =====
-- `InstructionFactory` of vp/src/core/common/instr.cpp: 32-bit instruction words from their operands.
use coverage_vp.Base.{ℕ, ◌*◌, ◌/◌, ◌^◌, bit_and}
use coverage_vp.Rv32.Compressed.Offset.{◌bor◌}

-- The expressions that the functions of one format share: opcode and function codes come last.
abbrev pub r_format : ℕ → ℕ → ℕ → ℕ → ℕ → ℕ → ℕ
r_format op f3 f7 rd rs1 rs2 =
    bit_and rd 0x1f * 2 ^ 7
    bor bit_and rs1 0x1f * 2 ^ 15
    bor bit_and rs2 0x1f * 2 ^ 20
    bor op
    bor f3 * 2 ^ 12
    bor f7 * 2 ^ 25

abbrev pub i_format : ℕ → ℕ → ℕ → ℕ → ℕ → ℕ
i_format op f3 rd rs1 imm =
    bit_and imm 4095 * 2 ^ 20
    bor bit_and rd 0x1f * 2 ^ 7
    bor bit_and rs1 0x1f * 2 ^ 15
    bor op
    bor f3 * 2 ^ 12

abbrev pub s_format : ℕ → ℕ → ℕ → ℕ → ℕ → ℕ
s_format op f3 rs1 rs2 imm =
    bit_and imm 0b11111 * 2 ^ 7
    bor bit_and imm (0b1111111 * 2 ^ 5) * 2 ^ 20
    bor bit_and rs1 0x1f * 2 ^ 15
    bor bit_and rs2 0x1f * 2 ^ 20
    bor op
    bor f3 * 2 ^ 12

abbrev pub shift_format : ℕ → ℕ → ℕ → ℕ → ℕ → ℕ
shift_format f3 f7 rd rs1 shamt =
    bit_and rd 0x1f * 2 ^ 7
    bor bit_and rs1 0x1f * 2 ^ 15
    bor bit_and shamt 63 * 2 ^ 20
    bor 19
    bor f3 * 2 ^ 12
    bor f7 * 2 ^ 25

abbrev pub b_format : ℕ → ℕ → ℕ → ℕ → ℕ
b_format f3 rs1 rs2 imm =
    (bit_and imm 0b11110 * 2 ^ 7
      bor bit_and imm (2 ^ 11) / 2 ^ 4
      bor (bit_and imm (0b111111 * 2 ^ 5) * 2 ^ 20 bor bit_and imm (2 ^ 12) * 2 ^ 19))
    bor bit_and rs1 0x1f * 2 ^ 15
    bor bit_and rs2 0x1f * 2 ^ 20
    bor 99
    bor f3 * 2 ^ 12

unfoldable pub make_add : ℕ → ℕ → ℕ → ℕ
make_add rd rs1 rs2 = r_format 51 0 0 rd rs1 rs2

unfoldable pub make_and : ℕ → ℕ → ℕ → ℕ
make_and rd rs1 rs2 = r_format 51 7 0 rd rs1 rs2

unfoldable pub make_or : ℕ → ℕ → ℕ → ℕ
make_or rd rs1 rs2 = r_format 51 6 0 rd rs1 rs2

unfoldable pub make_xor : ℕ → ℕ → ℕ → ℕ
make_xor rd rs1 rs2 = r_format 51 4 0 rd rs1 rs2

unfoldable pub make_sub : ℕ → ℕ → ℕ → ℕ
make_sub rd rs1 rs2 = r_format 51 0 32 rd rs1 rs2

unfoldable pub make_lw : ℕ → ℕ → ℕ → ℕ
make_lw rd rs1 imm = i_format 3 2 rd rs1 imm

unfoldable pub make_ld : ℕ → ℕ → ℕ → ℕ
make_ld rd rs1 imm = i_format 3 3 rd rs1 imm

unfoldable pub make_flw : ℕ → ℕ → ℕ → ℕ
make_flw rd rs1 imm = i_format 7 2 rd rs1 imm

unfoldable pub make_fld : ℕ → ℕ → ℕ → ℕ
make_fld rd rs1 imm = i_format 7 3 rd rs1 imm

unfoldable pub make_sw : ℕ → ℕ → ℕ → ℕ
make_sw rs1 rs2 imm = s_format 35 2 rs1 rs2 imm

unfoldable pub make_sd : ℕ → ℕ → ℕ → ℕ
make_sd rs1 rs2 imm = s_format 35 3 rs1 rs2 imm

unfoldable pub make_fsw : ℕ → ℕ → ℕ → ℕ
make_fsw rs1 rs2 imm = s_format 39 2 rs1 rs2 imm

unfoldable pub make_fsd : ℕ → ℕ → ℕ → ℕ
make_fsd rs1 rs2 imm = s_format 39 3 rs1 rs2 imm

unfoldable pub make_lui : ℕ → ℕ → ℕ
make_lui rd imm = bit_and imm (1048575 * 2 ^ 12) bor bit_and rd 0x1f * 2 ^ 7 bor 55

unfoldable pub make_addi : ℕ → ℕ → ℕ → ℕ
make_addi rd rs1 imm = i_format 19 0 rd rs1 imm

unfoldable pub make_andi : ℕ → ℕ → ℕ → ℕ
make_andi rd rs1 imm = i_format 19 7 rd rs1 imm

unfoldable pub make_srli : ℕ → ℕ → ℕ → ℕ
make_srli rd rs1 shamt = shift_format 5 0 rd rs1 shamt

unfoldable pub make_srai : ℕ → ℕ → ℕ → ℕ
make_srai rd rs1 shamt = shift_format 5 32 rd rs1 shamt

unfoldable pub make_slli : ℕ → ℕ → ℕ → ℕ
make_slli rd rs1 shamt = shift_format 1 0 rd rs1 shamt

unfoldable pub make_jal : ℕ → ℕ → ℕ
make_jal rd imm =
    111
    bor bit_and rd 0x1f * 2 ^ 7
    bor (bit_and imm (0b11111111 * 2 ^ 12)
        bor bit_and imm (2 ^ 11) * 2 ^ 9
        bor bit_and imm 0b11111111110 * 2 ^ 20
        bor bit_and imm (2 ^ 20) * 2 ^ 11)

unfoldable pub make_jalr : ℕ → ℕ → ℕ → ℕ
make_jalr rd rs1 imm = i_format 103 0 rd rs1 imm

unfoldable pub make_beq : ℕ → ℕ → ℕ → ℕ
make_beq rs1 rs2 imm = b_format 0 rs1 rs2 imm

unfoldable pub make_bne : ℕ → ℕ → ℕ → ℕ
make_bne rs1 rs2 imm = b_format 1 rs1 rs2 imm

unfoldable pub make_ebreak : ℕ
make_ebreak = 1048691

-- `ADDIW` has no function code and `ADDW` and `SUBW` write theirs into the opcode.
unfoldable pub make_addiw : ℕ → ℕ → ℕ → ℕ
make_addiw rd rs1 imm =
    bit_and imm 4095 * 2 ^ 20 bor bit_and rd 0x1f * 2 ^ 7 bor bit_and rs1 0x1f * 2 ^ 15 bor 0x1b

unfoldable pub make_addw : ℕ → ℕ → ℕ → ℕ
make_addw rd rs1 rs2 =
    bit_and rd 0x1f * 2 ^ 7 bor bit_and rs1 0x1f * 2 ^ 15 bor bit_and rs2 0x1f * 2 ^ 20 bor 0x3b

unfoldable pub make_subw : ℕ → ℕ → ℕ → ℕ
make_subw rd rs1 rs2 =
    bit_and rd 0x1f * 2 ^ 7
    bor bit_and rs1 0x1f * 2 ^ 15
    bor bit_and rs2 0x1f * 2 ^ 20
    bor 0x3b
    bor 0x40000000
