-- ===== src/Examples/Decoder.antt =====
-- The decoder of vp/src/core/common/instr.cpp at concrete words.
use coverage_vp.Base.{◌+◌, ◌*◌, ◌^◌, ◌-◌, ◌≡◌, ◌≢◌, ◌↔◌, refl}
use coverage_vp.Rv32.Word.{field}
use coverage_vp.Rv32.Instr.{i_imm, s_imm, b_imm, u_imm, j_imm, opcode, funct3, funct12}
use coverage_vp.Rv32.Instr.Pattern.{Mapping, pattern}
use coverage_vp.Rv32.Instr.Immediate.{sext, immediates}
use coverage_vp.Rv32.Decode.Match.{Architecture, match_and_return_instr, match_and_return_instr2}
use coverage_vp.Rv32.Decode.System.{decode_system}
use coverage_vp.Rv32.Decode.Normal.{decode_normal}
use coverage_vp.Rv32.Decode.Fits.{Fits}
use coverage_vp.Rv32.Decode.Decoded.{decode_normal_iff}

decodes_mret : decode_normal Architecture.rv32 0x30200073 ≡ Mapping.mret
unfolding decode_normal decode_system match_and_return_instr match_and_return_instr2 pattern opcode
    funct3 funct12
decodes_mret = refl

slli-ne-undef : Mapping.slli ≢ Mapping.undef
slli-ne-undef e = cc

decode_normal_iff_example :
    (decode_normal Architecture.rv32 0x00109093 ≡ Mapping.slli)
    ↔ Fits Architecture.rv32 0x00109093 Mapping.slli
decode_normal_iff_example =
    decode_normal_iff Architecture.rv32 0x00109093 Mapping.slli slli-ne-undef

-- `bne a0, a1, -8`.
immediates_example :
    (i_imm 0xfeb51ce3 ≡ sext 12 (field 0xfeb51ce3 20 12))
    × (s_imm 0xfeb51ce3 ≡ sext 12 (field 0xfeb51ce3 25 7 * 2 ^ 5 + field 0xfeb51ce3 7 5))
    × (b_imm 0xfeb51ce3 ≡ 2 ^ 32 - 8)
    × (u_imm 0xfeb51ce3 ≡ field 0xfeb51ce3 12 20 * 2 ^ 12)
    × (j_imm 0xfeb51ce3
        ≡ sext 21 (
            field 0xfeb51ce3 31 1 * 2 ^ 20
            + field 0xfeb51ce3 12 8 * 2 ^ 12
            + field 0xfeb51ce3 20 1 * 2 ^ 11
            + field 0xfeb51ce3 21 10 * 2))
immediates_example = immediates 0xfeb51ce3
