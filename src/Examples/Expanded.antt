-- ===== src/Examples/Expanded.antt =====
-- The expansion of compressed instructions of vp/src/core/common/instr.cpp at concrete words.
use coverage_vp.Base.{ℕ, ◌≡◌, ◌≢◌, refl, some}
use coverage_vp.Rv32.Instr.{quadrant, rd}
use coverage_vp.Rv32.Instr.Pattern.{Mapping}
use coverage_vp.Rv32.Decode.Match.{Architecture}
use coverage_vp.Rv32.Decode.Normal.{decode_normal}
use coverage_vp.Rv32.Compressed.Fields.{c_opcode, c_rd, c_rs2, c_b12}
use coverage_vp.Rv32.Compressed.Factory.{make_add}
use coverage_vp.Rv32.Compressed.Decode.{c_addiw, quadrant_one, quadrant_two, decode_compressed}
use coverage_vp.Rv32.Compressed.Expand.{expand_compressed, decode_and_expand_compressed}
use coverage_vp.Rv32.Compressed.Agreement.{
  decode_and_expand_compressed-decode_normal, c_addiw-decode_normal,
}

-- `c.add a0, a1` stands for `add a0, a0, a1`.
expands_add : decode_and_expand_compressed Architecture.rv32 0x952e ≡ some (Mapping.add, 0x00b50533)
unfolding decode_and_expand_compressed decode_compressed quadrant quadrant_two c_opcode c_b12 c_rd
    rd c_rs2 expand_compressed make_add
expands_add = refl

add-ne-undef : Mapping.add ≢ Mapping.undef
add-ne-undef e = cc

decode_and_expand_compressed-decode_normal_example :
    decode_normal Architecture.rv32 0x00b50533 ≡ Mapping.add
decode_and_expand_compressed-decode_normal_example =
    decode_and_expand_compressed-decode_normal 0x952e 0x00b50533 Mapping.add expands_add
      add-ne-undef

-- `c.addiw a0, 1`.
decodes_addiw : decode_compressed Architecture.rv64 0x2505 ≡ some c_addiw
unfolding decode_compressed quadrant quadrant_one c_opcode
decodes_addiw = refl

destination_a0 : c_rd 0x2505 ≢ 0
unfolding c_rd rd
destination_a0 e = cc

c_addiw-decode_normal_example :
    (v : ℕ) × (decode_and_expand_compressed Architecture.rv64 0x2505 ≡ some (Mapping.addiw, v))
    × (decode_normal Architecture.rv64 v ≡ Mapping.addi)
c_addiw-decode_normal_example =
    c_addiw-decode_normal Architecture.rv64 0x2505 decodes_addiw destination_a0
