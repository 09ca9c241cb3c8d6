-- ===== src/Rv32/Decode/Cases.antt =====
-- The words of the shifts and of SFENCE_VMA, which are decoded by cases (vp/src/core/common/instr.cpp).
use coverage_vp.Base.{arith, ℕ, ◌≡◌, refl, ◌/◌, ◌^◌}
use coverage_vp.Rv32.Instr.{funct12}
use coverage_vp.Rv32.Instr.Pattern.{Mapping, pattern}
use coverage_vp.Rv32.Decode.Match.{Architecture, match_and_return_instr, match_and_return_instr2}
use coverage_vp.Rv32.Decode.Integer.{decode_imm}
use coverage_vp.Rv32.Decode.System.{decode_system}
use coverage_vp.Rv32.Decode.Normal.{decode_normal}
use coverage_vp.Rv32.Decode.Fits.{Fits, pattern_on}
use coverage_vp.Rv32.Decode.Covered.{opcode_of, funct3_of, funct7_of, funct6_of, funct12-funct7}

pub slli_complete :
    (arch : Architecture) (w : ℕ) → Fits arch w Mapping.slli → decode_normal arch w ≡ Mapping.slli
unfolding decode_normal pattern_on pattern match_and_return_instr match_and_return_instr2 decode_imm
slli_complete Architecture.rv32 w e = rw (opcode_of e refl, funct3_of e refl, e.bits) refl
slli_complete Architecture.rv64 w e = rw (opcode_of e refl, funct3_of e refl, e.bits) refl
slli_complete Architecture.rv128 w e = rw (opcode_of e refl, funct3_of e refl, e.bits) refl

pub srli_complete :
    (arch : Architecture) (w : ℕ) → Fits arch w Mapping.srli → decode_normal arch w ≡ Mapping.srli
unfolding decode_normal pattern_on pattern match_and_return_instr match_and_return_instr2 decode_imm
srli_complete Architecture.rv32 w e =
    rw (opcode_of e refl, funct3_of e refl, funct6_of e refl, e.bits) refl
srli_complete Architecture.rv64 w e =
    rw (opcode_of e refl, funct3_of e refl, funct6_of e refl, e.bits) refl
srli_complete Architecture.rv128 w e =
    rw (opcode_of e refl, funct3_of e refl, funct6_of e refl, e.bits) refl

pub srai_complete :
    (arch : Architecture) (w : ℕ) → Fits arch w Mapping.srai → decode_normal arch w ≡ Mapping.srai
unfolding decode_normal pattern_on pattern match_and_return_instr match_and_return_instr2 decode_imm
srai_complete Architecture.rv32 w e =
    rw (opcode_of e refl, funct3_of e refl, funct6_of e refl, e.bits) refl
srai_complete Architecture.rv64 w e =
    rw (opcode_of e refl, funct3_of e refl, funct6_of e refl, e.bits) refl
srai_complete Architecture.rv128 w e =
    rw (opcode_of e refl, funct3_of e refl, funct6_of e refl, e.bits) refl

-- The case that is left where none of the codes is met.
pub sfence_vma_complete :
    (arch : Architecture) (w : ℕ)
    → Fits arch w Mapping.sfence_vma
    → decode_normal arch w ≡ Mapping.sfence_vma
unfolding decode_normal pattern_on pattern match_and_return_instr match_and_return_instr2
    decode_system
sfence_vma_complete arch w e =
    let high : funct12 w / 2 ^ 5 ≡ 9 = rw (funct12-funct7 w) (funct7_of e refl) in
    rw (opcode_of e refl, funct3_of e refl, e.bits) (ground arith)
