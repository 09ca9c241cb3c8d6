-- ===== src/Rv32/Compressed/Words.antt =====
-- The words of `InstructionFactory` (vp/src/core/common/instr.cpp) fit the patterns of the instructions
-- that they are made for.
use coverage_vp.Base.{ℕ, ◌*◌, ◌/◌, ◌^◌, ◌≡◌, refl, bit_and}
use coverage_vp.Base.Fields.{bit_and-bit_or, cleared, cleared_unshifted, shift_right-bit_and}
use coverage_vp.Rv32.Instr.Pattern.{Mapping, pattern}
use coverage_vp.Rv32.Decode.Match.{Architecture}
use coverage_vp.Rv32.Decode.Fits.{Fits, pattern_on}
use coverage_vp.Rv32.Compressed.Offset.{◌bor◌}
use coverage_vp.Rv32.Compressed.Factory.{
  r_format, i_format, s_format, shift_format, b_format, make_lui, make_jal,
}

-- A field that the mask leaves out.
abbrev Beside : ℕ → ℕ → ℕ → Type 0
Beside k j m = bit_and (k * 2 ^ j) m ≡ 0

module _ (arch : Architecture) (m : Mapping) where
  abbrev pub the_mask : ℕ
  the_mask = (pattern_on arch m).mask

  pub r_format-Fits :
      (op f3 f7 rd rs1 rs2 : ℕ)
      → Beside 0x1f 7 the_mask
      → Beside 0x1f 15 the_mask
      → Beside 0x1f 20 the_mask
      → (0
          bor 0
          bor 0
          bor bit_and op the_mask
          bor bit_and (f3 * 2 ^ 12) the_mask
          bor bit_and (f7 * 2 ^ 25) the_mask)
        ≡ (pattern_on arch m).encoding
      → Fits arch (r_format op f3 f7 rd rs1 rs2) m
  r_format-Fits op f3 f7 rd rs1 rs2 h1 h2 h3 e = record {
    bits =
        simp
          (
            bit_and-bit_or,
            cleared rd 0x1f 7 the_mask h1,
            cleared rs1 0x1f 15 the_mask h2,
            cleared rs2 0x1f 20 the_mask h3,
          )
          e;
  }

  pub i_format-Fits :
      (op f3 rd rs1 imm : ℕ)
      → Beside 4095 20 the_mask
      → Beside 0x1f 7 the_mask
      → Beside 0x1f 15 the_mask
      → (0 bor 0 bor 0 bor bit_and op the_mask bor bit_and (f3 * 2 ^ 12) the_mask)
        ≡ (pattern_on arch m).encoding
      → Fits arch (i_format op f3 rd rs1 imm) m
  i_format-Fits op f3 rd rs1 imm h1 h2 h3 e = record {
    bits =
        simp
          (
            bit_and-bit_or,
            cleared imm 4095 20 the_mask h1,
            cleared rd 0x1f 7 the_mask h2,
            cleared rs1 0x1f 15 the_mask h3,
          )
          e;
  }

  pub s_format-Fits :
      (op f3 rs1 rs2 imm : ℕ)
      → Beside 0b11111 7 the_mask
      → Beside (0b1111111 * 2 ^ 5) 20 the_mask
      → Beside 0x1f 15 the_mask
      → Beside 0x1f 20 the_mask
      → (0 bor 0 bor 0 bor 0 bor bit_and op the_mask bor bit_and (f3 * 2 ^ 12) the_mask)
        ≡ (pattern_on arch m).encoding
      → Fits arch (s_format op f3 rs1 rs2 imm) m
  s_format-Fits op f3 rs1 rs2 imm h1 h2 h3 h4 e = record {
    bits =
        simp
          (
            bit_and-bit_or,
            cleared imm 0b11111 7 the_mask h1,
            cleared imm (0b1111111 * 2 ^ 5) 20 the_mask h2,
            cleared rs1 0x1f 15 the_mask h3,
            cleared rs2 0x1f 20 the_mask h4,
          )
          e;
  }

  -- The amount of a shift has as many bits as the mask leaves.
  pub shift_format-Fits :
      (f3 f7 rd rs1 shamt width : ℕ)
      → bit_and shamt 63 ≡ bit_and shamt width
      → Beside 0x1f 7 the_mask
      → Beside 0x1f 15 the_mask
      → Beside width 20 the_mask
      → (0
          bor 0
          bor 0
          bor bit_and 19 the_mask
          bor bit_and (f3 * 2 ^ 12) the_mask
          bor bit_and (f7 * 2 ^ 25) the_mask)
        ≡ (pattern_on arch m).encoding
      → Fits arch (shift_format f3 f7 rd rs1 shamt) m
  shift_format-Fits f3 f7 rd rs1 shamt width short h1 h2 h3 e = record {
    bits =
        simp
          (
            bit_and-bit_or,
            short,
            cleared rd 0x1f 7 the_mask h1,
            cleared rs1 0x1f 15 the_mask h2,
            cleared shamt width 20 the_mask h3,
          )
          e;
  }

  pub b_format-Fits :
      (f3 rs1 rs2 imm : ℕ)
      → Beside 0b11110 7 the_mask
      → bit_and (2 ^ 11 / 2 ^ 4) the_mask ≡ 0
      → Beside (0b111111 * 2 ^ 5) 20 the_mask
      → Beside (2 ^ 12) 19 the_mask
      → Beside 0x1f 15 the_mask
      → Beside 0x1f 20 the_mask
      → (0
          bor 0
          bor (0 bor 0)
          bor 0
          bor 0
          bor bit_and 99 the_mask
          bor bit_and (f3 * 2 ^ 12) the_mask)
        ≡ (pattern_on arch m).encoding
      → Fits arch (b_format f3 rs1 rs2 imm) m
  b_format-Fits f3 rs1 rs2 imm h1 h2 h3 h4 h5 h6 e = record {
    bits =
        simp
          (
            bit_and-bit_or,
            shift_right-bit_and 4 imm (2 ^ 11),
            cleared imm 0b11110 7 the_mask h1,
            cleared_unshifted (imm / 2 ^ 4) (2 ^ 11 / 2 ^ 4) the_mask h2,
            cleared imm (0b111111 * 2 ^ 5) 20 the_mask h3,
            cleared imm (2 ^ 12) 19 the_mask h4,
            cleared rs1 0x1f 15 the_mask h5,
            cleared rs2 0x1f 20 the_mask h6,
          )
          e;
  }

pub make_lui-Fits : (arch : Architecture) (rd imm : ℕ) → Fits arch (make_lui rd imm) Mapping.lui
unfolding make_lui pattern_on pattern
make_lui-Fits arch rd imm = record {
  bits = simp (
    bit_and-bit_or,
    cleared_unshifted imm (1048575 * 2 ^ 12) 0x7f refl,
    cleared rd 0x1f 7 0x7f refl,
  );
}

pub make_jal-Fits : (arch : Architecture) (rd imm : ℕ) → Fits arch (make_jal rd imm) Mapping.jal
unfolding make_jal pattern_on pattern
make_jal-Fits arch rd imm = record {
  bits = simp (
    bit_and-bit_or,
    cleared rd 0x1f 7 0x7f refl,
    cleared_unshifted imm (0b11111111 * 2 ^ 12) 0x7f refl,
    cleared imm (2 ^ 11) 9 0x7f refl,
    cleared imm 0b11111111110 20 0x7f refl,
    cleared imm (2 ^ 20) 11 0x7f refl,
  );
}
