-- ===== src/Rv32/Decode/Covered.antt =====
-- The fields of a word that fits a pattern, where its mask covers them
-- (vp/src/core/common/instr.{h,cpp}).
use coverage_vp.Base.{arith, ℕ, ◌≡◌, refl, bit_and, subst, ap, ◌/◌, ◌^◌}
use coverage_vp.Base.Bits.{bit_and_assoc}
use coverage_vp.Base.Ranges.{bit_and_range}
use coverage_vp.Rv32.Instr.{
  opcode, funct2, funct3, funct5, funct6, funct7, funct12, rs2, shift_right,
}
use coverage_vp.Rv32.Instr.Pattern.{Mapping}
use coverage_vp.Rv32.Decode.Match.{Architecture}
use coverage_vp.Rv32.Decode.Fits.{Fits, pattern_on}

module _ {arch : Architecture} {w : ℕ} {m : Mapping} (e : Fits arch w m) where
  range_fits :
      (r : ℕ)
      → bit_and (pattern_on arch m).mask r ≡ r
      → bit_and w r ≡ bit_and (pattern_on arch m).encoding r
  range_fits r h =
      subst (λ k. bit_and w k ≡ bit_and (pattern_on arch m).encoding r) h
        (rw (← bit_and_assoc w (pattern_on arch m).mask r, e.bits) refl)

  pub opcode_of :
      bit_and (pattern_on arch m).mask 0x7f ≡ 0x7f
      → opcode w ≡ bit_and (pattern_on arch m).encoding 0x7f
  unfolding opcode
  opcode_of h = range_fits 0x7f h

  pub funct2_of :
      bit_and (pattern_on arch m).mask 0x06000000 ≡ 0x06000000
      → funct2 w ≡ shift_right (bit_and (pattern_on arch m).encoding 0x06000000) 25
  unfolding funct2
  funct2_of h = ap (λ r. shift_right r 25) (range_fits 0x06000000 h)

  pub funct3_of :
      bit_and (pattern_on arch m).mask 0x7000 ≡ 0x7000
      → funct3 w ≡ shift_right (bit_and (pattern_on arch m).encoding 0x7000) 12
  unfolding funct3
  funct3_of h = ap (λ r. shift_right r 12) (range_fits 0x7000 h)

  pub funct12_of :
      bit_and (pattern_on arch m).mask 0xfff00000 ≡ 0xfff00000
      → funct12 w ≡ bit_and (pattern_on arch m).encoding 0xfff00000 / 2 ^ 20
  unfolding funct12
  funct12_of h = ap (λ r. r / 2 ^ 20) (range_fits 0xfff00000 h)

  pub funct7_of :
      bit_and (pattern_on arch m).mask 0xfe000000 ≡ 0xfe000000
      → funct7 w ≡ bit_and (pattern_on arch m).encoding 0xfe000000 / 2 ^ 25
  unfolding funct7
  funct7_of h = ap (λ r. r / 2 ^ 25) (range_fits 0xfe000000 h)

  pub funct6_of :
      bit_and (pattern_on arch m).mask 0xfc000000 ≡ 0xfc000000
      → funct6 w ≡ bit_and (pattern_on arch m).encoding 0xfc000000 / 2 ^ 26
  unfolding funct6
  funct6_of h = ap (λ r. r / 2 ^ 26) (range_fits 0xfc000000 h)

  pub funct5_of :
      bit_and (pattern_on arch m).mask 0xf8000000 ≡ 0xf8000000
      → funct5 w ≡ bit_and (pattern_on arch m).encoding 0xf8000000 / 2 ^ 27
  unfolding funct5
  funct5_of h = ap (λ r. r / 2 ^ 27) (range_fits 0xf8000000 h)

  pub rs2_of :
      bit_and (pattern_on arch m).mask 0x01f00000 ≡ 0x01f00000
      → rs2 w ≡ shift_right (bit_and (pattern_on arch m).encoding 0x01f00000) 20
  unfolding rs2
  rs2_of h = ap (λ r. shift_right r 20) (range_fits 0x01f00000 h)

-- The upper bits of a twelve bit code are the seven bit one.
pub funct12-funct7 : (w : ℕ) → funct12 w / 2 ^ 5 ≡ funct7 w
unfolding funct12 funct7
funct12-funct7 w = omega (arith, bit_and_range 20 12 w, bit_and_range 25 7 w)
