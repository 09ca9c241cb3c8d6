-- ===== src/Rv32/Instr/Registers.antt =====
-- The register numbers and the shift amount of vp/src/core/common/instr.h, as fields of the word.
use coverage_vp.Base.{ℕ, ◌%◌, ◌≡◌, arith}
use coverage_vp.Base.Ranges.{bit_and_range}
use coverage_vp.Rv32.Word.{field}
use coverage_vp.Rv32.Instr.{rd, rs1, rs2, shamt, funct7}

module _ (w : ℕ) where
  pub rd-field : rd w ≡ field w 7 5
  unfolding rd
  rd-field = ground (arith, bit_and_range 7 5 w)

  pub rs1-field : rs1 w ≡ field w 15 5
  unfolding rs1
  rs1-field = ground (arith, bit_and_range 15 5 w)

  pub rs2-field : rs2 w ≡ field w 20 5
  unfolding rs2
  rs2-field = ground (arith, bit_and_range 20 5 w)

  -- The sixth bit that the field of the shift amount has for RV64 is the lowest of `funct7`.
  pub shamt-field : funct7 w % 2 ≡ 0 → shamt w ≡ field w 20 5
  unfolding shamt funct7
  shamt-field h = ground (arith, bit_and_range 20 6 w, bit_and_range 25 7 w)
