-- ===== src/Rv32/Exec/Alu.antt =====
-- `ISS::exec_step` of vp/src/core/rv32/iss.cpp: the instructions that compute a register from registers
-- and immediates.
use coverage_vp.Base.{ℕ, Option, none, some}
use coverage_vp.Clover.Expr.{Builder, BinOp}
use coverage_vp.Clover.Value.{ConcolicValue, IntValue, bvc, sext, binary_operator}
use coverage_vp.Rv32.Instr.{i_imm, u_imm, shamt, rd, rs1, rs2}
use coverage_vp.Rv32.Instr.Pattern.{Mapping}
use coverage_vp.Rv32.RegFile.{RegFile, write, shift_amount}

module _ (b : Builder) where
  -- `I_IMM`.
  abbrev pub i_operand : ℕ → ConcolicValue b
  i_operand w = sext b (bvc b none (IntValue.u32 (i_imm w))) 32

  -- `U_IMM`.
  abbrev pub u_operand : ℕ → ConcolicValue b
  u_operand w = bvc b none (IntValue.u32 (u_imm w))

  -- `SHAMT`.
  abbrev pub shamt_operand : ℕ → ConcolicValue b
  shamt_operand w = bvc b none (IntValue.u32 (shamt w))

  -- What the case of the instruction hands to `regs.write`; `none` for the instructions of other groups.
  unfoldable pub computed : Mapping → ℕ → ℕ → RegFile b → Option (ConcolicValue b)
  computed Mapping.addi w last_pc regs =
      some (binary_operator b BinOp.op_add (regs (rs1 w)) (i_operand w))
  computed Mapping.slti w last_pc regs =
      some (binary_operator b BinOp.op_slt (regs (rs1 w)) (i_operand w))
  computed Mapping.sltiu w last_pc regs =
      some (binary_operator b BinOp.op_ult (regs (rs1 w)) (i_operand w))
  computed Mapping.xori w last_pc regs =
      some (binary_operator b BinOp.op_xor (regs (rs1 w)) (i_operand w))
  computed Mapping.ori w last_pc regs =
      some (binary_operator b BinOp.op_or (regs (rs1 w)) (i_operand w))
  computed Mapping.andi w last_pc regs =
      some (binary_operator b BinOp.op_and (regs (rs1 w)) (i_operand w))
  computed Mapping.add w last_pc regs =
      some (binary_operator b BinOp.op_add (regs (rs1 w)) (regs (rs2 w)))
  computed Mapping.sub w last_pc regs =
      some (binary_operator b BinOp.op_sub (regs (rs1 w)) (regs (rs2 w)))
  computed Mapping.sll w last_pc regs =
      some (binary_operator b BinOp.op_shl (regs (rs1 w)) (shift_amount b regs (rs2 w)))
  computed Mapping.slt w last_pc regs =
      some (binary_operator b BinOp.op_slt (regs (rs1 w)) (regs (rs2 w)))
  computed Mapping.sltu w last_pc regs =
      some (binary_operator b BinOp.op_ult (regs (rs1 w)) (regs (rs2 w)))
  computed Mapping.srl w last_pc regs =
      some (binary_operator b BinOp.op_l_shr (regs (rs1 w)) (shift_amount b regs (rs2 w)))
  computed Mapping.sra w last_pc regs =
      some (binary_operator b BinOp.op_a_shr (regs (rs1 w)) (shift_amount b regs (rs2 w)))
  computed Mapping.xor w last_pc regs =
      some (binary_operator b BinOp.op_xor (regs (rs1 w)) (regs (rs2 w)))
  computed Mapping.or w last_pc regs =
      some (binary_operator b BinOp.op_or (regs (rs1 w)) (regs (rs2 w)))
  computed Mapping.and w last_pc regs =
      some (binary_operator b BinOp.op_and (regs (rs1 w)) (regs (rs2 w)))
  computed Mapping.slli w last_pc regs =
      some (binary_operator b BinOp.op_shl (regs (rs1 w)) (shamt_operand w))
  computed Mapping.srli w last_pc regs =
      some (binary_operator b BinOp.op_l_shr (regs (rs1 w)) (shamt_operand w))
  computed Mapping.srai w last_pc regs =
      some (binary_operator b BinOp.op_a_shr (regs (rs1 w)) (shamt_operand w))
  computed Mapping.lui w last_pc regs = some (u_operand w)
  computed Mapping.auipc w last_pc regs =
      some (binary_operator b BinOp.op_add (bvc b none (IntValue.u32 last_pc)) (u_operand w))
  computed m w last_pc regs = none

  -- The whole case: `none` for an instruction of another group, and inside for a failed assertion.
  unfoldable pub exec_computed : Mapping → ℕ → ℕ → RegFile b → Option (Option (RegFile b))
  exec_computed m w last_pc regs = elim (computed m w last_pc regs) [
    | none ↦ none
    | some value ↦ some (write b regs (rd w) value)
  ]
