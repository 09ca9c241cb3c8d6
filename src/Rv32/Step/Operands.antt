-- ===== src/Rv32/Step/Operands.antt =====
-- The operands that `ISS::exec_step` of vp/src/core/rv32/iss.cpp inspects for the line coverage.
use coverage_vp.Base.{ℕ, Bool, false, ◌||◌, List, [], ◌∷◌, Option, none, some}
use coverage_vp.Clover.Expr.{Builder}
use coverage_vp.Clover.Value.{is_symbolic}
use coverage_vp.Rv32.Instr.{rs1, rs2}
use coverage_vp.Rv32.Instr.Pattern.{Mapping}
use coverage_vp.Rv32.Instr.Format.{
  Format, r_type, i_type, s_type, b_type, u_type, j_type, r4_type, unknown_type, get_type,
}
use coverage_vp.Rv32.RegFile.{RegFile}

-- `rops`; `none` is the string thrown for the fused instructions.
unfoldable pub operands : Format → ℕ → Option (List ℕ)
operands b_type w = some (rs1 w ∷ rs2 w ∷ [])
operands s_type w = some (rs1 w ∷ rs2 w ∷ [])
operands r_type w = some (rs1 w ∷ rs2 w ∷ [])
operands i_type w = some (rs1 w ∷ [])
operands u_type w = some []
operands j_type w = some []
operands unknown_type w = some []
operands r4_type w = none

-- `tainted_operand`, `symbolic_operand` and `initial_concretization`.
pub record Flags : Type 0 where
  pub tainted_operand : Bool
  pub symbolic_operand : Bool
  pub initial_concretization : Bool

abbrev pub no_flags : Flags
no_flags = record {
  tainted_operand = false;
  symbolic_operand = false;
  initial_concretization = false;
}

module _ (b : Builder) where
  -- The loop over the operands.
  unfoldable pub inspect : RegFile b → List ℕ → Flags → Flags
  inspect regs [] f = f
  inspect regs (r ∷ rops) f = inspect regs rops (record f {
    tainted_operand = f.tainted_operand || (regs r).tainted;
    symbolic_operand = f.symbolic_operand || is_symbolic b (regs r);
  })

  -- The flags before the instruction; without coverage they stay false.
  unfoldable pub operand_flags : {C : Type 0} → Option C → Mapping → ℕ → RegFile b → Option Flags
  operand_flags none op w regs = some no_flags
  operand_flags (some c) op w regs = elim (operands (get_type op) w) [
    | none ↦ none
    | some rops ↦ some (inspect regs rops no_flags)
  ]
