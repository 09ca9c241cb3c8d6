-- ===== src/Rv32/Exec/Control.antt =====
-- `ISS::exec_step` of vp/src/core/rv32/iss.cpp and the functions of iss.h that it calls: the conditional
-- branches and the jumps. `Solver::eval` is that of vp/src/symex/clover/solver.cpp.
use coverage_vp.Base.{
  ℕ, ◌+◌, ◌-◌, ◌^◌, bit_and, Bool, true, false, not, ◌&&◌, if◌then◌else◌, Option, none, some,
}
use coverage_vp.Clover.Klee.{Klee}
use coverage_vp.Clover.Expr.{Builder, BinOp}
use coverage_vp.Clover.Value.{ConcolicValue, IntValue, bvc, binary_operator, get_value}
use coverage_vp.Clover.Trace.{Trace, Query, add, get_query}
use coverage_vp.Rv32.Word.{u32, nonzero}
use coverage_vp.Rv32.Csr.{CsrTable}
use coverage_vp.Rv32.Exc.{instr_addr_misaligned}
use coverage_vp.Rv32.Hart.{Outcome, ok, trap, thrown, raise_trap, has_c_extension}
use coverage_vp.Rv32.Instr.{b_imm, i_imm, j_imm, rd, rs1, rs2}
use coverage_vp.Rv32.Instr.Pattern.{Mapping}
use coverage_vp.Rv32.RegFile.{RegFile, write}

-- `klee::Solver::Validity`.
pub data Validity : Type 0 where
  valid refuted unknown : Validity

-- The comparison of a branch.
unfoldable pub comparison : Mapping → Option BinOp
comparison Mapping.beq = some BinOp.op_eq
comparison Mapping.bne = some BinOp.op_ne
comparison Mapping.blt = some BinOp.op_slt
comparison Mapping.bge = some BinOp.op_sge
comparison Mapping.bltu = some BinOp.op_ult
comparison Mapping.bgeu = some BinOp.op_uge
comparison m = none

-- klee's expressions are of one type; `embed` takes those of the builder for those of the solver.
-- `evaluate` is `klee::Solver::evaluate`, `none` where it fails.
module _ (b : Builder) (k : Klee) (embed : b.Expr → k.Expr)
    (evaluate : Query k → Option Validity) where
  -- The part of the simulator that these instructions change.
  pub record Core : Type 0 where
    pub pc : ℕ
    pub regs : RegFile b
    pub trace : Trace k

  -- `Solver::eval`; `none` where it throws.
  unfoldable pub solver_eval : Query k → Option Bool
  solver_eval q = elim (evaluate q) [
    | none ↦ none
    | some v ↦ elim v [ valid ↦ some true | refuted ↦ some false | unknown ↦ none ]
  ]

  -- `eval`.
  unfoldable pub eval : Core → b.Expr → Option Bool
  eval s bv = solver_eval (get_query k s.trace (embed bv))

  -- `track_and_trace_branch`.
  unfoldable pub track_and_trace_branch : Bool → ConcolicValue b → Core → Core
  track_and_trace_branch cond expr s = elim expr.symbolic [
    | none ↦ s
    | some e ↦ record s { trace = add k s.trace cond (embed e) }
  ]

  -- `trap_check_pc_alignment`.
  unfoldable pub trap_check_pc_alignment : CsrTable → Core → Outcome Core (Unit {0})
  trap_check_pc_alignment csrs s =
      if nonzero (bit_and s.pc 1)
      then thrown
      else if nonzero (bit_and s.pc 3) && not (has_c_extension csrs)
      then raise_trap instr_addr_misaligned s.pc s
      else ok tt s

  -- The cases of the branches, at their comparison.
  unfoldable pub exec_branch : BinOp → ℕ → ℕ → CsrTable → Core → Outcome Core (Unit {0})
  exec_branch o w last_pc csrs s =
      let res = binary_operator b o (s.regs (rs1 w)) (s.regs (rs2 w)) in
      elim (eval s res.concrete) [
        | none ↦ thrown
        | some cond ↦
            elim (if cond
              then trap_check_pc_alignment csrs (record s { pc = u32 (last_pc + b_imm w) })
              else ok tt s) [
                | ok _ u ↦ ok tt (track_and_trace_branch cond res u)
                | trap t u ↦ trap t u
                | thrown ↦ thrown
              ]
      ]

  -- The end of a jump: `regs.write(RD, link)`.
  abbrev pub link_to : ℕ → ℕ → Core → Outcome Core (Unit {0})
  link_to w link s = elim (write b s.regs (rd w) (bvc b none (IntValue.u32 link))) [
    | none ↦ thrown
    | some regs ↦ ok tt (record s { regs = regs })
  ]

  abbrev pub jump_to : ℕ → ℕ → CsrTable → Core → Outcome Core (Unit {0})
  jump_to w target csrs s = elim (trap_check_pc_alignment csrs (record s { pc = target })) [
    | ok _ u ↦ link_to w s.pc u
    | trap t u ↦ trap t u
    | thrown ↦ thrown
  ]

  -- The case of JAL.
  unfoldable pub exec_jal : ℕ → ℕ → CsrTable → Core → Outcome Core (Unit {0})
  exec_jal w last_pc csrs s = jump_to w (u32 (last_pc + j_imm w)) csrs s

  -- The case of JALR; `~1` clears the lowest bit.
  unfoldable pub exec_jalr : ℕ → CsrTable → Core → Outcome Core (Unit {0})
  exec_jalr w csrs s = elim (get_value b (s.regs (rs1 w))) [
    | none ↦ thrown
    | some base ↦ jump_to w (bit_and (u32 (base + i_imm w)) (2 ^ 32 - 2)) csrs s
  ]
