-- ===== src/Rv32/Step/Execute.antt =====
-- `ISS::exec_step` of vp/src/core/rv32/iss.cpp: fetch, decode, and the switch over the instructions.
use coverage_vp.Base.{ℕ, ◌+◌, bit_and, Bool, true, false, if◌then◌else◌, Option, none, some}
use coverage_vp.Clover.Klee.{Klee}
use coverage_vp.Clover.Expr.{Builder}
use coverage_vp.Clover.Trace.{Query}
use coverage_vp.Rv32.Access.{pc_alignment_mask}
use coverage_vp.Rv32.Compressed.Expand.{decode_and_expand_compressed}
use coverage_vp.Rv32.Decode.Match.{Architecture}
use coverage_vp.Rv32.Decode.Normal.{decode_normal}
use coverage_vp.Rv32.Hart.{Outcome, ok, trap, thrown, has_c_extension}
use coverage_vp.Rv32.Instr.{is_compressed}
use coverage_vp.Rv32.Instr.Pattern.{Mapping}
use coverage_vp.Rv32.Word.{u32, nonzero, bit_not}
use coverage_vp.Rv32.Exec.Alu.{exec_computed}
use coverage_vp.Rv32.Exec.Control.{Validity, comparison, exec_branch, exec_jal, exec_jalr}
use coverage_vp.Rv32.Step.Machine.{MemoryIf, Machine, and_then, on_core, core_of, or_thrown}
use coverage_vp.Rv32.Step.Operands.{Flags, operand_flags}
use coverage_vp.Rv32.Step.Data.{exec_access}
use coverage_vp.Rv32.Step.System.{Environment, exec_system, illegal_instruction}

abbrev pub is_undef : Mapping → Bool
is_undef Mapping.undef = true
is_undef m = false

module _ (b : Builder) (k : Klee) (embed : b.Expr → k.Expr) (evaluate : Query k → Option Validity)
    (mem : MemoryIf b) (Coverage : Type 0) where
  abbrev Iss : Type 0
  Iss = Machine b k embed evaluate mem Coverage

  -- After an instruction that computes nothing further.
  abbrev pub done : {A : Type 0} → Outcome Iss A → Outcome Iss Bool
  done o = and_then o (λ _ s. ok false s)

  -- The jumps.
  unfoldable pub exec_jump : Mapping → ℕ → Iss → Option (Outcome Iss Bool)
  exec_jump Mapping.jal w s = some (
      done (
        on_core b k embed evaluate mem Coverage
          (exec_jal b k embed evaluate w s.hart.last_pc s.hart.csrs
            (core_of b k embed evaluate mem Coverage s))
          s))
  exec_jump Mapping.jalr w s = some (
      done (
        on_core b k embed evaluate mem Coverage
          (exec_jalr b k embed evaluate w s.hart.csrs (core_of b k embed evaluate mem Coverage s))
          s))
  exec_jump m w s = none

  unfoldable pub exec_compare : Mapping → ℕ → Iss → Option (Outcome Iss Bool)
  exec_compare m w s = elim (comparison m) [
    | none ↦ none
    | some o ↦ some (
        done (
          on_core b k embed evaluate mem Coverage
            (exec_branch b k embed evaluate o w s.hart.last_pc s.hart.csrs
              (core_of b k embed evaluate mem Coverage s))
            s))
  ]

  unfoldable pub exec_compute : Mapping → ℕ → Iss → Option (Outcome Iss Bool)
  exec_compute m w s = elim (exec_computed b m w s.hart.last_pc s.regs) [
    | none ↦ none
    | some o ↦ some (elim o [ none ↦ thrown | some regs ↦ ok false (record s { regs = regs }) ])
  ]

  -- The first group that has the instruction, or else `exec_system`.
  abbrev pub or_else : {A : Type 0} → Option A → A → A
  or_else none d = d
  or_else (some a) d = a

  module _ (env : Environment b k embed evaluate mem Coverage)
      (cover : ℕ → Flags → Coverage → Coverage) where
    unfoldable pub execute : Mapping → ℕ → Iss → Outcome Iss Bool
    execute m w s = or_else (exec_compute m w s) (
        or_else (exec_access b k embed evaluate mem Coverage m w s) (
          or_else (exec_compare m w s) (
            or_else (exec_jump m w s)
              (exec_system b k embed evaluate mem Coverage env m w s.hart.last_pc s))))

    -- The assertion on the program counter and the fetch; a trap leaves no instruction.
    unfoldable pub fetch : Iss → Outcome Iss ℕ
    fetch s =
        if nonzero (bit_and s.hart.pc (bit_not (pc_alignment_mask s.hart.csrs)))
        then thrown
        else elim (mem.load_instr s.hart.pc s.hart s.memory) [
          | ok w m ↦ ok w (record s { memory = m })
          | trap e m ↦ trap e (record s { memory = m; op = Mapping.undef; instr = 0 })
          | thrown ↦ thrown
        ]

    abbrev pub decoded : Mapping → ℕ → ℕ → Iss → Iss
    decoded m w size s = record s {
      op = m;
      instr = w;
      hart = record (s.hart) { pc = u32 (s.hart.pc + size) };
    }

    unfoldable pub decode : ℕ → Iss → Outcome Iss (Unit {0})
    decode w s =
        if is_compressed w
        then elim (decode_and_expand_compressed Architecture.rv32 w) [
          | none ↦ thrown
          | some (m, v) ↦
              if is_undef m
              then ok tt (decoded m v 2 s)
              else if has_c_extension s.hart.csrs
              then ok tt (decoded m v 2 s)
              else illegal_instruction b k embed evaluate mem Coverage env v (decoded m v 2 s)
        ]
        else ok tt (decoded (decode_normal Architecture.rv32 w) w 4 s)

    -- `coverage->cover`, which is called without the test for null.
    abbrev pub cover_line : Flags → Iss → Outcome Iss (Unit {0})
    cover_line f s = elim s.coverage [
      | none ↦ thrown
      | some c ↦ ok tt (record s { coverage = some (cover s.hart.last_pc f c) })
    ]

    unfoldable pub exec_step : Iss → Outcome Iss (Unit {0})
    exec_step s = and_then (fetch s) (λ w t. and_then (decode w t) (λ _ u.
        and_then (or_thrown (operand_flags b u.coverage u.op u.instr u.regs) u) (λ f v.
          and_then (execute v.op v.instr v)
            (λ concretized x. cover_line (record f { initial_concretization = concretized }) x))))
