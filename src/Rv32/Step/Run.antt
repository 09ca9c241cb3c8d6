-- ===== src/Rv32/Step/Run.antt =====
-- `ISS::run_step`, `ISS::run` and `ISS::performance_and_sync_update` of vp/src/core/rv32/iss.cpp, with the
-- cycles that the constructor gives to each instruction.
use coverage_vp.Base.{
  ℕ, zero, suc, ◌+◌, ◌-◌, ◌%◌, ◌^◌, Bool, true, false, ◌&&◌, ◌==◌, if◌then◌else◌, Option, none,
  some,
}
use coverage_vp.Clover.Klee.{Klee}
use coverage_vp.Clover.Expr.{Builder}
use coverage_vp.Clover.Value.{IntValue, bvc, get_value}
use coverage_vp.Clover.Trace.{Query}
use coverage_vp.Rv32.Hart.{
  Hart, Outcome, ok, trap, thrown, CoreExecStatus, runnable, hit_breakpoint, terminated,
}
use coverage_vp.Rv32.Instr.Pattern.{Mapping}
use coverage_vp.Rv32.Trap.Target.{take_trap}
use coverage_vp.Rv32.Trap.Pending.{take_interrupt}
use coverage_vp.Rv32.Word.{is_set}
use coverage_vp.Rv32.Exec.Control.{Validity}
use coverage_vp.Rv32.Step.Machine.{MemoryIf, Machine, and_then}
use coverage_vp.Rv32.Step.Operands.{Flags}
use coverage_vp.Rv32.Step.Data.{write_regs}
use coverage_vp.Rv32.Step.System.{Environment, with_mip}
use coverage_vp.Rv32.Step.Execute.{exec_step}

-- `instr_cycles`, in units of `cycle_time`.
unfoldable pub instr_cycles : Mapping → ℕ
instr_cycles Mapping.lb = 4
instr_cycles Mapping.lbu = 4
instr_cycles Mapping.lh = 4
instr_cycles Mapping.lhu = 4
instr_cycles Mapping.lw = 4
instr_cycles Mapping.sb = 4
instr_cycles Mapping.sh = 4
instr_cycles Mapping.sw = 4
instr_cycles Mapping.mul = 8
instr_cycles Mapping.mulh = 8
instr_cycles Mapping.mulhu = 8
instr_cycles Mapping.mulhsu = 8
instr_cycles Mapping.div = 8
instr_cycles Mapping.divu = 8
instr_cycles Mapping.rem = 8
instr_cycles Mapping.remu = 8
instr_cycles m = 1

-- The counters of `performance_and_sync_update`; a reservation ends with its counter.
unfoldable pub count_instruction : Mapping → Hart → Hart
count_instruction op h = record h {
  total_num_instr = (h.total_num_instr + 1) % 2 ^ 64;
  csrs = record (h.csrs) {
    instret =
        if is_set h.csrs.mcountinhibit 2 then h.csrs.instret else (h.csrs.instret + 1) % 2 ^ 64;
  };
  lr_sc_counter = h.lr_sc_counter - 1;
  cycle_counter =
      if is_set h.csrs.mcountinhibit 0 then h.cycle_counter else h.cycle_counter + instr_cycles op;
}

abbrev pub is_runnable : CoreExecStatus → Bool
is_runnable runnable = true
is_runnable hit_breakpoint = false
is_runnable terminated = false

module _ (b : Builder) (k : Klee) (embed : b.Expr → k.Expr) (evaluate : Query k → Option Validity)
    (mem : MemoryIf b) (Coverage : Type 0) (env : Environment b k embed evaluate mem Coverage)
    (cover : ℕ → Flags → Coverage → Coverage) where
  abbrev Iss : Type 0
  Iss = Machine b k embed evaluate mem Coverage

  unfoldable pub performance_and_sync_update : Mapping → Iss → Iss
  performance_and_sync_update op s =
      let h = count_instruction op s.hart in
      let next = env.advance (instr_cycles op) (h.lr_sc_counter == 0) h s.memory in
      record s { hart = with_mip h (next.0); memory = next.1 }

  -- The try block and its handler.
  unfoldable pub exec_or_trap : Iss → Outcome Iss (Unit {0})
  exec_or_trap s = elim (exec_step b k embed evaluate mem Coverage env cover s) [
    | ok _ t ↦ elim (take_interrupt t.hart) [
      | none ↦ thrown
      | some h ↦ ok tt (record t { hart = h })
    ]
    | trap e t ↦ elim (take_trap e t.hart) [
      | none ↦ thrown
      | some (mode, h) ↦ ok tt (record t { hart = h })
    ]
    | thrown ↦ thrown
  ]

  -- What follows the instruction: the zero register is reset and the exit noticed.
  unfoldable pub finish_step : Iss → Outcome Iss (Unit {0})
  finish_step s =
      and_then (write_regs b k embed evaluate mem Coverage 0 (bvc b none (IntValue.u32 0)) s)
        (λ _ t.
          let u =
            if t.hart.shall_exit
            then record t { hart = record (t.hart) { status = terminated } }
            else t in
          ok tt (performance_and_sync_update u.op u))

  -- `last_pc = pc`.
  abbrev pub started : Iss → Iss
  started s = record s { hart = record (s.hart) { last_pc = s.hart.pc } }

  unfoldable pub run_step : Iss → Outcome Iss (Unit {0})
  run_step s = elim (get_value b (s.regs 0)) [
    | none ↦ thrown
    | some n ↦
        if n == 0
        then (if s.debug_mode && s.breakpoints s.hart.pc
            then ok tt (record s { hart = record (s.hart) { status = hit_breakpoint } })
            else and_then (exec_or_trap (started s)) (λ _ t. finish_step t))
        else thrown
  ]

  -- `quantum_keeper.sync()`.
  abbrev pub synced : Iss → Iss
  synced s =
      let next = env.sync s.hart s.memory in
      record s { hart = with_mip s.hart (next.0); memory = next.1 }

  -- `run`: the loop on fuel, where `none` is a run that goes on, and the synchronisation behind it.
  unfoldable pub run : ℕ → Iss → Option (Outcome Iss (Unit {0}))
  run zero s = none
  run (suc fuel) s = elim (run_step s) [
    | ok _ t ↦ elim (is_runnable t.hart.status) [
      | true ↦ run fuel t
      | false ↦ some (ok tt (synced t))
    ]
    | trap e t ↦ some (trap e t)
    | thrown ↦ some thrown
  ]
