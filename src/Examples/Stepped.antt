-- ===== src/Examples/Stepped.antt =====
-- Steps of the simulator of vp/src/core/rv32/iss.cpp at concrete machines.
use coverage_vp.Base.{ℕ, Bool, true, false, ◌≡◌, refl, inl, arith, Option, none, some}
use coverage_vp.Clover.Trace.{Query, init}
use coverage_vp.Clover.Value.{
  IntValue, bvc, get_value, binary_operator, sext, int_to_uint, int_byte_size, get_width,
}
use coverage_vp.Examples.OneBit.{one_bit}
use coverage_vp.Examples.Folding.{Expression, folding, folding_meaning}
use coverage_vp.Rv32.Csr.{csr_table}
use coverage_vp.Rv32.Hart.{Outcome, ok, trap, thrown, SimulationTrap, runnable}
use coverage_vp.Rv32.Instr.{quadrant, is_compressed}
use coverage_vp.Rv32.Instr.Pattern.{Mapping}
use coverage_vp.Rv32.Instr.Format.{get_type}
use coverage_vp.Rv32.Compressed.Fields.{c_opcode, c_format}
use coverage_vp.Rv32.Compressed.Decode.{quadrant_zero, decode_compressed}
use coverage_vp.Rv32.Compressed.Expand.{expand_compressed, decode_and_expand_compressed}
use coverage_vp.Rv32.Exec.Alu.{computed, exec_computed}
use coverage_vp.Rv32.Exec.Control.{Validity, comparison}
use coverage_vp.Rv32.RegFile.{initial, write}
use coverage_vp.Rv32.Step.Machine.{MemoryIf, Machine}
use coverage_vp.Rv32.Step.Operands.{Flags, operands, inspect, operand_flags}
use coverage_vp.Rv32.Step.Data.{exec_access, write_regs}
use coverage_vp.Rv32.Step.System.{Environment, exec_system}
use coverage_vp.Rv32.Step.Execute.{
  exec_compute, exec_compare, exec_jump, execute, fetch, decode, exec_step,
}
use coverage_vp.Rv32.Instr.{i_imm}
use coverage_vp.Clover.Expr.Standard.{standard_width, raw_value}
use coverage_vp.Rv32.Trap.Target.{take_trap}
use coverage_vp.Rv32.Trap.{prepare_trap, switch_to_trap_handler}
use coverage_vp.Rv32.Step.Accesses.{
  Access, access, access_address, expected_access, exec_access-expected_access,
}
use coverage_vp.Rv32.Step.CsrAccesses.{
  csr_set, csr_operation, operand_value, expected_csr, exec_system-expected_csr,
}
use coverage_vp.Rv32.Step.Run.{
  run, synced, run_step, started, exec_or_trap, finish_step, performance_and_sync_update,
  count_instruction,
}
use coverage_vp.Rv32.Step.Finished.{Finished, ZeroRegister, run_step-Finished}
use coverage_vp.Rv32.Step.Trapped.{Recorded}
use coverage_vp.Rv32.Step.Precise.{Returns, run_step-Recorded}
use coverage_vp.Rv32.Step.Exits.{run-shall_exit}

-- A solver that is never asked.
abbrev blind : Expression → Bool → ℕ
blind e a = 0

abbrev no_answer : Query one_bit → Option Validity
no_answer q = none

-- A memory of zeros.
abbrev zeros : MemoryIf folding
zeros = record {
  State = Unit {0};
  load_instr = λ a h m. ok 0 m;
  symbolic_load_data = λ a n h m. ok (bvc folding none (IntValue.u32 0)) m;
  symbolic_store_data = λ a v n h m. ok tt m;
}

abbrev Simple : Type 0
Simple = Machine folding one_bit blind no_answer zeros (Unit {0})

abbrev alone : Environment folding one_bit blind no_answer zeros (Unit {0})
alone = record {
  mtime = λ m. 0;
  sys = none;
  wait_for_event = λ h m. (h.csrs.mip, m);
  sync = λ h m. (h.csrs.mip, m);
  advance = λ n x h m. (h.csrs.mip, m);
}

abbrev no_cover : ℕ → Flags → Unit {0} → Unit {0}
no_cover l f c = c

abbrev simple : Simple
simple = record {
  hart = record {
    pc = 0x1000;
    last_pc = 0;
    prv = 3;
    csrs = csr_table;
    lr_sc_counter = 0;
    total_num_instr = 0;
    shall_exit = true;
    status = runnable;
    cycle_counter = 0;
  };
  regs = initial folding;
  trace = init one_bit;
  memory = tt;
  coverage = some tt;
  instr = 0;
  op = Mapping.undef;
  ignore_wfi = false;
  debug_mode = false;
  breakpoints = λ a. false;
}

abbrev word_load : Access
word_load = record { bytes = 4; is_load = true; is_signed = true }

abbrev exec : Simple → Outcome Simple (Unit {0})
exec s = exec_step folding one_bit blind no_answer zeros (Unit {0}) alone no_cover s

abbrev next : Simple → Outcome Simple (Unit {0})
next s = run_step folding one_bit blind no_answer zeros (Unit {0}) alone no_cover s

zero_at_start : get_value folding (simple.regs 0) ≡ some 0
unfolding get_value initial bvc int_to_uint int_byte_size
zero_at_start = refl

-- The word zero is no instruction.
abbrev illegal : SimulationTrap
illegal = record { reason = 2; mtval = 0 }

abbrev fetched : Simple
fetched = record simple {
  hart = record (simple.hart) { pc = 0x1002; last_pc = 0x1000 };
  op = Mapping.undef;
  instr = 0;
}

traps :
    exec (started folding one_bit blind no_answer zeros (Unit {0}) alone no_cover simple)
    ≡ trap illegal fetched
unfolding exec_step fetch decode is_compressed quadrant decode_and_expand_compressed
    decode_compressed quadrant_zero c_opcode c_format expand_compressed operand_flags operands
    get_type inspect execute exec_compute exec_computed computed exec_access exec_compare comparison
    exec_jump exec_system csr_table
traps = refl

run_step-Recorded_example : Returns (λ u. Recorded illegal 0x1000 u.hart) (next simple)
run_step-Recorded_example =
    run_step-Recorded folding folding_meaning one_bit blind no_answer zeros (Unit {0}) alone
      no_cover simple fetched illegal refl zero_at_start refl traps (inl refl) (omega arith)

run_step-Finished_example :
    Finished
      (ZeroRegister folding folding_meaning one_bit blind no_answer zeros (Unit {0}) alone no_cover)
      (next simple)
run_step-Finished_example =
    run_step-Finished folding folding_meaning one_bit blind no_answer zeros (Unit {0}) alone
      no_cover simple

-- The machine after the step.
state_of : Outcome Simple (Unit {0}) → Simple
state_of (ok u s) = s
state_of (trap e s) = s
state_of thrown = simple

abbrev stepped : Simple
stepped = state_of (next simple)

returned_lem :
    (P : Simple → Type 0) (o : Outcome Simple (Unit {0})) → Returns P o → o ≡ ok tt (state_of o)
unfolding state_of
returned_lem P (ok u s) r = refl
returned_lem P (trap e s) r = elim r [ ]
returned_lem P thrown r = elim r [ ]

steps : next simple ≡ ok tt stepped
steps =
    returned_lem (λ u. Recorded illegal 0x1000 u.hart) (next simple)
      (run_step-Recorded folding folding_meaning one_bit blind no_answer zeros (Unit {0}) alone
        no_cover simple fetched illegal refl zero_at_start refl traps (inl refl) (omega arith))

exit_asked : stepped.hart.shall_exit ≡ true
unfolding state_of exec_step fetch decode is_compressed quadrant decode_and_expand_compressed
    decode_compressed quadrant_zero c_opcode c_format expand_compressed operand_flags operands
    get_type inspect execute exec_compute exec_computed computed exec_access exec_compare comparison
    exec_jump exec_system csr_table run_step exec_or_trap finish_step write_regs write
    performance_and_sync_update count_instruction take_trap prepare_trap switch_to_trap_handler
    get_value initial bvc int_to_uint int_byte_size get_width
exit_asked = refl

run-shall_exit_example :
    run folding one_bit blind no_answer zeros (Unit {0}) alone no_cover 5 simple
    ≡ some (ok tt (synced folding one_bit blind no_answer zeros (Unit {0}) alone no_cover stepped))
run-shall_exit_example =
    run-shall_exit folding folding_meaning one_bit blind no_answer zeros (Unit {0}) alone no_cover 4
      simple stepped steps exit_asked

-- `lw a0, 4(a1)` and `csrrs a0, mscratch, a1`, where all registers hold zero.
address_of_load :
    get_value folding
      (access_address folding one_bit blind no_answer zeros (Unit {0}) word_load 0x0045a503 simple)
    ≡ some 4
unfolding get_value binary_operator sext bvc initial int_to_uint int_byte_size i_imm standard_width
    raw_value
address_of_load = refl

is_word_load : access Mapping.lw ≡ some word_load
unfolding access
is_word_load = refl

exec_access-expected_access_example :
    exec_access folding one_bit blind no_answer zeros (Unit {0}) Mapping.lw 0x0045a503 simple
    ≡ some (
        expected_access folding one_bit blind no_answer zeros
          (Unit {0})
          word_load
          4
          0x0045a503
          simple)
exec_access-expected_access_example =
    exec_access-expected_access folding one_bit blind no_answer zeros (Unit {0}) 0x0045a503 4 simple
      Mapping.lw word_load is_word_load address_of_load

sets_csr : csr_operation Mapping.csrrs ≡ some (csr_set, false)
unfolding csr_operation
sets_csr = refl

operand_is_zero :
    operand_value folding one_bit blind no_answer zeros (Unit {0}) alone 0x3405a573 simple false
    ≡ some 0
unfolding get_value initial bvc int_to_uint int_byte_size
operand_is_zero = refl

exec_system-expected_csr_example :
    exec_system folding one_bit blind no_answer zeros
      (Unit {0})
      alone
      Mapping.csrrs
      0x3405a573
      0x1000
      simple
    ≡ expected_csr folding one_bit blind no_answer zeros
        (Unit {0})
        alone
        csr_set
        false
        0
        0x3405a573
        simple
exec_system-expected_csr_example =
    exec_system-expected_csr folding one_bit blind no_answer zeros (Unit {0}) alone 0x3405a573
      simple Mapping.csrrs csr_set false 0 0x1000 sets_csr operand_is_zero
