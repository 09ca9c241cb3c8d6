-- ===== src/Rv32/Step/Data.antt =====
-- The loads and stores of `ISS::exec_step` (vp/src/core/rv32/iss.cpp), `trap_check_addr_alignment` of
-- iss.h and the accesses of each size of mem.h.
use coverage_vp.Base.{ℕ, ◌%◌, ltb, Bool, true, false, Option, none, some, if◌then◌else◌}
use coverage_vp.Clover.Klee.{Klee}
use coverage_vp.Clover.Expr.{Builder, BinOp}
use coverage_vp.Clover.Value.{
  ConcolicValue, IntValue, bvc, binary_operator, get_value, get_width, is_symbolic, sext, zext,
  taint,
}
use coverage_vp.Clover.Trace.{Query}
use coverage_vp.Rv32.Exc.{load_addr_misaligned, store_amo_addr_misaligned}
use coverage_vp.Rv32.Hart.{Hart, Outcome, ok, thrown, raise_trap}
use coverage_vp.Rv32.Instr.{s_imm, rd, rs1, rs2}
use coverage_vp.Rv32.Instr.Pattern.{Mapping}
use coverage_vp.Rv32.RegFile.{write, with_register}
use coverage_vp.Rv32.Word.{nonzero}
use coverage_vp.Rv32.Exec.Alu.{i_operand}
use coverage_vp.Rv32.Exec.Control.{Validity}
use coverage_vp.Rv32.Step.Machine.{MemoryIf, Machine, and_then, on_memory}

module _ (b : Builder) (mem : MemoryIf b) where
  -- What a load of a size returns.
  abbrev pub Load : Type 0
  Load = ConcolicValue b → Hart → mem.State → Outcome (mem.State) (ConcolicValue b)

  abbrev pub Store : Type 0
  Store = ConcolicValue b → ConcolicValue b → Hart → mem.State → Outcome (mem.State) (Unit {0})

  unfoldable pub load_word : Load
  load_word addr h m = and_then (mem.symbolic_load_data addr 4 h m) (λ v n. ok (sext b v 32) n)

  unfoldable pub load_half : Load
  load_half addr h m = and_then (mem.symbolic_load_data addr 2 h m) (λ v n. ok (sext b v 32) n)

  unfoldable pub load_byte : Load
  load_byte addr h m = and_then (mem.symbolic_load_data addr 1 h m) (λ v n. ok (sext b v 32) n)

  abbrev pub extended : ConcolicValue b → ConcolicValue b
  extended r = if ltb (get_width b r) 32 then zext b r 32 else r

  unfoldable pub load_uhalf : Load
  load_uhalf addr h m = and_then (mem.symbolic_load_data addr 2 h m) (λ v n. ok (extended v) n)

  unfoldable pub load_ubyte : Load
  load_ubyte addr h m = and_then (mem.symbolic_load_data addr 1 h m) (λ v n. ok (extended v) n)

  unfoldable pub store_word : Store
  store_word addr value h m = mem.symbolic_store_data addr value 4 h m

  unfoldable pub store_half : Store
  store_half addr value h m = mem.symbolic_store_data addr value 2 h m

  unfoldable pub store_byte : Store
  store_byte addr value h m = mem.symbolic_store_data addr value 1 h m

module _ (b : Builder) (k : Klee) (embed : b.Expr → k.Expr) (evaluate : Query k → Option Validity)
    (mem : MemoryIf b) (Coverage : Type 0) where
  abbrev Iss : Type 0
  Iss = Machine b k embed evaluate mem Coverage

  -- `regs.write`.
  unfoldable pub write_regs : ℕ → ConcolicValue b → Iss → Outcome Iss (Unit {0})
  write_regs index value s = elim (write b s.regs index value) [
    | none ↦ thrown
    | some regs ↦ ok tt (record s { regs = regs })
  ]

  -- `trap_check_addr_alignment<alignment, is_load>`.
  unfoldable pub trap_check_addr_alignment :
      ℕ → Bool → ConcolicValue b → Iss → Outcome Iss (Unit {0})
  trap_check_addr_alignment alignment is_load addr s = elim (get_value b addr) [
    | none ↦ thrown
    | some caddr ↦
        if nonzero (caddr % alignment)
        then raise_trap (if is_load then load_addr_misaligned else store_amo_addr_misaligned) caddr
            s
        else ok tt s
  ]

  -- `regs[RD]->taint()`, on the value that was just written.
  abbrev pub taint_register : ℕ → Iss → Iss
  taint_register r s = record s { regs = with_register b s.regs r (taint b (s.regs r)) }

  -- The end of a load: `initial_concretization` is set where the address is symbolic.
  unfoldable pub load_from : Load b mem → ConcolicValue b → ℕ → Iss → Outcome Iss Bool
  load_from load addr w s =
      and_then (on_memory b k embed evaluate mem Coverage (load addr s.hart s.memory) s) (λ v t.
        and_then (write_regs (rd w) v t)
          (λ _ u. if is_symbolic b addr then ok true (taint_register (rd w) u) else ok false u))

  unfoldable pub store_to : Store b mem → ConcolicValue b → ℕ → Iss → Outcome Iss Bool
  store_to store addr w s =
      and_then
        (on_memory b k embed evaluate mem Coverage (store addr (s.regs (rs2 w)) s.hart s.memory) s)
        (λ _ t. ok false t)

  -- `regs[RS1]->add(I_IMM)`.
  abbrev pub load_address : ℕ → Iss → ConcolicValue b
  load_address w s = binary_operator b BinOp.op_add (s.regs (rs1 w)) (i_operand b w)

  -- `S_IMM`.
  abbrev pub s_operand : ℕ → ConcolicValue b
  s_operand w = sext b (bvc b none (IntValue.u32 (s_imm w))) 32

  abbrev pub store_address : ℕ → Iss → ConcolicValue b
  store_address w s = binary_operator b BinOp.op_add (s.regs (rs1 w)) (s_operand w)

  -- The cases of the loads and stores; `none` for the other instructions.
  unfoldable pub exec_access : Mapping → ℕ → Iss → Option (Outcome Iss Bool)
  exec_access Mapping.sb w s = some (store_to (store_byte b mem) (store_address w s) w s)
  exec_access Mapping.sh w s =
      let addr = store_address w s in
      some (
        and_then (trap_check_addr_alignment 2 false addr s)
          (λ _ t. store_to (store_half b mem) addr w t))
  exec_access Mapping.sw w s =
      let addr = store_address w s in
      some (
        and_then (trap_check_addr_alignment 4 false addr s)
          (λ _ t. store_to (store_word b mem) addr w t))
  exec_access Mapping.lb w s = some (load_from (load_byte b mem) (load_address w s) w s)
  exec_access Mapping.lh w s =
      let addr = load_address w s in
      some (
        and_then (trap_check_addr_alignment 2 true addr s)
          (λ _ t. load_from (load_half b mem) addr w t))
  exec_access Mapping.lw w s =
      let addr = load_address w s in
      some (
        and_then (trap_check_addr_alignment 4 true addr s)
          (λ _ t. load_from (load_word b mem) addr w t))
  exec_access Mapping.lbu w s = some (load_from (load_ubyte b mem) (load_address w s) w s)
  exec_access Mapping.lhu w s =
      let addr = load_address w s in
      some (
        and_then (trap_check_addr_alignment 2 true addr s)
          (λ _ t. load_from (load_uhalf b mem) addr w t))
  exec_access m w s = none
