-- ===== src/Rv32/Step/System.antt =====
-- The system instructions of `ISS::exec_step` of vp/src/core/rv32/iss.cpp.
use coverage_vp.Base.{
  ℕ, bit_and, bit_or, Bool, true, false, not, ◌&&◌, ◌==◌, if◌then◌else◌, Option, none, some,
}
use coverage_vp.Clover.Klee.{Klee}
use coverage_vp.Clover.Expr.{Builder}
use coverage_vp.Clover.Value.{IntValue, bvc, get_value}
use coverage_vp.Clover.Trace.{Query}
use coverage_vp.Rv32.Exc.{illegal_instr, ecall_m_mode, ecall_s_mode, ecall_u_mode}
use coverage_vp.Rv32.Hart.{
  Hart, Outcome, ok, thrown, raise_trap, hit_breakpoint, machine_mode, supervisor_mode, user_mode,
  has_supervisor_mode_extension,
}
use coverage_vp.Rv32.Access.{is_invalid_csr_access, get_csr_value, set_csr_value}
use coverage_vp.Rv32.Trap.{return_from_trap_handler}
use coverage_vp.Rv32.Instr.{csr, zimm, rd, rs1}
use coverage_vp.Rv32.Instr.Pattern.{Mapping}
use coverage_vp.Rv32.Word.{nonzero, is_set, bit_not}
use coverage_vp.Rv32.Exec.Control.{Validity}
use coverage_vp.Rv32.Step.Machine.{MemoryIf, Machine, and_then, on_hart, or_thrown}
use coverage_vp.Rv32.Step.Data.{write_regs}

abbrev pub with_mip : Hart → ℕ → Hart
with_mip h mip = record h { csrs = record (h.csrs) { mip = mip } }

module _ (b : Builder) (k : Klee) (embed : b.Expr → k.Expr) (evaluate : Query k → Option Validity)
    (mem : MemoryIf b) (Coverage : Type 0) where
  abbrev Iss : Type 0
  Iss = Machine b k embed evaluate mem Coverage

  -- What a step calls beside the memory: `clint->update_and_get_mtime()`, the pointer `sys` with its
  -- `execute_syscall`, `sc_core::wait(wfi_event)`, and the quantum keeper, which is advanced by a number of
  -- cycles and synchronises if it may. While the core waits other processes run, which set `mip` by the
  -- interrupt functions and change the memory.
  pub record Environment : Type 0 where
    pub mtime : mem.State → ℕ
    pub sys : Option (Iss → Outcome Iss (Unit {0}))
    pub wait_for_event : Hart → mem.State → ℕ × mem.State
    pub sync : Hart → mem.State → ℕ × mem.State
    pub advance : ℕ → Bool → Hart → mem.State → ℕ × mem.State

  module _ (env : Environment) where
    abbrev pub illegal_instruction : {A : Type 0} → ℕ → Iss → Outcome Iss A
    illegal_instruction w s = raise_trap illegal_instr w s

    -- The test that each case begins with.
    abbrev pub checked : ℕ → Bool → Iss → (Iss → Outcome Iss Bool) → Outcome Iss Bool
    checked w is_write s f =
        and_then
          (on_hart b k embed evaluate mem Coverage (is_invalid_csr_access w (csr w) is_write s.hart)
            s)
          (λ invalid t. if invalid then illegal_instruction w t else f t)

    abbrev pub read_csr : ℕ → Iss → Outcome Iss ℕ
    read_csr w s =
        on_hart b k embed evaluate mem Coverage
          (get_csr_value (env.mtime s.memory) w (csr w) s.hart) s

    abbrev pub write_csr : ℕ → ℕ → Iss → Outcome Iss Bool
    write_csr w value s =
        and_then (on_hart b k embed evaluate mem Coverage (set_csr_value w (csr w) value s.hart) s)
          (λ _ t. ok false t)

    -- `regs.write(RD, ...)` unless RD is the zero register.
    abbrev pub write_rd : ℕ → ℕ → Iss → Outcome Iss (Unit {0})
    write_rd w value s =
        if rd w == 0
        then ok tt s
        else write_regs b k embed evaluate mem Coverage (rd w) (bvc b none (IntValue.u32 value)) s

    -- The old value is read only for a destination.
    abbrev pub read_to_rd : ℕ → Iss → Outcome Iss (Unit {0})
    read_to_rd w s =
        if rd w == 0 then ok tt s else and_then (read_csr w s) (λ value t. write_rd w value t)

    unfoldable pub exec_csrrw : ℕ → Iss → Outcome Iss Bool
    exec_csrrw w s = checked w true s (λ t. and_then (read_to_rd w t) (λ _ u.
        and_then (or_thrown (get_value b (t.regs (rs1 w))) u) (λ value v. write_csr w value v)))

    unfoldable pub exec_csrrs : ℕ → Iss → Outcome Iss Bool
    exec_csrrs w s =
        let is_write = not (rs1 w == 0) in
        checked w is_write s (λ t. and_then (read_csr w t) (λ csr_val u.
          and_then (write_rd w csr_val u) (λ _ v.
            if is_write
            then and_then (or_thrown (get_value b (t.regs (rs1 w))) v)
                (λ value x. write_csr w (bit_or csr_val value) x)
            else ok false v)))

    -- The register is read before the control and status register.
    unfoldable pub exec_csrrc : ℕ → Iss → Outcome Iss Bool
    exec_csrrc w s =
        let is_write = not (rs1 w == 0) in
        checked w is_write s (λ t. and_then (or_thrown (get_value b (t.regs (rs1 w))) t) (λ value x.
          and_then (read_csr w x) (λ csr_val u. and_then (write_rd w csr_val u) (λ _ v.
            if is_write then write_csr w (bit_and csr_val (bit_not value)) v else ok false v))))

    unfoldable pub exec_csrrwi : ℕ → Iss → Outcome Iss Bool
    exec_csrrwi w s =
        checked w true s (λ t. and_then (read_to_rd w t) (λ _ u. write_csr w (zimm w) u))

    unfoldable pub exec_csrrsi : ℕ → Iss → Outcome Iss Bool
    exec_csrrsi w s =
        let is_write = not (zimm w == 0) in
        checked w is_write s (λ t. and_then (read_csr w t) (λ csr_val u.
          and_then (write_rd w csr_val u)
            (λ _ v. if is_write then write_csr w (bit_or csr_val (zimm w)) v else ok false v)))

    unfoldable pub exec_csrrci : ℕ → Iss → Outcome Iss Bool
    exec_csrrci w s =
        let is_write = not (zimm w == 0) in
        checked w is_write s (λ t. and_then (read_csr w t) (λ csr_val u.
          and_then (write_rd w csr_val u) (λ _ v.
            if is_write then write_csr w (bit_and csr_val (bit_not (zimm w))) v else ok false v)))

    -- The trap of ECALL by the privilege level.
    abbrev pub raise_ecall : ℕ → Iss → Outcome Iss Bool
    raise_ecall last_pc s =
        if s.hart.prv == machine_mode
        then raise_trap ecall_m_mode last_pc s
        else if s.hart.prv == supervisor_mode
        then raise_trap ecall_s_mode last_pc s
        else if s.hart.prv == user_mode
        then raise_trap ecall_u_mode last_pc s
        else thrown

    -- `a7` is x17.
    unfoldable pub exec_ecall : ℕ → Iss → Outcome Iss Bool
    exec_ecall last_pc s = elim env.sys [
      | none ↦ raise_ecall last_pc s
      | some execute_syscall ↦ and_then (or_thrown (get_value b (s.regs 17)) s) (λ number t.
          if nonzero number
          then and_then (execute_syscall t) (λ _ u. ok false u)
          else raise_ecall last_pc t)
    ]

    -- `sc_core::wait(wfi_event)`.
    abbrev pub await : Iss → Iss
    await s =
        let woken = env.wait_for_event s.hart s.memory in
        record s { hart = with_mip (s.hart) (woken.0); memory = woken.1 }

    abbrev pub release_lr_sc_reservation : Iss → Iss
    release_lr_sc_reservation s = record s { hart = record (s.hart) { lr_sc_counter = 0 } }

    unfoldable pub exec_wfi : ℕ → Iss → Outcome Iss Bool
    exec_wfi w s =
        let h = s.hart in
        let t = release_lr_sc_reservation s in
        if h.prv == supervisor_mode && is_set h.csrs.mstatus 21
        then illegal_instruction w t
        else if h.prv == user_mode && has_supervisor_mode_extension h.csrs
        then illegal_instruction w t
        else if not s.ignore_wfi && not (nonzero (bit_and h.csrs.mie h.csrs.mip))
        then ok false (await t)
        else ok false t

    unfoldable pub exec_mret : Iss → Outcome Iss Bool
    exec_mret s = elim (return_from_trap_handler machine_mode s.hart) [
      | none ↦ thrown
      | some h ↦ ok false (record s { hart = h })
    ]

    -- These cases and the others that compute nothing; the default throws.
    unfoldable pub exec_system : Mapping → ℕ → ℕ → Iss → Outcome Iss Bool
    exec_system Mapping.undef w last_pc s = illegal_instruction w s
    exec_system Mapping.fence w last_pc s = ok false s
    exec_system Mapping.fence_i w last_pc s = ok false s
    exec_system Mapping.ecall w last_pc s = exec_ecall last_pc s
    exec_system Mapping.ebreak w last_pc s =
        ok false (record s { hart = record (s.hart) { status = hit_breakpoint } })
    exec_system Mapping.csrrw w last_pc s = exec_csrrw w s
    exec_system Mapping.csrrs w last_pc s = exec_csrrs w s
    exec_system Mapping.csrrc w last_pc s = exec_csrrc w s
    exec_system Mapping.csrrwi w last_pc s = exec_csrrwi w s
    exec_system Mapping.csrrsi w last_pc s = exec_csrrsi w s
    exec_system Mapping.csrrci w last_pc s = exec_csrrci w s
    exec_system Mapping.wfi w last_pc s = exec_wfi w s
    exec_system Mapping.mret w last_pc s = exec_mret s
    exec_system m w last_pc s = thrown
