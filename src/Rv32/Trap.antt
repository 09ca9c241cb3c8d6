-- ===== src/Rv32/Trap.antt =====
-- Traps and interrupts of vp/src/core/rv32/iss.cpp: which mode takes one, how the hart enters its
-- handler and how it returns.
pub mod Return
pub mod Target
pub mod Pending
use coverage_vp.Base.{
  ℕ, ◌+◌, ◌-◌, ◌*◌, ◌/◌, ◌%◌, ◌^◌, bit_and, Bool, true, false, not, ◌&&◌, ◌||◌, ltb, ◌==◌,
  if◌then◌else◌, Option, none, some,
}
use coverage_vp.Rv32.Word.{u32, field, set_field, is_set, nonzero, bit_not}
use coverage_vp.Rv32.Csr.{CsrTable}
use coverage_vp.Rv32.Hart.{
  Hart, Outcome, ok, trap, thrown, SimulationTrap, machine_mode, supervisor_mode, user_mode,
  none_mode, has_user_mode_extension,
}

-- `return_from_trap_handler`; `none` is the exception for a mode that is none.
unfoldable pub return_from_trap_handler : ℕ → Hart → Option Hart
return_from_trap_handler return_mode h =
    let c = h.csrs in
    let s = c.mstatus in
    if return_mode == machine_mode
    then some (record h {
      prv = field s 11 2;
      pc = c.mepc;
      csrs = record c {
        mstatus =
            set_field (set_field (set_field s 3 1 (field s 7 1)) 7 1 1) 11 2
              (if has_user_mode_extension c then user_mode else machine_mode);
      };
    })
    else if return_mode == supervisor_mode
    then some (record h {
      prv = field s 8 1;
      pc = c.sepc;
      csrs = record c {
        mstatus =
            set_field (set_field (set_field s 1 1 (field s 5 1)) 5 1 1) 8 1
              (if has_user_mode_extension c then user_mode else supervisor_mode);
      };
    })
    else if return_mode == user_mode
    then some (record h {
      prv = user_mode;
      pc = c.uepc;
      csrs = record c { mstatus = set_field (set_field s 0 1 (field s 4 1)) 4 1 1 };
    })
    else none

-- The bit of `mip` that an external interrupt for a level sets.
set_external : ℕ → ℕ → Hart → Hart
set_external level value h =
    let c = h.csrs in
    if level == user_mode
    then record h { csrs = record c { mip = set_field c.mip 8 1 value } }
    else if level == supervisor_mode
    then record h { csrs = record c { mip = set_field c.mip 9 1 value } }
    else if level == machine_mode
    then record h { csrs = record c { mip = set_field c.mip 11 1 value } }
    else h

unfoldable pub trigger_external_interrupt : ℕ → Hart → Hart
unfolding set_external
trigger_external_interrupt level h = set_external level 1 h

unfoldable pub clear_external_interrupt : ℕ → Hart → Hart
unfolding set_external
clear_external_interrupt level h = set_external level 0 h

abbrev pub bit_of : Bool → ℕ
bit_of true = 1
bit_of false = 0

unfoldable pub trigger_timer_interrupt : Bool → Hart → Hart
trigger_timer_interrupt status h = record h {
  csrs = record (h.csrs) { mip = set_field h.csrs.mip 7 1 (bit_of status) };
}

unfoldable pub trigger_software_interrupt : Bool → Hart → Hart
trigger_software_interrupt status h = record h {
  csrs = record (h.csrs) { mip = set_field h.csrs.mip 3 1 (bit_of status) };
}

-- A cause register: the interrupt bit above the exception code.
abbrev pub cause : ℕ → ℕ → ℕ
cause interrupt code = interrupt * 2 ^ 31 + code % 2 ^ 31

-- The mode that takes the trap, with the hart as `prepare_trap` leaves it; `none` is the failed
-- assertion, or the exception of `boost::lexical_cast<uint32_t>`, which each case calls on the value of
-- the trap, an `unsigned long`.
unfoldable pub prepare_trap : SimulationTrap → Hart → Option (ℕ × Hart)
prepare_trap e h =
    let c = h.csrs in
    let delegated = nonzero (bit_and (u32 (2 ^ e.reason)) c.medeleg) in
    let twice = nonzero (bit_and (u32 (2 ^ e.reason)) c.sedeleg) in
    if not (ltb e.mtval (2 ^ 32))
    then none
    else if h.prv == machine_mode || not delegated
    then some (
      machine_mode,
      record h { pc = h.last_pc; csrs = record c { mcause = cause 0 e.reason; mtval = e.mtval } },
    )
    else if h.prv == supervisor_mode || not twice
    then some (
      supervisor_mode,
      record h { pc = h.last_pc; csrs = record c { scause = cause 0 e.reason; stval = e.mtval } },
    )
    else if h.prv == user_mode
    then some (
      user_mode,
      record h { pc = h.last_pc; csrs = record c { ucause = cause 0 e.reason; utval = e.mtval } },
    )
    else none

pub record PendingInterrupts : Type 0 where
  pub target_mode : ℕ
  pub pending : ℕ

-- The code of the most urgent interrupt of a pending word; `none` if there is none.
unfoldable pub interrupt_code : ℕ → Option ℕ
interrupt_code x =
    if is_set x 11
    then some 11
    else if is_set x 3
    then some 3
    else if is_set x 7
    then some 7
    else if is_set x 9
    then some 9
    else if is_set x 1
    then some 1
    else if is_set x 5
    then some 5
    else if is_set x 8
    then some 8
    else if is_set x 0
    then some 0
    else if is_set x 4
    then some 4
    else none

-- The cause register of the target mode; `none` is an exception.
unfoldable pub record_cause : ℕ → ℕ → Hart → Option Hart
record_cause target code h =
    let c = h.csrs in
    if target == machine_mode
    then some (record h { csrs = record c { mcause = cause 1 code } })
    else if target == supervisor_mode
    then some (record h { csrs = record c { scause = cause 1 code } })
    else if target == user_mode
    then some (record h { csrs = record c { ucause = cause 1 code } })
    else none

unfoldable pub prepare_interrupt : PendingInterrupts → Hart → Option Hart
prepare_interrupt e h = elim (interrupt_code e.pending) [
  | none ↦ none
  | some code ↦ record_cause e.target_mode code h
]

unfoldable pub compute_pending_interrupts : Hart → PendingInterrupts
compute_pending_interrupts h =
    let c = h.csrs in
    let pending = bit_and c.mie c.mip in
    let m_pending = bit_and pending (bit_not c.mideleg) in
    let delegated = bit_and pending c.mideleg in
    let s_pending = bit_and delegated (bit_not c.sideleg) in
    let u_pending = bit_and delegated c.sideleg in
    let nothing : PendingInterrupts = record { target_mode = none_mode; pending = 0 } in
    if pending == 0
    then nothing
    else if nonzero m_pending
        && (ltb h.prv machine_mode || (h.prv == machine_mode && is_set c.mstatus 3))
    then record { target_mode = machine_mode; pending = m_pending }
    else if nonzero s_pending
        && (ltb h.prv supervisor_mode || (h.prv == supervisor_mode && is_set c.mstatus 1))
    then record { target_mode = supervisor_mode; pending = s_pending }
    else if nonzero u_pending && (h.prv == user_mode && is_set c.mstatus 0)
    then record { target_mode = user_mode; pending = u_pending }
    else nothing

-- The handler's address: the base, or the entry of the interrupt in vectored mode.
abbrev pub handler : ℕ → ℕ → ℕ
handler tvec tcause =
    let base = u32 (field tvec 2 30 * 4) in
    if is_set tcause 31 && (field tvec 0 2 == 1) then u32 (base + 4 * field tcause 0 31) else base

-- `switch_to_trap_handler`; `none` is an exception or a failed assertion.
unfoldable pub switch_to_trap_handler : ℕ → Hart → Option Hart
switch_to_trap_handler target_mode h =
    let c = h.csrs in
    let s = c.mstatus in
    if target_mode == machine_mode
    then some (record h {
      lr_sc_counter = 0;
      prv = target_mode;
      pc = handler c.mtvec c.mcause;
      csrs = record c {
        mepc = h.pc;
        mstatus = set_field (set_field (set_field s 7 1 (field s 3 1)) 3 1 0) 11 2 h.prv;
      };
    })
    else if target_mode == supervisor_mode
    then some (record h {
      lr_sc_counter = 0;
      prv = target_mode;
      pc = handler c.stvec c.scause;
      csrs = record c {
        sepc = h.pc;
        mstatus = set_field (set_field (set_field s 5 1 (field s 1 1)) 1 1 0) 8 1 h.prv;
      };
    })
    else if target_mode == user_mode
    then some (record h {
      lr_sc_counter = 0;
      prv = target_mode;
      pc = handler c.utvec c.ucause;
      csrs = record c { uepc = h.pc; mstatus = set_field (set_field s 4 1 (field s 0 1)) 0 1 0 };
    })
    else none
