-- ===== src/Rv32/Trap/Pending.antt =====
-- Which interrupt is taken, and when (vp/src/core/rv32/iss.cpp).
use coverage_vp.Base.{
  ℕ, ◌/◌, ◌%◌, ◌<◌, ◌≡◌, ◌≢◌, bit_and, Bool, true, not, ◌&&◌, ◌||◌, ◌⊎◌, Option, none, some, arith,
  if◌then◌else◌, ◌==◌, ltb,
}
use coverage_vp.Rv32.Word.{is_set, bit_not}
use coverage_vp.Rv32.Hart.{Hart, machine_mode, supervisor_mode, user_mode, none_mode}
use coverage_vp.Rv32.Trap.{
  PendingInterrupts, compute_pending_interrupts, prepare_interrupt, record_cause,
  switch_to_trap_handler,
}
use coverage_vp.Rv32.Trap.Target.{IsLevel}

-- The bit of `mstatus` that lets a mode be interrupted.
abbrev pub interruptible : ℕ → Hart → Bool
interruptible mode h = is_set h.csrs.mstatus mode

-- The interrupts that are enabled, pending and left to a mode by the two delegation registers.
abbrev pub waiting : ℕ → Hart → ℕ
waiting mode h =
    let c = h.csrs in
    let active = bit_and c.mie c.mip in
    if mode == machine_mode
    then bit_and active (bit_not c.mideleg)
    else if mode == supervisor_mode
    then bit_and (bit_and active c.mideleg) (bit_not c.sideleg)
    else bit_and (bit_and active c.mideleg) c.sideleg

-- A mode has an interrupt waiting, and is above the current one, or is the current one with interrupts
-- enabled.
abbrev pub CanInterrupt : ℕ → Hart → Type 0
CanInterrupt mode h =
    IsLevel mode
    × (waiting mode h ≢ 0)
    × ((h.prv < mode) ⊎ ((h.prv ≡ mode) × (interruptible mode h ≡ true)))

-- No mode can interrupt.
abbrev pub Quiet : Hart → Type 0
Quiet h =
    (¬ CanInterrupt machine_mode h)
    × (¬ CanInterrupt supervisor_mode h)
    × (¬ CanInterrupt user_mode h)

abbrev pub Interrupts : Hart → PendingInterrupts → Type 0
Interrupts h p =
    (p.target_mode ≡ none_mode)
    ⊎ (IsLevel p.target_mode
        × (p.pending ≢ 0)
        × (p.pending ≡ waiting p.target_mode h)
        × ((h.prv < p.target_mode)
            ⊎ ((h.prv ≡ p.target_mode) × (interruptible p.target_mode h ≡ true))))

-- An interrupt goes to a mode that can interrupt.
pub compute-Interrupts : (h : Hart) → IsLevel h.prv → Interrupts h (compute_pending_interrupts h)
unfolding compute_pending_interrupts
compute-Interrupts h v = ground arith

-- Only the nine interrupts that the simulator knows are set.
abbrev pub Known : ℕ → Type 0
Known n = (n < 4096) × (n / 4 % 2 ≡ 0) × (n / 64 % 2 ≡ 0) × (n / 1024 % 2 ≡ 0)

-- The code of a pending word is the code of an interrupt that is pending, and there is one.
abbrev Chosen : ℕ → Option ℕ → Type 0
Chosen p none = p ≡ 0
Chosen p (some c) = (is_set p c ≡ true) × (c < 12)

-- The same as a test.
abbrev chosen : ℕ → Option ℕ → Bool
chosen p o =
    not (p / 4 % 2 == 0)
    || not (p / 64 % 2 == 0)
    || not (p / 1024 % 2 == 0)
    || elim o [ none ↦ p == 0 | some c ↦ is_set p c && ltb c 12 ]

record IsKnown (x : PendingInterrupts) : Type 0 where
  known : Known x.pending

-- `run_step` with a pending interrupt: note the cause and enter the handler.
enter : PendingInterrupts → Hart → Option Hart
enter x h = elim (prepare_interrupt x h) [
  | none ↦ none
  | some t ↦ switch_to_trap_handler x.target_mode t
]

interrupt_with : PendingInterrupts → Hart → Option Hart
interrupt_with x h = if x.target_mode == none_mode then some h else enter x h

-- `run_step` after an instruction.
pub take_interrupt : Hart → Option Hart
take_interrupt h = interrupt_with (compute_pending_interrupts h) h

-- The hart after an interrupt was taken: in the mode's handler, where it came from and an interrupt
-- in the mode's registers, no reservation.
abbrev pub Entered : ℕ → Hart → Option Hart → Type 0
Entered mode h none = ⊥
Entered mode h (some u) =
    (u.prv ≡ mode)
    × (u.lr_sc_counter ≡ 0)
    × (((mode ≡ machine_mode) × (u.csrs.mepc ≡ h.pc) × (is_set u.csrs.mcause 31 ≡ true))
        ⊎ ((mode ≡ supervisor_mode) × (u.csrs.sepc ≡ h.pc) × (is_set u.csrs.scause 31 ≡ true))
        ⊎ ((mode ≡ user_mode) × (u.csrs.uepc ≡ h.pc) × (is_set u.csrs.ucause 31 ≡ true)))

enter_for : ℕ → ℕ → Hart → Option Hart
enter_for mode code h = elim (record_cause mode code h) [
  | none ↦ none
  | some t ↦ switch_to_trap_handler mode t
]
