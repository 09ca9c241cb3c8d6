-- ===== src/Rv32/Trap/Target.antt =====
-- Which mode takes a trap (`ISS::prepare_trap` of vp/src/core/rv32/iss.cpp), and the hart in its handler.
use coverage_vp.Base.{
  ℕ, ◌*◌, ◌^◌, ◌<◌, ◌≤◌, ◌≡◌, ◌≢◌, bit_and, Bool, true, ◌⊎◌, inl, inr, Option, none, some, arith,
}
use coverage_vp.Rv32.Word.{u32, field, nonzero}
use coverage_vp.Rv32.Hart.{Hart, SimulationTrap, machine_mode, supervisor_mode, user_mode}
use coverage_vp.Rv32.Trap.{prepare_trap, switch_to_trap_handler, cause}

-- `is_valid_privilege_level` of csr.h.
abbrev pub IsLevel : ℕ → Type 0
IsLevel p = (p ≡ machine_mode) ⊎ (p ≡ supervisor_mode) ⊎ (p ≡ user_mode)

-- The exception is delegated by a mode's register.
abbrev pub delegates : ℕ → SimulationTrap → Bool
delegates deleg e = nonzero (bit_and (u32 (2 ^ e.reason)) deleg)

-- `run_step` on a trap: choose the mode and enter its handler.
unfoldable pub take_trap : SimulationTrap → Hart → Option (ℕ × Hart)
unfolding prepare_trap switch_to_trap_handler
take_trap e h = elim (prepare_trap e h) [
  | none ↦ none
  | some (mode, t) ↦ elim (switch_to_trap_handler mode t) [ none ↦ none | some u ↦ some (mode, u) ]
]

-- The registers that a mode's handler reads: cause, trap value and where the trap came from.
abbrev pub Reports : ℕ → SimulationTrap → Hart → Hart → Type 0
Reports mode e h u =
    ((mode ≡ machine_mode)
      × (u.csrs.mcause ≡ cause 0 e.reason)
      × (u.csrs.mtval ≡ e.mtval)
      × (u.csrs.mepc ≡ h.last_pc)
      × (u.pc ≡ u32 (field h.csrs.mtvec 2 30 * 4)))
    ⊎ ((mode ≡ supervisor_mode)
        × (u.csrs.scause ≡ cause 0 e.reason)
        × (u.csrs.stval ≡ e.mtval)
        × (u.csrs.sepc ≡ h.last_pc)
        × (u.pc ≡ u32 (field h.csrs.stvec 2 30 * 4)))
    ⊎ ((mode ≡ user_mode)
        × (u.csrs.ucause ≡ cause 0 e.reason)
        × (u.csrs.utval ≡ e.mtval)
        × (u.csrs.uepc ≡ h.last_pc)
        × (u.pc ≡ u32 (field h.csrs.utvec 2 30 * 4)))

-- What taking a trap does to the hart `h`.
abbrev pub Takes : SimulationTrap → Hart → Option (ℕ × Hart) → Type 0
Takes e h none = ⊥
Takes e h (some (mode, u)) =
    (u.prv ≡ mode)
    × (h.prv ≤ mode)
    × (u.lr_sc_counter ≡ 0)
    × Reports mode e h u
    × (mode ≢ machine_mode → (h.prv ≢ machine_mode) × (delegates h.csrs.medeleg e ≡ true))
    × (mode ≡ user_mode → delegates h.csrs.sedeleg e ≡ true)

taken_lem :
    (e : SimulationTrap) (h : Hart) → IsLevel h.prv → e.mtval < 2 ^ 32 → Takes e h (take_trap e h)
unfolding take_trap
taken_lem e h (inl v) small = ground arith
taken_lem e h (inr (inl v)) small = ground arith
taken_lem e h (inr (inr v)) small = ground arith

too_wide : (e : SimulationTrap) (h : Hart) → 2 ^ 32 ≤ e.mtval → take_trap e h ≡ none
unfolding take_trap
too_wide e h wide = ground arith

-- On each of the three levels a trap whose value fits into 32 bits is taken: in machine mode unless it is
-- delegated, never in a mode below the current one, and in user mode only if it is delegated twice. The
-- mode's registers report the cause, the value and the instruction that trapped; execution goes on at the
-- handler's base; a reservation is lost. A trap with a wider value is not taken: an exception ends the
-- simulation.
pub take_trap-Takes :
    (e : SimulationTrap) (h : Hart)
    → IsLevel h.prv
    → ((e.mtval < 2 ^ 32) × Takes e h (take_trap e h))
      ⊎ ((2 ^ 32 ≤ e.mtval) × (take_trap e h ≡ none))
take_trap-Takes e h v = elim (below e.mtval (2 ^ 32)) [
  | inl small ↦ inl (small, taken_lem e h v small)
  | inr wide ↦ inr (wide, too_wide e h wide)
]
  where
    below : (n k : ℕ) → (n < k) ⊎ (k ≤ n)
    below n k = omega arith
