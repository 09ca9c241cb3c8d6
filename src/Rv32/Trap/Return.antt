-- ===== src/Rv32/Trap/Return.antt =====
-- Entering a handler and returning from it (vp/src/core/rv32/iss.cpp).
use coverage_vp.Base.{ℕ, ◌<◌, ◌≡◌, sym, subst, ◌⊎◌, inl, inr, Option, none, some, arith}
use coverage_vp.Rv32.Word.{field}
use coverage_vp.Rv32.Hart.{Hart, machine_mode, supervisor_mode, user_mode}
use coverage_vp.Rv32.Trap.{switch_to_trap_handler, return_from_trap_handler}

-- The interrupt enable bit of a mode in `mstatus`, and the exception program counter of a mode.
abbrev pub enabled : ℕ → Hart → ℕ
enabled mode h = field h.csrs.mstatus mode 1

-- Entering the handler of a mode and returning from it at once.
pub enter_and_return : ℕ → Hart → Option Hart
unfolding switch_to_trap_handler return_from_trap_handler
enter_and_return mode h = elim (switch_to_trap_handler mode h) [
  | none ↦ none
  | some t ↦ return_from_trap_handler mode t
]

-- The hart goes on where it was, in the mode and with the interrupt enable bit that it had.
abbrev pub Resumes : ℕ → Hart → Option Hart → Type 0
Resumes mode h none = ⊥
Resumes mode h (some u) = (u.pc ≡ h.pc) × (u.prv ≡ h.prv) × (enabled mode u ≡ enabled mode h)

machine_Resumes : (h : Hart) → h.prv < 4 → Resumes machine_mode h (enter_and_return machine_mode h)
unfolding enter_and_return
machine_Resumes h v = ground arith

supervisor_Resumes :
    (h : Hart) → h.prv < 2 → Resumes supervisor_mode h (enter_and_return supervisor_mode h)
unfolding enter_and_return
supervisor_Resumes h v = ground arith

user_Resumes : (h : Hart) → h.prv ≡ 0 → Resumes user_mode h (enter_and_return user_mode h)
unfolding enter_and_return
user_Resumes h v = ground arith

-- The modes that a handler can be entered in: user mode traps from user mode only.
abbrev pub CanEnter : ℕ → Hart → Type 0
CanEnter mode h =
    ((mode ≡ machine_mode) × (h.prv < 4))
    ⊎ ((mode ≡ supervisor_mode) × (h.prv < 2))
    ⊎ ((mode ≡ user_mode) × (h.prv ≡ user_mode))

-- A handler that returns at once resumes the hart: in each mode that can take the trap, with the
-- program counter, the privilege level and the interrupt enable bit from before.
pub enter_and_return-Resumes :
    (mode : ℕ) (h : Hart) → CanEnter mode h → Resumes mode h (enter_and_return mode h)
enter_and_return-Resumes mode h (inl (e, v)) =
    subst (λ k. Resumes k h (enter_and_return k h)) (sym e) (machine_Resumes h v)
enter_and_return-Resumes mode h (inr (inl (e, v))) =
    subst (λ k. Resumes k h (enter_and_return k h)) (sym e) (supervisor_Resumes h v)
enter_and_return-Resumes mode h (inr (inr (e, v))) =
    subst (λ k. Resumes k h (enter_and_return k h)) (sym e) (user_Resumes h v)
