-- ===== src/Rv32/Step/Trapped.antt =====
-- What `ISS::run_step` of vp/src/core/rv32/iss.cpp records of an instruction that traps.
use coverage_vp.Base.{
  ℕ, ◌^◌, ◌<◌, arith, inl, inr, ◌∙◌, ◌≡◌, ◌==◌, if◌then◌else◌, Option, none, some,
}
use coverage_vp.Rv32.Csr.{CsrTable}
use coverage_vp.Rv32.Hart.{Hart, SimulationTrap, machine_mode, supervisor_mode}
use coverage_vp.Rv32.Trap.{cause}
use coverage_vp.Rv32.Trap.Target.{IsLevel, Takes, Reports, take_trap, take_trap-Takes}

-- The registers of a level that describe a trap.
abbrev pub trap_address : ℕ → CsrTable → ℕ
trap_address mode c =
    if mode == machine_mode then c.mepc else if mode == supervisor_mode then c.sepc else c.uepc

abbrev pub trap_cause : ℕ → CsrTable → ℕ
trap_cause mode c =
    if mode == machine_mode
    then c.mcause
    else if mode == supervisor_mode
    then c.scause
    else c.ucause

abbrev pub trap_value : ℕ → CsrTable → ℕ
trap_value mode c =
    if mode == machine_mode then c.mtval else if mode == supervisor_mode then c.stval else c.utval

-- The level that the hart is in after the trap has the instruction's address, the exception code and the
-- value of the trap in its registers.
pub record Recorded (e : SimulationTrap) (address : ℕ) (h : Hart) : Type 0 where
  pub at : trap_address h.prv h.csrs ≡ address
  pub reason : trap_cause h.prv h.csrs ≡ cause 0 e.reason
  pub value : trap_value h.prv h.csrs ≡ e.mtval

-- The trap was taken.
pub data InHandler (e : SimulationTrap) (address : ℕ) : Option (ℕ × Hart) → Type 0 where
  in_handler : {mode : ℕ} {h : Hart} → Recorded e address h → InHandler e address (some (mode, h))

module _ (e : SimulationTrap) (h : Hart) where
  Reports-Recorded :
      (mode : ℕ) (u : Hart) → u.prv ≡ mode → Reports mode e h u → Recorded e h.last_pc u
  Reports-Recorded mode u p (inl (q, cause_is, value_is, at_is, base)) =
      let level = p ∙ q in
      record { at = rw level at_is; reason = rw level cause_is; value = rw level value_is }
  Reports-Recorded mode u p (inr (inl (q, cause_is, value_is, at_is, base))) =
      let level = p ∙ q in
      record { at = rw level at_is; reason = rw level cause_is; value = rw level value_is }
  Reports-Recorded mode u p (inr (inr (q, cause_is, value_is, at_is, base))) =
      let level = p ∙ q in
      record { at = rw level at_is; reason = rw level cause_is; value = rw level value_is }

  taken : (o : Option (ℕ × Hart)) → Takes e h o → InHandler e h.last_pc o
  taken none p = elim p [ ]
  taken (some (mode, u)) (level, above, reservation, reports, machine, user) =
      in_handler (Reports-Recorded mode u level reports)

  pub take_trap-InHandler : IsLevel h.prv → e.mtval < 2 ^ 32 → InHandler e h.last_pc (take_trap e h)
  take_trap-InHandler p small = elim (take_trap-Takes e h p) [
    | inl (_, takes) ↦ taken (take_trap e h) takes
    | inr (wide, _) ↦ absurd (omega arith)
  ]
