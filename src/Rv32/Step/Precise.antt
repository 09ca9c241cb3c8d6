-- ===== src/Rv32/Step/Precise.antt =====
-- The traps of `ISS::run_step` (vp/src/core/rv32/iss.cpp) are precise about the instruction.
use coverage_vp.Base.{
  ℕ, ◌^◌, ◌<◌, ◌≡◌, refl, subst, Bool, true, false, ◌&&◌, if◌then◌else◌, Option, none, some,
}
use coverage_vp.Clover.Klee.{Klee}
use coverage_vp.Clover.Expr.{Builder, Meaning}
use coverage_vp.Clover.Trace.{Query}
use coverage_vp.Rv32.Hart.{Hart, Outcome, ok, trap, thrown, SimulationTrap}
use coverage_vp.Rv32.Exec.Control.{Validity}
use coverage_vp.Rv32.Step.Machine.{MemoryIf, Machine, and_then}
use coverage_vp.Rv32.Step.Operands.{Flags}
use coverage_vp.Rv32.Step.Data.{write_regs}
use coverage_vp.Rv32.Step.System.{Environment}
use coverage_vp.Rv32.Step.Execute.{exec_step}
use coverage_vp.Rv32.Trap.Target.{IsLevel, take_trap}
use coverage_vp.Rv32.Step.Run.{
  exec_or_trap, finish_step, performance_and_sync_update, count_instruction, run_step, started,
}
use coverage_vp.Rv32.Step.Kept.{Leaves, by_trap}
use coverage_vp.Rv32.Step.Frame.{Frame}
use coverage_vp.Rv32.Step.Frame.Whole.{exec_step-Frame}
use coverage_vp.Rv32.Step.Finished.{ZeroRegister, reset_regs}
use coverage_vp.Rv32.Step.Trapped.{Recorded, InHandler, in_handler, take_trap-InHandler}

-- The call returns, in such a state.
pub data Returns {S A : Type 0} (P : S → Type 0) : Outcome S A → Type 0 where
  returns : {a : A} {s : S} → P s → Returns P (ok a s)

and_then-Returns :
    {S A B : Type 0} (P Q : S → Type 0) (o : Outcome S A) (f : A → S → Outcome S B)
    → Returns P o
    → ((a : A) (s : S) → P s → Returns Q (f a s))
    → Returns Q (and_then o f)
and_then-Returns P Q (ok a s) f (returns p) q = q a s p
and_then-Returns P Q (trap e s) f p q = elim p [ ]
and_then-Returns P Q thrown f p q = elim p [ ]

module _ (b : Builder) (m : Meaning b) (k : Klee) (embed : b.Expr → k.Expr)
    (evaluate : Query k → Option Validity) (mem : MemoryIf b) (Coverage : Type 0)
    (env : Environment b k embed evaluate mem Coverage)
    (cover : ℕ → Flags → Coverage → Coverage) where
  abbrev Iss : Type 0
  Iss = Machine b k embed evaluate mem Coverage

  if-Recorded :
      (e : SimulationTrap) (a : ℕ) (x : Bool) (t u : Iss)
      → Recorded e a t.hart
      → Recorded e a u.hart
      → Recorded e a ((if x then t else u).hart)
  if-Recorded e a true t u p q = p
  if-Recorded e a false t u p q = q

  update-Recorded :
      (e : SimulationTrap) (a : ℕ) (s : Iss)
      → Recorded e a s.hart
      → Recorded e a
          ((performance_and_sync_update b k embed evaluate mem Coverage env cover s.op s).hart)
  unfolding performance_and_sync_update count_instruction
  update-Recorded e a s r = record { at = r.at; reason = r.reason; value = r.value }

  finish_step-Recorded :
      (e : SimulationTrap) (a : ℕ) (s : Iss)
      → Recorded e a s.hart
      → Returns (λ u. Recorded e a u.hart) (finish_step b k embed evaluate mem Coverage env cover s)
  unfolding finish_step write_regs
  finish_step-Recorded e a s r =
      rw (write_regs, reset_regs b m k embed evaluate mem Coverage env cover s.regs)
        (returns (
          update-Recorded e a _ (
            if-Recorded e a s.hart.shall_exit _ _
              (record { at = r.at; reason = r.reason; value = r.value }) r)))

  module _ (s t : Iss) (e : SimulationTrap) where
    trapped_address :
        (l : ℕ) (x : Bool) (o : Outcome Iss (Unit {0}))
        → Leaves (Frame b k embed evaluate mem Coverage l x) o
        → o ≡ trap e t
        → t.hart.last_pc ≡ l
    trapped_address l x (ok a u) p c = absurd cc
    trapped_address l x (trap d u) (by_trap f) c =
        let same : u ≡ t = cc in subst (λ v. v.hart.last_pc ≡ l) same f.address
    trapped_address l x thrown p c = absurd cc

    exec_or_trap-Recorded :
        env.sys ≡ none
        → exec_step b k embed evaluate mem Coverage env cover s ≡ trap e t
        → IsLevel t.hart.prv
        → e.mtval < 2 ^ 32
        → Returns
            (λ u. Recorded e s.hart.last_pc u.hart)
            (exec_or_trap b k embed evaluate mem Coverage env cover s)
    unfolding exec_or_trap
    exec_or_trap-Recorded no_syscalls c p small =
        let kept =
          exec_step-Frame b k embed evaluate mem Coverage s.hart.last_pc s.hart.shall_exit env cover
            no_syscalls s (record { address = refl; exit = refl }) in
        let address = trapped_address s.hart.last_pc s.hart.shall_exit _ kept c in
        rw (exec_or_trap, c)
          (handled (take_trap e t.hart) (
            subst (λ l. InHandler e l (take_trap e t.hart)) address
              (take_trap-InHandler e t.hart p small)))
      where
        handled :
            (o : Option (ℕ × Hart))
            → InHandler e s.hart.last_pc o
            → Returns
                (λ u. Recorded e s.hart.last_pc u.hart)
                (elim o [ none ↦ thrown | some (mode, h) ↦ ok tt (record t { hart = h }) ])
        handled none p = elim p [ ]
        handled (some (mode, h)) (in_handler p) = returns p

  -- Where no system call is emulated, a step whose instruction traps, from a machine that holds zero in x0
  -- and is at no breakpoint, returns: the hart has then entered a handler, and the registers of the
  -- handler's level hold the instruction's address, the exception code and the value of the trap, if the
  -- trap was raised on one of the three levels with a value of 32 bits.
  pub run_step-Recorded :
      (s t : Iss) (e : SimulationTrap)
      → env.sys ≡ none
      → ZeroRegister b m k embed evaluate mem Coverage env cover s
      → (s.debug_mode && s.breakpoints s.hart.pc) ≡ false
      → exec_step b k embed evaluate mem Coverage env cover
          (started b k embed evaluate mem Coverage env cover s)
        ≡ trap e t
      → IsLevel t.hart.prv
      → e.mtval < 2 ^ 32
      → Returns
          (λ u. Recorded e s.hart.pc u.hart)
          (run_step b k embed evaluate mem Coverage env cover s)
  unfolding run_step
  run_step-Recorded s t e no_syscalls z no_break c p small =
      let now = started b k embed evaluate mem Coverage env cover s in
      rw (run_step, z, no_break)
        (and_then-Returns (λ u. Recorded e s.hart.pc u.hart) (λ u. Recorded e s.hart.pc u.hart) _ _
          (exec_or_trap-Recorded now t e no_syscalls c p small)
          (λ _ u r. finish_step-Recorded e s.hart.pc u r))
