-- ===== src/Rv32/Step/Finished.antt =====
-- How `ISS::run_step` and `ISS::run` of vp/src/core/rv32/iss.cpp end.
use coverage_vp.Base.{
  arith, ℕ, ◌≡◌, refl, subst, Bool, true, false, ◌==◌, ◌&&◌, if◌then◌else◌, Option, none, some,
  ==_iff,
}
use coverage_vp.Clover.Klee.{Klee}
use coverage_vp.Clover.Expr.{Builder, Meaning}
use coverage_vp.Clover.Value.{ConcolicValue, IntValue, bvc, get_value}
use coverage_vp.Clover.Value.Sound.{get_width-bvc, get_value-bvc}
use coverage_vp.Clover.Trace.{Query}
use coverage_vp.Rv32.Hart.{Outcome, ok, trap, thrown, hit_breakpoint}
use coverage_vp.Rv32.RegFile.{RegFile, write, with_register}
use coverage_vp.Rv32.Exec.Control.{Validity}
use coverage_vp.Rv32.Step.Machine.{MemoryIf, Machine, and_then}
use coverage_vp.Rv32.Step.Operands.{Flags}
use coverage_vp.Rv32.Step.Data.{write_regs}
use coverage_vp.Rv32.Step.System.{Environment}
use coverage_vp.Rv32.Step.Execute.{exec_step}
use coverage_vp.Rv32.Trap.Target.{take_trap}
use coverage_vp.Rv32.Trap.Pending.{take_interrupt}
use coverage_vp.Rv32.Step.Run.{
  exec_or_trap, finish_step, performance_and_sync_update, run_step, started,
}

-- The call returned in such a state, or ended by an exception that is no trap.
pub data Finished {S A : Type 0} (P : S → Type 0) : Outcome S A → Type 0 where
  returned : {a : A} {s : S} → P s → Finished P (ok a s)
  failed : Finished P thrown

pub elim-Finished :
    {S A X : Type 0} (P : S → Type 0) (o : Option X) (f : X → Outcome S A)
    → ((x : X) → Finished P (f x))
    → Finished P (elim o [ none ↦ thrown | some x ↦ f x ])
elim-Finished P none f q = failed
elim-Finished P (some x) f q = q x

pub if-Finished :
    {S A : Type 0} (P : S → Type 0) (t : Bool) (x y : Outcome S A)
    → (t ≡ true → Finished P x)
    → Finished P y
    → Finished P (if t then x else y)
if-Finished P true x y p q = p refl
if-Finished P false x y p q = q

pub and_then-Finished :
    {S A B : Type 0} (P Q : S → Type 0) (o : Outcome S A) (f : A → S → Outcome S B)
    → Finished P o
    → ((a : A) (s : S) → P s → Finished Q (f a s))
    → Finished Q (and_then o f)
and_then-Finished P Q (ok a s) f (returned p) q = q a s p
and_then-Finished P Q (trap e s) f p q = elim p [ ]
and_then-Finished P Q thrown f failed q = failed

abbrev pub Anything : {S : Type 0} → S → Type 0
Anything s = Unit {0}

module _ (b : Builder) (m : Meaning b) (k : Klee) (embed : b.Expr → k.Expr)
    (evaluate : Query k → Option Validity) (mem : MemoryIf b) (Coverage : Type 0)
    (env : Environment b k embed evaluate mem Coverage)
    (cover : ℕ → Flags → Coverage → Coverage) where
  abbrev Iss : Type 0
  Iss = Machine b k embed evaluate mem Coverage

  abbrev pub step : Iss → Outcome Iss (Unit {0})
  step s = run_step b k embed evaluate mem Coverage env cover s

  -- The register x0 holds zero.
  abbrev pub ZeroRegister : Iss → Type 0
  ZeroRegister s = get_value b (s.regs 0) ≡ some 0

  zero_word : ConcolicValue b
  zero_word = bvc b none (IntValue.u32 0)

  pub reset_regs :
      (regs : RegFile b)
      → write b regs 0 (bvc b none (IntValue.u32 0))
        ≡ some (with_register b regs 0 (bvc b none (IntValue.u32 0)))
  unfolding write
  reset_regs regs = rw (get_width-bvc b m 0) refl

  if-ZeroRegister :
      (x : Bool) (t u : Iss) → ZeroRegister t → ZeroRegister u → ZeroRegister (if x then t else u)
  if-ZeroRegister true t u p q = p
  if-ZeroRegister false t u p q = q

  finish_step-ZeroRegister :
      (s : Iss) → Finished ZeroRegister (finish_step b k embed evaluate mem Coverage env cover s)
  unfolding finish_step write_regs performance_and_sync_update
  finish_step-ZeroRegister s =
      let zeroed : get_value b (bvc b none (IntValue.u32 0)) ≡ some 0 =
        get_value-bvc b m 0 (omega arith) in
      rw (write_regs, reset_regs s.regs)
        (returned (if-ZeroRegister s.hart.shall_exit _ _ zeroed zeroed))

  pub exec_or_trap-Finished :
      (s : Iss) → Finished Anything (exec_or_trap b k embed evaluate mem Coverage env cover s)
  unfolding exec_or_trap
  exec_or_trap-Finished s = handled (exec_step b k embed evaluate mem Coverage env cover s)
    where
      handled :
          (o : Outcome Iss (Unit {0}))
          → Finished Anything (elim o [
            | ok _ t ↦ elim (take_interrupt t.hart) [
              | none ↦ thrown
              | some h ↦ ok tt (record t { hart = h })
            ]
            | trap e t ↦ elim (take_trap e t.hart) [
              | none ↦ thrown
              | some (mode, h) ↦ ok tt (record t { hart = h })
            ]
            | thrown ↦ thrown
          ])
      handled (ok a t) = elim-Finished Anything (take_interrupt t.hart) _ (λ h. returned tt)
      handled (trap e t) = elim-Finished Anything (take_trap e t.hart) _ (λ h. returned tt)
      handled thrown = failed

  -- A step hands no trap on, and where it returns, x0 holds zero: the assertion that the next step begins
  -- with does not fail.
  pub run_step-Finished : (s : Iss) → Finished ZeroRegister (step s)
  unfolding run_step
  run_step-Finished s = asserted (get_value b (s.regs 0)) refl
    where
      resumed : Finished ZeroRegister (
          and_then
            (exec_or_trap b k embed evaluate mem Coverage env cover
              (started b k embed evaluate mem Coverage env cover s))
            (λ _ t. finish_step b k embed evaluate mem Coverage env cover t))
      resumed =
          and_then-Finished Anything ZeroRegister _ _
            (exec_or_trap-Finished (started b k embed evaluate mem Coverage env cover s))
            (λ _ t _. finish_step-ZeroRegister t)

      asserted :
          (o : Option ℕ)
          → get_value b (s.regs 0) ≡ o
          → Finished ZeroRegister (elim o [
            | none ↦ thrown
            | some n ↦
                if n == 0
                then (if s.debug_mode && s.breakpoints s.hart.pc
                    then ok tt (record s { hart = record (s.hart) { status = hit_breakpoint } })
                    else and_then
                        (exec_or_trap b k embed evaluate mem Coverage env cover
                          (started b k embed evaluate mem Coverage env cover s))
                        (λ _ t. finish_step b k embed evaluate mem Coverage env cover t))
                else thrown
          ])
      asserted none e = failed
      asserted (some n) e =
          if-Finished ZeroRegister (n == 0) _ _
            (λ t.
              let zeroed : get_value b (s.regs 0) ≡ some 0 =
                subst (λ i. get_value b (s.regs 0) ≡ some i) ((==_iff n 0).0 t) e in
              if-Finished ZeroRegister (s.debug_mode && s.breakpoints s.hart.pc) _ _
                (λ _. returned zeroed) resumed)
            failed

  pub returned_state :
      (P : Iss → Type 0) (o : Outcome Iss (Unit {0})) (t : Iss) → Finished P o → o ≡ ok tt t → P t
  returned_state P (ok a s) t (returned p) e = let same : s ≡ t = cc in subst P same p
  returned_state P (trap a s) t f e = elim f [ ]
  returned_state P thrown t f e = absurd cc
