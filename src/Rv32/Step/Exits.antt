-- ===== src/Rv32/Step/Exits.antt =====
-- How a request to exit ends `ISS::run` (vp/src/core/rv32/iss.cpp).
use coverage_vp.Base.{ℕ, suc, ◌≡◌, refl, Bool, true, false, ◌==◌, ◌&&◌, if◌then◌else◌, Option, some}
use coverage_vp.Clover.Klee.{Klee}
use coverage_vp.Clover.Expr.{Builder, Meaning}
use coverage_vp.Clover.Value.{get_value}
use coverage_vp.Clover.Trace.{Query}
use coverage_vp.Rv32.Hart.{ok}
use coverage_vp.Rv32.Exec.Control.{Validity}
use coverage_vp.Rv32.Step.Machine.{MemoryIf, Machine}
use coverage_vp.Rv32.Step.Operands.{Flags}
use coverage_vp.Rv32.Step.Data.{write_regs}
use coverage_vp.Rv32.Step.System.{Environment}
use coverage_vp.Rv32.Step.Run.{
  finish_step, performance_and_sync_update, count_instruction, run_step, run, synced, started,
  is_runnable,
}
use coverage_vp.Rv32.Step.Finished.{
  Finished, returned, failed, elim-Finished, if-Finished, and_then-Finished, Anything,
  exec_or_trap-Finished, reset_regs, returned_state,
}

module _ (b : Builder) (m : Meaning b) (k : Klee) (embed : b.Expr → k.Expr)
    (evaluate : Query k → Option Validity) (mem : MemoryIf b) (Coverage : Type 0)
    (env : Environment b k embed evaluate mem Coverage)
    (cover : ℕ → Flags → Coverage → Coverage) where
  abbrev Iss : Type 0
  Iss = Machine b k embed evaluate mem Coverage

  -- The machine does not run on where an exit was asked for.
  record Stops (s : Iss) : Type 0 where
    stops : s.hart.shall_exit ≡ true → is_runnable s.hart.status ≡ false

  if-Stops : (x : Bool) (t u : Iss) → Stops t → (x ≡ false → Stops u) → Stops (if x then t else u)
  if-Stops true t u p q = p
  if-Stops false t u p q = q refl

  update-Stops :
      (s : Iss)
      → Stops s
      → Stops (performance_and_sync_update b k embed evaluate mem Coverage env cover s.op s)
  unfolding performance_and_sync_update count_instruction
  update-Stops s p = record { stops = p.stops }

  finish_step-Stops :
      (s : Iss) → Finished Stops (finish_step b k embed evaluate mem Coverage env cover s)
  unfolding finish_step write_regs
  finish_step-Stops s =
      rw (write_regs, reset_regs b m k embed evaluate mem Coverage env cover s.regs)
        (returned (
          update-Stops _ (
            if-Stops s.hart.shall_exit _ _ (record { stops = λ _. refl })
              (λ f. record { stops = λ t. absurd cc }))))

  run_step-Stops : (s : Iss) → Finished Stops (run_step b k embed evaluate mem Coverage env cover s)
  unfolding run_step
  run_step-Stops s = elim-Finished Stops (get_value b (s.regs 0)) _ (λ n.
      if-Finished Stops (n == 0) _ _
        (λ _.
          if-Finished Stops (s.debug_mode && s.breakpoints s.hart.pc) _ _
            (λ _. returned (record { stops = λ _. refl }))
            (and_then-Finished Anything Stops _ _
              (exec_or_trap-Finished b m k embed evaluate mem Coverage env cover
                (started b k embed evaluate mem Coverage env cover s))
              (λ _ t _. finish_step-Stops t)))
        failed)

  ends :
      (fuel : ℕ) (s t : Iss)
      → run_step b k embed evaluate mem Coverage env cover s ≡ ok tt t
      → is_runnable t.hart.status ≡ false
      → run b k embed evaluate mem Coverage env cover (suc fuel) s
        ≡ some (ok tt (synced b k embed evaluate mem Coverage env cover t))
  unfolding run
  ends fuel s t e f = rw (run, e, f) refl

  -- A run ends with the first step that leaves an exit asked for, after it has synchronised.
  pub run-shall_exit :
      (fuel : ℕ) (s t : Iss)
      → run_step b k embed evaluate mem Coverage env cover s ≡ ok tt t
      → t.hart.shall_exit ≡ true
      → run b k embed evaluate mem Coverage env cover (suc fuel) s
        ≡ some (ok tt (synced b k embed evaluate mem Coverage env cover t))
  run-shall_exit fuel s t e x = ends fuel s t e (
      (returned_state b m k embed evaluate mem Coverage env cover Stops _ t (run_step-Stops s)
          e).stops
        x)
