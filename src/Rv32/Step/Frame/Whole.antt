-- ===== src/Rv32/Step/Frame/Whole.antt =====
-- The whole of `ISS::exec_step` of vp/src/core/rv32/iss.cpp leaves the address of the instruction and the
-- request to exit as they were, where no system call is emulated.
use coverage_vp.Base.{ℕ, bit_and, ◌≡◌, Bool, false, not, ◌==◌, ◌&&◌, Option, none, some}
use coverage_vp.Clover.Klee.{Klee}
use coverage_vp.Clover.Expr.{Builder}
use coverage_vp.Clover.Trace.{Query}
use coverage_vp.Rv32.Access.{pc_alignment_mask}
use coverage_vp.Rv32.Compressed.Expand.{decode_and_expand_compressed}
use coverage_vp.Rv32.Decode.Match.{Architecture}
use coverage_vp.Rv32.Hart.{
  Outcome, ok, trap, thrown, has_c_extension, machine_mode, supervisor_mode, user_mode,
  has_supervisor_mode_extension,
}
use coverage_vp.Rv32.Instr.{is_compressed}
use coverage_vp.Rv32.Instr.Pattern.{Mapping}
use coverage_vp.Rv32.Trap.{return_from_trap_handler}
use coverage_vp.Rv32.Word.{bit_not, nonzero, is_set}
use coverage_vp.Rv32.Exec.Alu.{exec_computed}
use coverage_vp.Rv32.Exec.Control.{Validity, comparison, Core}
use coverage_vp.Rv32.Step.Machine.{MemoryIf, Machine, on_core, with_core}
use coverage_vp.Rv32.Step.Operands.{Flags, operand_flags}
use coverage_vp.Rv32.Step.Data.{exec_access}
use coverage_vp.Rv32.Step.System.{
  Environment, exec_system, raise_ecall, exec_ecall, exec_wfi, exec_mret,
}
use coverage_vp.Rv32.Step.Execute.{
  exec_compute, exec_compare, exec_jump, execute, or_else, fetch, decode, is_undef, exec_step, done,
}
use coverage_vp.Rv32.Step.Kept.{
  Leaves, by_ok, by_trap, by_thrown, if-Leaves, and_then-Leaves, beside-Leaves, or_thrown-Leaves,
  elim-Leaves, MaybeLeaves, elim-MaybeLeaves,
}
use coverage_vp.Rv32.Step.Frame.{Frame, exec_access-Frame}
use coverage_vp.Rv32.Step.Frame.System.{
  csrrw-Frame, csrrs-Frame, csrrc-Frame, csrrwi-Frame, csrrsi-Frame, csrrci-Frame,
}

module _ (b : Builder) (k : Klee) (embed : b.Expr → k.Expr) (evaluate : Query k → Option Validity)
    (mem : MemoryIf b) (Coverage : Type 0) where
  abbrev Iss : Type 0
  Iss = Machine b k embed evaluate mem Coverage

  module _ (l : ℕ) (x : Bool) where
    abbrev Framed : Iss → Type 0
    Framed = Frame b k embed evaluate mem Coverage l x

    on_core-Frame :
        (o : Outcome (Core b k embed evaluate) (Unit {0})) (s : Iss)
        → Framed s
        → Leaves Framed
            (done b k embed evaluate mem Coverage (on_core b k embed evaluate mem Coverage o s))
    on_core-Frame o s f =
        and_then-Leaves Framed _ _
          (beside-Leaves Framed (with_core b k embed evaluate mem Coverage s) o
            (λ c. record { address = f.address; exit = f.exit }))
          (λ _ t g. by_ok g)

    exec_jump-Frame :
        (m : Mapping) (w : ℕ) (s : Iss)
        → Framed s
        → MaybeLeaves Framed (exec_jump b k embed evaluate mem Coverage m w s)
    unfolding exec_jump
    exec_jump-Frame Mapping.jal w s f = on_core-Frame _ s f
    exec_jump-Frame Mapping.jalr w s f = on_core-Frame _ s f
    exec_jump-Frame m w s f = tt

    exec_compare-Frame :
        (m : Mapping) (w : ℕ) (s : Iss)
        → Framed s
        → MaybeLeaves Framed (exec_compare b k embed evaluate mem Coverage m w s)
    unfolding exec_compare
    exec_compare-Frame m w s f = elim-MaybeLeaves Framed (comparison m) _ (λ o. on_core-Frame _ s f)

    exec_compute-Frame :
        (m : Mapping) (w : ℕ) (s : Iss)
        → Framed s
        → MaybeLeaves Framed (exec_compute b k embed evaluate mem Coverage m w s)
    unfolding exec_compute
    exec_compute-Frame m w s f =
        elim-MaybeLeaves Framed (exec_computed b m w s.hart.last_pc s.regs) _ (λ o.
          elim-Leaves Framed o thrown (λ regs. ok false (record s { regs = regs })) by_thrown
            (λ regs. by_ok (record { address = f.address; exit = f.exit })))

    or_else-Frame :
        (o : Option (Outcome Iss Bool)) (d : Outcome Iss Bool)
        → MaybeLeaves Framed o
        → Leaves Framed d
        → Leaves Framed (or_else b k embed evaluate mem Coverage o d)
    or_else-Frame none d p q = q
    or_else-Frame (some o) d p q = p

    module _ (env : Environment b k embed evaluate mem Coverage)
        (cover : ℕ → Flags → Coverage → Coverage) (no_syscalls : env.sys ≡ none) where
      raise_ecall-Frame :
          (s : Iss)
          → Framed s
          → Leaves Framed (raise_ecall b k embed evaluate mem Coverage env s.hart.last_pc s)
      raise_ecall-Frame s f = if-Leaves Framed (s.hart.prv == machine_mode) _ _ (by_trap f) (
          if-Leaves Framed (s.hart.prv == supervisor_mode) _ _ (by_trap f)
            (if-Leaves Framed (s.hart.prv == user_mode) _ _ (by_trap f) by_thrown))

      exec_ecall-Frame :
          (s : Iss)
          → Framed s
          → Leaves Framed (exec_ecall b k embed evaluate mem Coverage env s.hart.last_pc s)
      unfolding exec_ecall
      exec_ecall-Frame s f = rw no_syscalls (raise_ecall-Frame s f)

      exec_wfi-Frame :
          (w : ℕ) (s : Iss)
          → Framed s
          → Leaves Framed (exec_wfi b k embed evaluate mem Coverage env w s)
      unfolding exec_wfi
      exec_wfi-Frame w s f =
          if-Leaves Framed (s.hart.prv == supervisor_mode && is_set s.hart.csrs.mstatus 21) _ _
            (by_trap (record { address = f.address; exit = f.exit }))
            (if-Leaves Framed (s.hart.prv == user_mode && has_supervisor_mode_extension s.hart.csrs)
              _ _ (by_trap (record { address = f.address; exit = f.exit }))
              (if-Leaves Framed
                (not s.ignore_wfi && not (nonzero (bit_and s.hart.csrs.mie s.hart.csrs.mip))) _ _
                (by_ok (record { address = f.address; exit = f.exit }))
                (by_ok (record { address = f.address; exit = f.exit }))))

      exec_mret-Frame :
          (s : Iss) → Framed s → Leaves Framed (exec_mret b k embed evaluate mem Coverage env s)
      unfolding exec_mret return_from_trap_handler
      exec_mret-Frame s f = by_ok (record { address = f.address; exit = f.exit })

      exec_system-Frame :
          (m : Mapping) (w : ℕ) (s : Iss)
          → Framed s
          → Leaves Framed (exec_system b k embed evaluate mem Coverage env m w s.hart.last_pc s)
      unfolding exec_system
      exec_system-Frame Mapping.undef w s f = by_trap f
      exec_system-Frame Mapping.fence w s f = by_ok f
      exec_system-Frame Mapping.fence_i w s f = by_ok f
      exec_system-Frame Mapping.ecall w s f = exec_ecall-Frame s f
      exec_system-Frame Mapping.ebreak w s f = by_ok (record { address = f.address; exit = f.exit })
      exec_system-Frame Mapping.csrrw w s f =
          csrrw-Frame b k embed evaluate mem Coverage l x env w s f
      exec_system-Frame Mapping.csrrs w s f =
          csrrs-Frame b k embed evaluate mem Coverage l x env w s f
      exec_system-Frame Mapping.csrrc w s f =
          csrrc-Frame b k embed evaluate mem Coverage l x env w s f
      exec_system-Frame Mapping.csrrwi w s f =
          csrrwi-Frame b k embed evaluate mem Coverage l x env w s f
      exec_system-Frame Mapping.csrrsi w s f =
          csrrsi-Frame b k embed evaluate mem Coverage l x env w s f
      exec_system-Frame Mapping.csrrci w s f =
          csrrci-Frame b k embed evaluate mem Coverage l x env w s f
      exec_system-Frame Mapping.wfi w s f = exec_wfi-Frame w s f
      exec_system-Frame Mapping.mret w s f = exec_mret-Frame s f
      exec_system-Frame m w s f = by_thrown

      execute-Frame :
          (m : Mapping) (w : ℕ) (s : Iss)
          → Framed s
          → Leaves Framed (execute b k embed evaluate mem Coverage env cover m w s)
      unfolding execute
      execute-Frame m w s f =
          or_else-Frame (exec_compute b k embed evaluate mem Coverage m w s) _
            (exec_compute-Frame m w s f)
            (or_else-Frame (exec_access b k embed evaluate mem Coverage m w s) _
              (exec_access-Frame b k embed evaluate mem Coverage l x m w s f)
              (or_else-Frame (exec_compare b k embed evaluate mem Coverage m w s) _
                (exec_compare-Frame m w s f)
                (or_else-Frame (exec_jump b k embed evaluate mem Coverage m w s) _
                  (exec_jump-Frame m w s f) (exec_system-Frame m w s f))))

      fetch-Frame :
          (s : Iss) → Framed s → Leaves Framed (fetch b k embed evaluate mem Coverage env cover s)
      unfolding fetch
      fetch-Frame s f =
          if-Leaves Framed (nonzero (bit_and s.hart.pc (bit_not (pc_alignment_mask s.hart.csrs)))) _
            _ by_thrown (fetched (mem.load_instr s.hart.pc s.hart s.memory))
        where
          fetched :
              (o : Outcome (mem.State) ℕ)
              → Leaves Framed (elim o [
                | ok w m ↦ ok w (record s { memory = m })
                | trap e m ↦ trap e (record s { memory = m; op = Mapping.undef; instr = 0 })
                | thrown ↦ thrown
              ])
          fetched (ok w m) = by_ok (record { address = f.address; exit = f.exit })
          fetched (trap e m) = by_trap (record { address = f.address; exit = f.exit })
          fetched thrown = by_thrown

      decode-Frame :
          (w : ℕ) (s : Iss)
          → Framed s
          → Leaves Framed (decode b k embed evaluate mem Coverage env cover w s)
      unfolding decode
      decode-Frame w s f =
          if-Leaves Framed (is_compressed w) _ _
            (elim-Leaves Framed (decode_and_expand_compressed Architecture.rv32 w) thrown _
              by_thrown
              (λ c.
                if-Leaves Framed (is_undef (c.0)) _ _
                  (by_ok (record { address = f.address; exit = f.exit }))
                  (if-Leaves Framed (has_c_extension s.hart.csrs) _ _
                    (by_ok (record { address = f.address; exit = f.exit }))
                    (by_trap (record { address = f.address; exit = f.exit })))))
            (by_ok (record { address = f.address; exit = f.exit }))

      pub exec_step-Frame :
          (s : Iss)
          → Framed s
          → Leaves Framed (exec_step b k embed evaluate mem Coverage env cover s)
      unfolding exec_step
      exec_step-Frame s f = and_then-Leaves Framed _ _ (fetch-Frame s f) (λ w t g.
          and_then-Leaves Framed _ _ (decode-Frame w t g) (λ _ u i.
            and_then-Leaves Framed _ _
              (or_thrown-Leaves Framed (operand_flags b u.coverage u.op u.instr u.regs) u i)
              (λ _ v j. and_then-Leaves Framed _ _ (execute-Frame v.op v.instr v j) (λ _ z o.
                elim-Leaves Framed z.coverage thrown _ by_thrown
                  (λ _. by_ok (record { address = o.address; exit = o.exit }))))))
