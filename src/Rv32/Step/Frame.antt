-- ===== src/Rv32/Step/Frame.antt =====
-- `ISS::exec_step` of vp/src/core/rv32/iss.cpp leaves the address of the instruction and the request to
-- exit as they were, where no system call is emulated.
pub mod System
pub mod Whole
use coverage_vp.Base.{
  ℕ, ◌%◌, bit_and, bit_or, ◌≡◌, refl, sym, ap, ◌∙◌, subst, Bool, true, false, not, ◌==◌, ◌&&◌,
  if◌then◌else◌, Option, none, some,
}
use coverage_vp.Clover.Klee.{Klee}
use coverage_vp.Clover.Expr.{Builder}
use coverage_vp.Clover.Value.{ConcolicValue, IntValue, bvc, get_value, is_symbolic}
use coverage_vp.Clover.Trace.{Query}
use coverage_vp.Rv32.Hart.{Hart, Outcome, ok, trap, thrown}
use coverage_vp.Rv32.Access.{is_invalid_csr_access, get_csr_value, set_csr_value}
use coverage_vp.Rv32.Instr.{csr, zimm, rd, rs1, rs2}
use coverage_vp.Rv32.Instr.Pattern.{Mapping}
use coverage_vp.Rv32.RegFile.{write}
use coverage_vp.Rv32.Word.{bit_not, nonzero}
use coverage_vp.Rv32.Exec.Control.{Validity}
use coverage_vp.Rv32.Step.Machine.{
  MemoryIf, Machine, and_then, on_part, on_hart, on_memory, or_thrown,
}
use coverage_vp.Rv32.Step.Data.{
  write_regs, trap_check_addr_alignment, load_from, store_to, exec_access, Load, Store,
}
use coverage_vp.Rv32.Step.System.{
  Environment, exec_system, checked, read_csr, write_csr, write_rd, read_to_rd, exec_csrrw,
  exec_csrrs, exec_csrrc, exec_csrrwi, exec_csrrsi, exec_csrrci,
}
use coverage_vp.Rv32.Step.Kept.{
  Leaves, by_ok, by_trap, by_thrown, if-Leaves, and_then-Leaves, on_part-Leaves, beside-Leaves,
  or_thrown-Leaves, elim-Leaves, MaybeLeaves, OnlyCsrs, is_invalid_csr_access-OnlyCsrs,
  get_csr_value-OnlyCsrs, set_csr_value-OnlyCsrs,
}

module _ (b : Builder) (k : Klee) (embed : b.Expr → k.Expr) (evaluate : Query k → Option Validity)
    (mem : MemoryIf b) (Coverage : Type 0) where
  abbrev Iss : Type 0
  Iss = Machine b k embed evaluate mem Coverage

  module _ (l : ℕ) (x : Bool) where
    -- The state has this `last_pc` and this `shall_exit`.
    pub record Frame (s : Iss) : Type 0 where
      pub address : s.hart.last_pc ≡ l
      pub exit : s.hart.shall_exit ≡ x

    pub write_regs-Frame :
        (r : ℕ) (v : ConcolicValue b) (s : Iss)
        → Frame s
        → Leaves Frame (write_regs b k embed evaluate mem Coverage r v s)
    unfolding write_regs
    write_regs-Frame r v s f =
        elim-Leaves Frame (write b s.regs r v) thrown (λ regs. ok tt (record s { regs = regs }))
          by_thrown (λ regs. by_ok (record { address = f.address; exit = f.exit }))

    on_memory-Frame :
        {A : Type 0} (o : Outcome (mem.State) A) (s : Iss)
        → Frame s
        → Leaves Frame (on_memory b k embed evaluate mem Coverage o s)
    on_memory-Frame o s f =
        beside-Leaves Frame (λ m. record s { memory = m }) o
          (λ m. record { address = f.address; exit = f.exit })

    pub on_csrs-Frame :
        {A : Type 0} (o : Outcome Hart A) (s : Iss)
        → Frame s
        → Leaves (OnlyCsrs s.hart) o
        → Leaves Frame (on_hart b k embed evaluate mem Coverage o s)
    on_csrs-Frame o s f p =
        on_part-Leaves Frame (OnlyCsrs s.hart) (λ h. record s { hart = h }) o p
          (λ h q. record {
            address = ap (λ t. t.last_pc) q.rest ∙ f.address;
            exit = ap (λ t. t.shall_exit) q.rest ∙ f.exit;
          })

    alignment-Frame :
        (n : ℕ) (is_load : Bool) (addr : ConcolicValue b) (s : Iss)
        → Frame s
        → Leaves Frame (trap_check_addr_alignment b k embed evaluate mem Coverage n is_load addr s)
    unfolding trap_check_addr_alignment
    alignment-Frame n is_load addr s f =
        elim-Leaves Frame (get_value b addr) thrown _ by_thrown
          (λ caddr. if-Leaves Frame (nonzero (caddr % n)) _ _ (by_trap f) (by_ok f))

    load_from-Frame :
        (load : Load b mem) (addr : ConcolicValue b) (w : ℕ) (s : Iss)
        → Frame s
        → Leaves Frame (load_from b k embed evaluate mem Coverage load addr w s)
    unfolding load_from
    load_from-Frame load addr w s f =
        and_then-Leaves Frame _ _ (on_memory-Frame (load addr s.hart s.memory) s f) (λ v t g.
          and_then-Leaves Frame _ _ (write_regs-Frame (rd w) v t g) (λ _ u i.
            if-Leaves Frame (is_symbolic b addr) _ _
              (by_ok (record { address = i.address; exit = i.exit })) (by_ok i)))

    store_to-Frame :
        (store : Store b mem) (addr : ConcolicValue b) (w : ℕ) (s : Iss)
        → Frame s
        → Leaves Frame (store_to b k embed evaluate mem Coverage store addr w s)
    unfolding store_to
    store_to-Frame store addr w s f =
        and_then-Leaves Frame _ _
          (on_memory-Frame (store addr (s.regs (rs2 w)) s.hart s.memory) s f) (λ _ t g. by_ok g)

    aligned-Frame :
        (n : ℕ) (is_load : Bool) (addr : ConcolicValue b) (s : Iss) (o : Iss → Outcome Iss Bool)
        → Frame s
        → ((t : Iss) → Frame t → Leaves Frame (o t))
        → Leaves Frame (
            and_then
              (trap_check_addr_alignment b k embed evaluate mem Coverage n is_load addr s)
              (λ _ t. o t))
    aligned-Frame n is_load addr s o f p =
        and_then-Leaves Frame _ _ (alignment-Frame n is_load addr s f) (λ _ t g. p t g)

    pub exec_access-Frame :
        (m : Mapping) (w : ℕ) (s : Iss)
        → Frame s
        → MaybeLeaves Frame (exec_access b k embed evaluate mem Coverage m w s)
    unfolding exec_access
    exec_access-Frame Mapping.sb w s f = store_to-Frame _ _ w s f
    exec_access-Frame Mapping.sh w s f = aligned-Frame 2 false _ s _ f (store_to-Frame _ _ w)
    exec_access-Frame Mapping.sw w s f = aligned-Frame 4 false _ s _ f (store_to-Frame _ _ w)
    exec_access-Frame Mapping.lb w s f = load_from-Frame _ _ w s f
    exec_access-Frame Mapping.lh w s f = aligned-Frame 2 true _ s _ f (load_from-Frame _ _ w)
    exec_access-Frame Mapping.lw w s f = aligned-Frame 4 true _ s _ f (load_from-Frame _ _ w)
    exec_access-Frame Mapping.lbu w s f = load_from-Frame _ _ w s f
    exec_access-Frame Mapping.lhu w s f = aligned-Frame 2 true _ s _ f (load_from-Frame _ _ w)
    exec_access-Frame m w s f = tt
