-- ===== src/Rv32/Step/Frame/System.antt =====
-- The instructions on control and status registers of vp/src/core/rv32/iss.cpp leave the address of the
-- instruction and the request to exit as they were.
use coverage_vp.Base.{ℕ, bit_and, bit_or, Bool, true, false, not, ◌==◌, if◌then◌else◌, Option, none}
use coverage_vp.Clover.Klee.{Klee}
use coverage_vp.Clover.Expr.{Builder}
use coverage_vp.Clover.Value.{IntValue, bvc, get_value}
use coverage_vp.Clover.Trace.{Query}
use coverage_vp.Rv32.Hart.{Outcome, ok}
use coverage_vp.Rv32.Access.{is_invalid_csr_access, get_csr_value, set_csr_value}
use coverage_vp.Rv32.Instr.{csr, zimm, rd, rs1}
use coverage_vp.Rv32.Word.{bit_not}
use coverage_vp.Rv32.Exec.Control.{Validity}
use coverage_vp.Rv32.Step.Machine.{MemoryIf, Machine}
use coverage_vp.Rv32.Step.System.{
  Environment, checked, read_csr, write_csr, write_rd, read_to_rd, exec_csrrw, exec_csrrs,
  exec_csrrc, exec_csrrwi, exec_csrrsi, exec_csrrci,
}
use coverage_vp.Rv32.Step.Kept.{
  Leaves, by_ok, by_trap, if-Leaves, and_then-Leaves, or_thrown-Leaves,
  is_invalid_csr_access-OnlyCsrs, get_csr_value-OnlyCsrs, set_csr_value-OnlyCsrs,
}
use coverage_vp.Rv32.Step.Frame.{Frame, write_regs-Frame, on_csrs-Frame}

module _ (b : Builder) (k : Klee) (embed : b.Expr → k.Expr) (evaluate : Query k → Option Validity)
    (mem : MemoryIf b) (Coverage : Type 0) where
  abbrev Iss : Type 0
  Iss = Machine b k embed evaluate mem Coverage

  module _ (l : ℕ) (x : Bool) where
    abbrev Framed : Iss → Type 0
    Framed = Frame b k embed evaluate mem Coverage l x

    module _ (env : Environment b k embed evaluate mem Coverage) where
      checked-Frame :
          (w : ℕ) (is_write : Bool) (s : Iss) (o : Iss → Outcome Iss Bool)
          → Framed s
          → ((t : Iss) → Framed t → Leaves Framed (o t))
          → Leaves Framed (checked b k embed evaluate mem Coverage env w is_write s o)
      checked-Frame w is_write s o f p =
          and_then-Leaves Framed _ _
            (on_csrs-Frame b k embed evaluate mem Coverage l x
              (is_invalid_csr_access w (csr w) is_write s.hart) s f
              (is_invalid_csr_access-OnlyCsrs s.hart w (csr w) is_write))
            (λ invalid t g. if-Leaves Framed invalid _ _ (by_trap g) (p t g))

      read_csr-Frame :
          (w : ℕ) (s : Iss)
          → Framed s
          → Leaves Framed (read_csr b k embed evaluate mem Coverage env w s)
      read_csr-Frame w s f =
          on_csrs-Frame b k embed evaluate mem Coverage l x
            (get_csr_value (env.mtime s.memory) w (csr w) s.hart) s f
            (get_csr_value-OnlyCsrs s.hart (env.mtime s.memory) w (csr w))

      write_csr-Frame :
          (w v : ℕ) (s : Iss)
          → Framed s
          → Leaves Framed (write_csr b k embed evaluate mem Coverage env w v s)
      write_csr-Frame w v s f =
          and_then-Leaves Framed _ _
            (on_csrs-Frame b k embed evaluate mem Coverage l x (set_csr_value w (csr w) v s.hart) s
              f (set_csr_value-OnlyCsrs s.hart w (csr w) v))
            (λ _ t g. by_ok g)

      write_rd-Frame :
          (w v : ℕ) (s : Iss)
          → Framed s
          → Leaves Framed (write_rd b k embed evaluate mem Coverage env w v s)
      write_rd-Frame w v s f = if-Leaves Framed (rd w == 0) _ _ (by_ok f) (
          write_regs-Frame b k embed evaluate mem Coverage l x (rd w) (bvc b none (IntValue.u32 v))
            s f)

      read_to_rd-Frame :
          (w : ℕ) (s : Iss)
          → Framed s
          → Leaves Framed (read_to_rd b k embed evaluate mem Coverage env w s)
      read_to_rd-Frame w s f =
          if-Leaves Framed (rd w == 0) _ _ (by_ok f)
            (and_then-Leaves Framed _ _ (read_csr-Frame w s f) (λ v t g. write_rd-Frame w v t g))

      -- The end of the cases that write only for a nonzero operand.
      write_if-Frame :
          (t : Bool) (w v : ℕ) (s : Iss)
          → Framed s
          → Leaves Framed
              (if t then write_csr b k embed evaluate mem Coverage env w v s else ok false s)
      write_if-Frame t w v s f = if-Leaves Framed t _ _ (write_csr-Frame w v s f) (by_ok f)

      pub csrrw-Frame :
          (w : ℕ) (s : Iss)
          → Framed s
          → Leaves Framed (exec_csrrw b k embed evaluate mem Coverage env w s)
      unfolding exec_csrrw
      csrrw-Frame w s f = checked-Frame w true s _ f (λ t g.
          and_then-Leaves Framed _ _ (read_to_rd-Frame w t g) (λ _ u i.
            and_then-Leaves Framed _ _ (or_thrown-Leaves Framed (get_value b (t.regs (rs1 w))) u i)
              (λ v y j. write_csr-Frame w v y j)))

      pub csrrs-Frame :
          (w : ℕ) (s : Iss)
          → Framed s
          → Leaves Framed (exec_csrrs b k embed evaluate mem Coverage env w s)
      unfolding exec_csrrs
      csrrs-Frame w s f = checked-Frame w (not (rs1 w == 0)) s _ f (λ t g.
          and_then-Leaves Framed _ _ (read_csr-Frame w t g) (λ v u i.
            and_then-Leaves Framed _ _ (write_rd-Frame w v u i) (λ _ y j.
              if-Leaves Framed (not (rs1 w == 0)) _ _
                (and_then-Leaves Framed _ _
                  (or_thrown-Leaves Framed (get_value b (t.regs (rs1 w))) y j)
                  (λ n z o. write_csr-Frame w (bit_or v n) z o))
                (by_ok j))))

      pub csrrc-Frame :
          (w : ℕ) (s : Iss)
          → Framed s
          → Leaves Framed (exec_csrrc b k embed evaluate mem Coverage env w s)
      unfolding exec_csrrc
      csrrc-Frame w s f = checked-Frame w (not (rs1 w == 0)) s _ f (λ t g.
          and_then-Leaves Framed _ _ (or_thrown-Leaves Framed (get_value b (t.regs (rs1 w))) t g)
            (λ n z o. and_then-Leaves Framed _ _ (read_csr-Frame w z o) (λ v u i.
              and_then-Leaves Framed _ _ (write_rd-Frame w v u i)
                (λ _ y j. write_if-Frame (not (rs1 w == 0)) w (bit_and v (bit_not n)) y j))))

      pub csrrwi-Frame :
          (w : ℕ) (s : Iss)
          → Framed s
          → Leaves Framed (exec_csrrwi b k embed evaluate mem Coverage env w s)
      unfolding exec_csrrwi
      csrrwi-Frame w s f = checked-Frame w true s _ f (λ t g.
          and_then-Leaves Framed _ _ (read_to_rd-Frame w t g)
            (λ _ u i. write_csr-Frame w (zimm w) u i))

      pub csrrsi-Frame :
          (w : ℕ) (s : Iss)
          → Framed s
          → Leaves Framed (exec_csrrsi b k embed evaluate mem Coverage env w s)
      unfolding exec_csrrsi
      csrrsi-Frame w s f = checked-Frame w (not (zimm w == 0)) s _ f (λ t g.
          and_then-Leaves Framed _ _ (read_csr-Frame w t g) (λ v u i.
            and_then-Leaves Framed _ _ (write_rd-Frame w v u i)
              (λ _ y j. write_if-Frame (not (zimm w == 0)) w (bit_or v (zimm w)) y j)))

      pub csrrci-Frame :
          (w : ℕ) (s : Iss)
          → Framed s
          → Leaves Framed (exec_csrrci b k embed evaluate mem Coverage env w s)
      unfolding exec_csrrci
      csrrci-Frame w s f = checked-Frame w (not (zimm w == 0)) s _ f (λ t g.
          and_then-Leaves Framed _ _ (read_csr-Frame w t g) (λ v u i.
            and_then-Leaves Framed _ _ (write_rd-Frame w v u i)
              (λ _ y j. write_if-Frame (not (zimm w == 0)) w (bit_and v (bit_not (zimm w))) y j)))
