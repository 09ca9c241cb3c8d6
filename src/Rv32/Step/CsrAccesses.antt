-- ===== src/Rv32/Step/CsrAccesses.antt =====
-- The instructions on control and status registers of vp/src/core/rv32/iss.cpp against one description of
-- all six.
use coverage_vp.Base.{
  ℕ, ◌≡◌, refl, subst, bit_and, bit_or, Bool, true, false, not, ◌==◌, if◌then◌else◌, Option, none,
  some,
}
use coverage_vp.Clover.Klee.{Klee}
use coverage_vp.Clover.Expr.{Builder}
use coverage_vp.Clover.Value.{IntValue, bvc, get_value}
use coverage_vp.Clover.Trace.{Query}
use coverage_vp.Rv32.Hart.{Hart, Outcome, ok, trap, thrown}
use coverage_vp.Rv32.Access.{is_invalid_csr_access}
use coverage_vp.Rv32.Instr.{csr, zimm, rd, rs1}
use coverage_vp.Rv32.Instr.Pattern.{Mapping}
use coverage_vp.Rv32.Word.{bit_not}
use coverage_vp.Rv32.Exec.Control.{Validity}
use coverage_vp.Rv32.Step.Machine.{MemoryIf, Machine, and_then, on_hart}
use coverage_vp.Rv32.Step.Data.{write_regs}
use coverage_vp.Rv32.Step.System.{
  Environment, exec_system, checked, illegal_instruction, read_csr, write_csr, write_rd, exec_csrrw,
  exec_csrrs, exec_csrrc, exec_csrrwi, exec_csrrsi, exec_csrrci,
}

pub data CsrOperation : Type 0 where
  csr_write csr_set csr_clear : CsrOperation

-- What is written, from the old value and the operand.
unfoldable pub combined : CsrOperation → ℕ → ℕ → ℕ
combined csr_write old operand = operand
combined csr_set old operand = bit_or old operand
combined csr_clear old operand = bit_and old (bit_not operand)

-- The operation, and whether its operand is the immediate in the place of RS1.
unfoldable pub csr_operation : Mapping → Option (CsrOperation × Bool)
csr_operation Mapping.csrrw = some (csr_write, false)
csr_operation Mapping.csrrs = some (csr_set, false)
csr_operation Mapping.csrrc = some (csr_clear, false)
csr_operation Mapping.csrrwi = some (csr_write, true)
csr_operation Mapping.csrrsi = some (csr_set, true)
csr_operation Mapping.csrrci = some (csr_clear, true)
csr_operation m = none

-- The manual's table: a plain write does not read for the destination x0, and the others do not write for
-- the operand x0 or the immediate zero.
abbrev pub reads : CsrOperation → ℕ → Bool
reads csr_write w = not (rd w == 0)
reads csr_set w = true
reads csr_clear w = true

abbrev pub operand_field : Bool → ℕ → ℕ
operand_field immediate w = if immediate then zimm w else rs1 w

abbrev pub writes : CsrOperation → Bool → ℕ → Bool
writes csr_write immediate w = true
writes csr_set immediate w = not (operand_field immediate w == 0)
writes csr_clear immediate w = not (operand_field immediate w == 0)

module _ (b : Builder) (k : Klee) (embed : b.Expr → k.Expr) (evaluate : Query k → Option Validity)
    (mem : MemoryIf b) (Coverage : Type 0) (env : Environment b k embed evaluate mem Coverage) where
  abbrev Iss : Type 0
  Iss = Machine b k embed evaluate mem Coverage

  -- Behind the test of the access.
  abbrev pub csr_effect : CsrOperation → Bool → ℕ → ℕ → Iss → Outcome Iss Bool
  csr_effect o immediate operand w t =
      and_then (if reads o w then read_csr b k embed evaluate mem Coverage env w t else ok 0 t)
        (λ old u. and_then (write_rd b k embed evaluate mem Coverage env w old u) (λ _ v.
          if writes o immediate w
          then write_csr b k embed evaluate mem Coverage env w (combined o old operand) v
          else ok false v))

  abbrev pub expected_csr : CsrOperation → Bool → ℕ → ℕ → Iss → Outcome Iss Bool
  expected_csr o immediate operand w s =
      checked b k embed evaluate mem Coverage env w (writes o immediate w) s
        (csr_effect o immediate operand w)

  -- The test leaves the registers, so what follows it need only agree on machines with other harts.
  module _ (w : ℕ) (s : Iss) where
    put : Hart → Iss
    put h = record s { hart = h }

    checked_same :
        (x : Bool) (f g : Iss → Outcome Iss Bool)
        → ((h : Hart) → f (record s { hart = h }) ≡ g (record s { hart = h }))
        → checked b k embed evaluate mem Coverage env w x s f
          ≡ checked b k embed evaluate mem Coverage env w x s g
    checked_same x f g p = after (is_invalid_csr_access w (csr w) x s.hart)
      where
        after :
            (o : Outcome Hart Bool)
            → and_then (on_hart b k embed evaluate mem Coverage o s) (λ i t.
              if i then illegal_instruction b k embed evaluate mem Coverage env w t else f t)
              ≡ and_then (on_hart b k embed evaluate mem Coverage o s) (λ i t.
                if i then illegal_instruction b k embed evaluate mem Coverage env w t else g t)
        after (ok true h) = refl
        after (ok false h) = p h
        after (trap e h) = refl
        after thrown = refl

    -- A destination that is read for, or not.
    sequenced :
        (o : Outcome Iss ℕ) (d : ℕ → Iss → Outcome Iss (Unit {0})) (g : Iss → Outcome Iss Bool)
        → and_then (and_then o d) (λ _ u. g u)
          ≡ and_then o (λ old u. and_then (d old u) (λ _ v. g v))
    sequenced (ok v u) d g = refl
    sequenced (trap e u) d g = refl
    sequenced thrown d g = refl

    for_destination :
        (x : Bool) (t : Iss) (o : Outcome Iss ℕ) (d : ℕ → Iss → Outcome Iss (Unit {0}))
        (g : Iss → Outcome Iss Bool)
        → and_then
            (if x then ok tt t else and_then o (λ v u. if x then ok tt u else d v u))
            (λ _ u. g u)
          ≡ and_then
              (if not x then o else ok 0 t)
              (λ old u. and_then (if x then ok tt u else d old u) (λ _ v. g v))
    for_destination true t o d g = refl
    for_destination false t o d g = sequenced o d g

    csrrwi_lem :
        exec_csrrwi b k embed evaluate mem Coverage env w s
        ≡ expected_csr csr_write true (zimm w) w s
    unfolding exec_csrrwi combined
    csrrwi_lem = checked_same true _ _ (λ h.
        for_destination (rd w == 0) (record s { hart = h }) _
          (λ value t.
            write_regs b k embed evaluate mem Coverage (rd w) (bvc b none (IntValue.u32 value)) t)
          _)

    csrrsi_lem :
        exec_csrrsi b k embed evaluate mem Coverage env w s ≡ expected_csr csr_set true (zimm w) w s
    unfolding exec_csrrsi combined
    csrrsi_lem = refl

    csrrci_lem :
        exec_csrrci b k embed evaluate mem Coverage env w s
        ≡ expected_csr csr_clear true (zimm w) w s
    unfolding exec_csrrci combined
    csrrci_lem = refl

    module _ (v : ℕ) (e : get_value b (s.regs (rs1 w)) ≡ some v) where
      csrrw_lem :
          exec_csrrw b k embed evaluate mem Coverage env w s ≡ expected_csr csr_write false v w s
      unfolding exec_csrrw combined
      csrrw_lem = checked_same true _ _ (λ h. rw e (
          for_destination (rd w == 0) (record s { hart = h })
            (read_csr b k embed evaluate mem Coverage env w (record s { hart = h }))
            (λ value t.
              write_regs b k embed evaluate mem Coverage (rd w) (bvc b none (IntValue.u32 value)) t)
            (λ u. write_csr b k embed evaluate mem Coverage env w v u)))

      csrrs_lem :
          exec_csrrs b k embed evaluate mem Coverage env w s ≡ expected_csr csr_set false v w s
      unfolding exec_csrrs combined
      csrrs_lem = checked_same (not (rs1 w == 0)) _ _ (λ h. rw e refl)

      csrrc_lem :
          exec_csrrc b k embed evaluate mem Coverage env w s ≡ expected_csr csr_clear false v w s
      unfolding exec_csrrc combined
      csrrc_lem = checked_same (not (rs1 w == 0)) _ _ (λ h. rw e refl)

    -- The immediate, or the contents of RS1.
    abbrev pub operand_value : Bool → Option ℕ
    operand_value immediate = if immediate then some (zimm w) else get_value b (s.regs (rs1 w))

    abbrev Agrees : Outcome Iss Bool → ℕ → CsrOperation × Bool → Type 0
    Agrees r operand x =
        operand_value (x.1) ≡ some operand → r ≡ expected_csr (x.0) (x.1) operand w s

    literal :
        (r : Outcome Iss Bool) (operand : ℕ) (x y : CsrOperation × Bool)
        → some y ≡ some x
        → Agrees r operand y
        → Agrees r operand x
    literal r operand x y e p = let same : y ≡ x = cc in subst (Agrees r operand) same p

    immediate_lem :
        (o : CsrOperation) (r : Outcome Iss Bool) (operand : ℕ)
        → r ≡ expected_csr o true (zimm w) w s
        → Agrees r operand (o, true)
    immediate_lem o r operand p e =
        let same : zimm w ≡ operand = cc in subst (λ n. r ≡ expected_csr o true n w s) same p

    -- Each of the six instructions does what its row of the table says: behind the test of the access it
    -- reads the register, unless it is a plain write to x0, puts the old value in the destination, unless that
    -- is x0, and writes the new value, unless it sets or clears by x0 or by the immediate zero.
    pub exec_system-expected_csr :
        (m : Mapping) (o : CsrOperation) (immediate : Bool) (operand last_pc : ℕ)
        → csr_operation m ≡ some (o, immediate)
        → operand_value immediate ≡ some operand
        → exec_system b k embed evaluate mem Coverage env m w last_pc s
          ≡ expected_csr o immediate operand w s
    unfolding csr_operation exec_system
    exec_system-expected_csr Mapping.csrrw o i n l e v =
        literal _ n (o, i) (csr_write, false) e (csrrw_lem n) v
    exec_system-expected_csr Mapping.csrrs o i n l e v =
        literal _ n (o, i) (csr_set, false) e (csrrs_lem n) v
    exec_system-expected_csr Mapping.csrrc o i n l e v =
        literal _ n (o, i) (csr_clear, false) e (csrrc_lem n) v
    exec_system-expected_csr Mapping.csrrwi o i n l e v =
        literal _ n (o, i) (csr_write, true) e (immediate_lem csr_write _ n csrrwi_lem) v
    exec_system-expected_csr Mapping.csrrsi o i n l e v =
        literal _ n (o, i) (csr_set, true) e (immediate_lem csr_set _ n csrrsi_lem) v
    exec_system-expected_csr Mapping.csrrci o i n l e v =
        literal _ n (o, i) (csr_clear, true) e (immediate_lem csr_clear _ n csrrci_lem) v
    exec_system-expected_csr m o i n l e v = absurd cc
