-- ===== src/Rv32/Exec/Branches.antt =====
-- The conditional branches of `ISS::exec_step` (vp/src/core/rv32/iss.cpp) against the instruction set.
use coverage_vp.Base.{
  ℕ, ◌+◌, ◌*◌, ◌%◌, ◌^◌, ◌<◌, ◌≡◌, refl, subst, arith, Bool, true, false, not, ◌&&◌, ltb, ◌==◌,
  if◌then◌else◌, Bool-cases, inl, inr, Option, none, some, bit_and, ap, Option-cases,
}
use coverage_vp.Base.Ranges.{bit_and_range}
use coverage_vp.Clover.Klee.{Klee}
use coverage_vp.Clover.Expr.{Builder, BinOp, Meaning}
use coverage_vp.Clover.Expr.Standard.{Standard, raw_value, standard_width}
use coverage_vp.Clover.Value.{ConcolicValue, binary_operator}
use coverage_vp.Clover.Trace.{Trace, Query, get_query, add}
use coverage_vp.Rv32.Word.{u32, field, nonzero}
use coverage_vp.Rv32.Csr.{CsrTable}
use coverage_vp.Rv32.Exc.{instr_addr_misaligned}
use coverage_vp.Rv32.Hart.{Outcome, ok, raise_trap, has_c_extension}
use coverage_vp.Rv32.Instr.{b_imm, rs1, rs2}
use coverage_vp.Rv32.Instr.Immediate.{sext, immediates}
use coverage_vp.Rv32.Instr.Registers.{rs1-field, rs2-field}
use coverage_vp.Rv32.Instr.Pattern.{Mapping}
use coverage_vp.Rv32.Exec.Isa.{flag, signed_less}
use coverage_vp.Rv32.Exec.Operand.{IsWord, Holds, binary-IsWord}
use coverage_vp.Rv32.Exec.Control.{
  Validity, valid, refuted, Core, comparison, solver_eval, eval, track_and_trace_branch,
  trap_check_pc_alignment, exec_branch,
}

-- Whether the instruction set takes the branch, on plain words.
unfoldable pub is_taken : Mapping → ℕ → ℕ → Bool
is_taken Mapping.beq p q = p == q
is_taken Mapping.bne p q = not (p == q)
is_taken Mapping.blt p q = signed_less p q
is_taken Mapping.bge p q = not (signed_less p q)
is_taken Mapping.bltu p q = ltb p q
is_taken Mapping.bgeu p q = not (ltb p q)
is_taken m p q = false

-- Where it leads.
pub branch_target : ℕ → ℕ → ℕ
branch_target w pc = u32 (
    pc
    + sext 13
        (field w 31 1 * 2 ^ 12 + field w 7 1 * 2 ^ 11 + field w 25 6 * 2 ^ 5 + field w 8 4 * 2))

-- At 32 bits the comparison is a test of one bit.
abbrev Compares : ℕ → ℕ → Bool → BinOp → Type 0
Compares p q t o = (standard_width o 32 32 ≡ 1) × (raw_value o 32 p q % 2 ≡ flag t)

-- The comparison of the instruction decides whether the branch is taken.
comparison-Compares :
    (op : Mapping) (o : BinOp) (p q : ℕ)
    → comparison op ≡ some o
    → p < 2 ^ 32
    → q < 2 ^ 32
    → Compares p q (is_taken op p q) o
unfolding comparison is_taken raw_value standard_width
comparison-Compares Mapping.beq o p q e h g =
    let same : BinOp.op_eq ≡ o = cc in subst (Compares p q (p == q)) same (refl, ground arith)
comparison-Compares Mapping.bne o p q e h g =
    let same : BinOp.op_ne ≡ o = cc in subst (Compares p q (not (p == q))) same (refl, ground arith)
comparison-Compares Mapping.blt o p q e h g =
    let same : BinOp.op_slt ≡ o = cc in
    subst (Compares p q (signed_less p q)) same (refl, ground arith)
comparison-Compares Mapping.bge o p q e h g =
    let same : BinOp.op_sge ≡ o = cc in
    subst (Compares p q (not (signed_less p q))) same (refl, ground arith)
comparison-Compares Mapping.bltu o p q e h g =
    let same : BinOp.op_ult ≡ o = cc in subst (Compares p q (ltb p q)) same (refl, ground arith)
comparison-Compares Mapping.bgeu o p q e h g =
    let same : BinOp.op_uge ≡ o = cc in
    subst (Compares p q (not (ltb p q))) same (refl, ground arith)
comparison-Compares _ o p q e h g = absurd cc

bit_and_one : (n : ℕ) → bit_and n 1 ≡ n % 2
bit_and_one n = omega (arith, bit_and_range 0 1 n)

bit_and_three : (n : ℕ) → bit_and n 3 ≡ n % 4
bit_and_three n = omega (arith, bit_and_range 0 2 n)

target_even : (w pc : ℕ) → pc % 2 ≡ 0 → branch_target w pc % 2 ≡ 0
unfolding branch_target
target_even w pc even = ground arith

target_lem : (w pc : ℕ) → u32 (pc + b_imm w) ≡ branch_target w pc
unfolding branch_target
target_lem w pc = rw (immediates w).2 refl

module _ (b : Builder) (k : Klee) (embed : b.Expr → k.Expr) (evaluate : Query k → Option Validity)
    (w last_pc : ℕ) (csrs : CsrTable) (s : Core b k embed evaluate) where
  -- The trace with a branch of a direction: a symbolic condition is added to it, a constant one is not.
  pub traced : Bool → Option b.Expr → Trace k
  traced taken none = s.trace
  traced taken (some condition) = add k s.trace taken (embed condition)

  -- What the instruction set and the recording of branches ask for.
  pub expected : Bool → ConcolicValue b → Outcome (Core b k embed evaluate) (Unit {0})
  expected true res =
      if nonzero (branch_target w last_pc % 4) && not (has_c_extension csrs)
      then raise_trap instr_addr_misaligned (branch_target w last_pc)
          (record s { pc = branch_target w last_pc })
      else ok tt (record s { pc = branch_target w last_pc; trace = traced true res.symbolic })
  expected false res = ok tt (record s { trace = traced false res.symbolic })

  tracked :
      (n : ℕ) (taken : Bool) (res : ConcolicValue b)
      → track_and_trace_branch b k embed evaluate taken res (record s { pc = n })
        ≡ record s { pc = n; trace = traced taken res.symbolic }
  unfolding traced track_and_trace_branch
  tracked n taken res = elim (Option-cases res.symbolic) [
    | inl none_ ↦ rw (track_and_trace_branch, traced, none_) refl
    | inr (e, some_) ↦ rw (track_and_trace_branch, traced, some_) refl
  ]

module _ (b : Builder) (m : Meaning b) (st : Standard b m) (ρ : m.Env) (k : Klee)
    (embed : b.Expr → k.Expr) (evaluate : Query k → Option Validity)
    (evaluate_constant : (t : Trace k) (e : b.Expr) (n : ℕ)
      → b.constant_value e ≡ some n
      → evaluate (get_query k t (embed e)) ≡ some (if n == 0 then refuted else valid))
    (w last_pc : ℕ) (csrs : CsrTable) (s : Core b k embed evaluate) (x : ℕ → ℕ)
    (held : Holds b m st ρ s.regs x) (even : last_pc % 2 ≡ 0) where
  bit-IsWord :
      (o : BinOp) (y z : ConcolicValue b) (p q : ℕ) (t : Bool)
      → IsWord b m st ρ 32 y p
      → IsWord b m st ρ 32 z q
      → standard_width o 32 32 ≡ 1
      → raw_value o 32 p q % 2 ≡ flag t
      → IsWord b m st ρ 1 (binary_operator b o y z) (flag t)
  bit-IsWord o y z p q t u v one value = subst (IsWord b m st ρ 1 (binary_operator b o y z)) value (
      subst (λ n. IsWord b m st ρ n (binary_operator b o y z) (raw_value o 32 p q % 2 ^ n)) one
        (binary-IsWord b m st ρ o y z p q u v))

  -- A target that a branch can have is checked for its second bit only.
  check_lem :
      trap_check_pc_alignment b k embed evaluate csrs (record s { pc = branch_target w last_pc })
      ≡ (if nonzero (branch_target w last_pc % 4) && not (has_c_extension csrs)
          then raise_trap instr_addr_misaligned
              (branch_target w last_pc)
              (record s { pc = branch_target w last_pc })
          else ok tt (record s { pc = branch_target w last_pc }))
  unfolding trap_check_pc_alignment
  check_lem =
      let low : bit_and (branch_target w last_pc) 1 ≡ 0 =
        omega (arith, bit_and_one (branch_target w last_pc), target_even w last_pc even) in
      rw (low, bit_and_three (branch_target w last_pc)) refl

  eval_flag :
      (t : Bool) (c : b.Expr)
      → b.constant_value c ≡ some (flag t)
      → eval b k embed evaluate s c ≡ some t
  unfolding eval solver_eval
  eval_flag true c e = rw (solver_eval, evaluate_constant s.trace c 1 e) refl
  eval_flag false c e = rw (solver_eval, evaluate_constant s.trace c 0 e) refl

  runs :
      (o : BinOp) (t : Bool)
      → eval b k embed evaluate s (binary_operator b o (s.regs (rs1 w)) (s.regs (rs2 w))).concrete
        ≡ some t
      → exec_branch b k embed evaluate o w last_pc csrs s
        ≡ expected b k embed evaluate w last_pc csrs s t
            (binary_operator b o (s.regs (rs1 w)) (s.regs (rs2 w)))
  unfolding expected exec_branch
  runs o false e =
      let res = binary_operator b o (s.regs (rs1 w)) (s.regs (rs2 w)) in
      rw (exec_branch, e) (ap (ok tt) (tracked b k embed evaluate w last_pc csrs s s.pc false res))
  runs o true e =
      let res = binary_operator b o (s.regs (rs1 w)) (s.regs (rs2 w)) in
      rw (exec_branch, e, target_lem w last_pc, check_lem)
        (elim (Bool-cases (nonzero (branch_target w last_pc % 4) && not (has_c_extension csrs))) [
          | inl h ↦ rw h refl
          | inr h ↦ rw h (
              ap (ok tt)
                (tracked b k embed evaluate w last_pc csrs s (branch_target w last_pc) true res))
        ])

  -- A branch compares its registers as the instruction set says. The result of the comparison is one bit
  -- whose value under the inputs is the direction taken, and its symbolic part, where there is one, is added
  -- to the trace with that direction. If the branch is taken
  -- the pc becomes the target, or a misaligned instruction address is raised at the target, before
  -- anything is recorded, where compressed instructions are off and the target is no multiple of four;
  -- if not, the pc stays. Every register holds a word of which its symbolic part is an instance under
  -- the inputs, the instruction's address is even, the builder's operations mean what is documented,
  -- and the solver decides constants.
  pub exec_branch-expected :
      (op : Mapping) (o : BinOp)
      → comparison op ≡ some o
      → IsWord b m st ρ 1
          (binary_operator b o (s.regs (rs1 w)) (s.regs (rs2 w)))
          (flag (is_taken op (x (field w 15 5)) (x (field w 20 5))))
        × (exec_branch b k embed evaluate o w last_pc csrs s
            ≡ expected b k embed evaluate w last_pc csrs s
                (is_taken op (x (field w 15 5)) (x (field w 20 5)))
                (binary_operator b o (s.regs (rs1 w)) (s.regs (rs2 w))))
  exec_branch-expected op o e =
      let p = x (field w 15 5) in
      let q = x (field w 20 5) in
      let u : IsWord b m st ρ 32 (s.regs (rs1 w)) p =
        subst (λ i. IsWord b m st ρ 32 (s.regs (rs1 w)) (x i)) (rs1-field w) (held (rs1 w)) in
      let v : IsWord b m st ρ 32 (s.regs (rs2 w)) q =
        subst (λ i. IsWord b m st ρ 32 (s.regs (rs2 w)) (x i)) (rs2-field w) (held (rs2 w)) in
      let (one, value) = comparison-Compares op o p q e u.small v.small in
      let res = binary_operator b o (s.regs (rs1 w)) (s.regs (rs2 w)) in
      let word : IsWord b m st ρ 1 res (flag (is_taken op p q)) =
        bit-IsWord o (s.regs (rs1 w)) (s.regs (rs2 w)) p q (is_taken op p q) u v one value in
      (
        word,
        runs o (is_taken op p q)
            (eval_flag (is_taken op p q) res.concrete word.instance_of.is_constant),
      )
