-- ===== src/Rv32/Exec/Computes.antt =====
-- The computational instructions of `ISS::exec_step` (vp/src/core/rv32/iss.cpp) against their definition
-- on plain words.

use coverage_vp.Base.{
  ℕ, ◌*◌, ◌%◌, ◌^◌, ◌<◌, ◌≤◌, ◌≡◌, refl, subst, sym, ap, arith, Bool, ◌==◌, if◌then◌else◌, none,
  some,
}
use coverage_vp.Clover.Expr.{Builder, BinOp, Meaning}
use coverage_vp.Clover.Expr.Standard.{Standard, raw_value, standard_width}
use coverage_vp.Clover.Value.{ConcolicValue, IntValue, bvc, binary_operator}
use coverage_vp.Rv32.Word.{u32, field}
use coverage_vp.Rv32.Instr.{i_imm, u_imm, shamt, rd, rs1, rs2}
use coverage_vp.Rv32.Instr.Immediate.{sext, immediates}
use coverage_vp.Rv32.Instr.Registers.{rd-field, rs1-field, rs2-field}
use coverage_vp.Rv32.Instr.Pattern.{Mapping}
use coverage_vp.Rv32.Decode.Match.{Architecture}
use coverage_vp.Rv32.Decode.Normal.{decode_normal}
use coverage_vp.Rv32.RegFile.{RegFile, shift_amount}
use coverage_vp.Rv32.Exec.Alu.{computed, exec_computed, i_operand, u_operand, shamt_operand}
use coverage_vp.Rv32.Exec.Isa.{isa, flag}
use coverage_vp.Rv32.Exec.Operation.{
  less_lem, less_unsigned_lem, shl_lem, l_shr_lem, a_shr_lem, flag-lt, u32-lt, amount_slli,
  amount_srli, amount_srai,
}
use coverage_vp.Rv32.Exec.Operand.{
  IsWord, Holds, bvc-IsWord, sext-IsWord, shift_amount-IsWord, binary-IsWord, write-Holds,
}

module _ (b : Builder) (m : Meaning b) (st : Standard b m) (ρ : m.Env) where
  -- A value that can be written to a register as the number.
  pub record Result (v : ConcolicValue b) (n : ℕ) : Type 0 where
    pub size : ℕ
    pub is_word : IsWord b m st ρ size v n
    pub small : n < 2 ^ 32
    pub fits : size ≤ 32

  binary-Result :
      (o : BinOp) (x y : ConcolicValue b) (p q r n : ℕ)
      → IsWord b m st ρ 32 x p
      → IsWord b m st ρ 32 y q
      → raw_value o 32 p q % 2 ^ standard_width o 32 32 ≡ r
      → r < 2 ^ 32
      → standard_width o 32 32 ≤ 32
      → some r ≡ some n
      → Result (binary_operator b o x y) n
  binary-Result o x y p q r n u v e lt le h =
      let same : r ≡ n = cc in
      record {
        size = standard_width o 32 32;
        is_word =
            subst (IsWord b m st ρ (standard_width o 32 32) (binary_operator b o x y))
              (rw (e, same) refl) (binary-IsWord b m st ρ o x y p q u v);
        small = subst (λ k. k < 2 ^ 32) same lt;
        fits = le;
      }

  word-Result :
      {x y : ConcolicValue b} {p q : ℕ} (o : BinOp) (t n : ℕ)
      → IsWord b m st ρ 32 x p
      → IsWord b m st ρ 32 y q
      → standard_width o 32 32 ≡ 32
      → raw_value o 32 p q % 2 ^ 32 ≡ u32 t
      → some (u32 t) ≡ some n
      → Result (binary_operator b o x y) n
  word-Result o t n u v w e h =
      binary-Result o _ _ _ _ (u32 t) n u v (rw w e) (u32-lt t) (omega arith) h

  flag-Result :
      {x y : ConcolicValue b} {p q : ℕ} (o : BinOp) (t : Bool) (n : ℕ)
      → IsWord b m st ρ 32 x p
      → IsWord b m st ρ 32 y q
      → standard_width o 32 32 ≡ 1
      → raw_value o 32 p q % 2 ≡ flag t
      → some (flag t) ≡ some n
      → Result (binary_operator b o x y) n
  flag-Result o t n u v w e h =
      binary-Result o _ _ _ _ (flag t) n u v (rw w e) (flag-lt t) (omega arith) h

  module _ (w pc : ℕ) (regs : RegFile b) (x : ℕ → ℕ) (held : Holds b m st ρ regs x)
      (small_pc : pc < 2 ^ 32) where
    first : IsWord b m st ρ 32 (regs (rs1 w)) (x (field w 15 5))
    first = subst (λ i. IsWord b m st ρ 32 (regs (rs1 w)) (x i)) (rs1-field w) (held (rs1 w))

    second : IsWord b m st ρ 32 (regs (rs2 w)) (x (field w 20 5))
    second = subst (λ i. IsWord b m st ρ 32 (regs (rs2 w)) (x i)) (rs2-field w) (held (rs2 w))

    amount : IsWord b m st ρ 32 (shift_amount b regs (rs2 w)) (x (field w 20 5) % 32)
    amount =
        subst (λ i. IsWord b m st ρ 32 (shift_amount b regs (rs2 w)) (x i % 32)) (rs2-field w)
          (shift_amount-IsWord b m st ρ regs x (rs2 w) held)

    number-IsWord :
        (k n : ℕ) → k ≡ n → n < 2 ^ 32 → IsWord b m st ρ 32 (bvc b none (IntValue.u32 k)) n
    number-IsWord k n e h =
        subst (λ i. IsWord b m st ρ 32 (bvc b none (IntValue.u32 i)) n) (sym e)
          (bvc-IsWord b m st ρ n h)

    immediate : IsWord b m st ρ 32 (i_operand b w) (sext 12 (field w 20 12))
    immediate =
        sext-IsWord b m st ρ (bvc b none (IntValue.u32 (i_imm w))) (sext 12 (field w 20 12))
          (number-IsWord (i_imm w) (sext 12 (field w 20 12)) (immediates w).0 (ground arith))

    upper : IsWord b m st ρ 32 (u_operand b w) (field w 12 20 * 2 ^ 12)
    upper = number-IsWord (u_imm w) (field w 12 20 * 2 ^ 12) (immediates w).3 (omega arith)

    constant_amount : shamt w ≡ field w 20 5 → IsWord b m st ρ 32 (shamt_operand b w) (field w 20 5)
    constant_amount e = number-IsWord (shamt w) (field w 20 5) e (omega arith)

    Yields : Mapping → ℕ → Type 0
    Yields op n = (v : ConcolicValue b) × (computed b op w pc regs ≡ some v) × Result v n

    computed-Result :
        (op : Mapping) (n : ℕ)
        → decode_normal Architecture.rv32 w ≡ op
        → isa op w pc x ≡ some n
        → Yields op n
    unfolding computed isa Yields raw_value standard_width
    computed-Result Mapping.addi n d e =
        (_, refl, word-Result BinOp.op_add _ n first immediate refl refl e)
    computed-Result Mapping.slti n d e = (
      _,
      refl,
      flag-Result BinOp.op_slt _ n first immediate refl (less_lem _ _ first.small immediate.small)
          e,
    )
    computed-Result Mapping.sltiu n d e =
        (_, refl, flag-Result BinOp.op_ult _ n first immediate refl (less_unsigned_lem _ _) e)
    computed-Result Mapping.xori n d e =
        (_, refl, word-Result BinOp.op_xor _ n first immediate refl refl e)
    computed-Result Mapping.ori n d e =
        (_, refl, word-Result BinOp.op_or _ n first immediate refl refl e)
    computed-Result Mapping.andi n d e =
        (_, refl, word-Result BinOp.op_and _ n first immediate refl refl e)
    computed-Result Mapping.add n d e =
        (_, refl, word-Result BinOp.op_add _ n first second refl refl e)
    computed-Result Mapping.slt n d e = (
      _,
      refl,
      flag-Result BinOp.op_slt _ n first second refl (less_lem _ _ first.small second.small) e,
    )
    computed-Result Mapping.sltu n d e =
        (_, refl, flag-Result BinOp.op_ult _ n first second refl (less_unsigned_lem _ _) e)
    computed-Result Mapping.xor n d e =
        (_, refl, word-Result BinOp.op_xor _ n first second refl refl e)
    computed-Result Mapping.or n d e =
        (_, refl, word-Result BinOp.op_or _ n first second refl refl e)
    computed-Result Mapping.and n d e =
        (_, refl, word-Result BinOp.op_and _ n first second refl refl e)
    computed-Result Mapping.sub n d e =
        (_, refl, word-Result BinOp.op_sub _ n first second refl refl e)
    computed-Result Mapping.sll n d e = (
      _,
      refl,
      word-Result BinOp.op_shl _ n first amount refl (ap u32 (shl_lem _ _ (omega arith))) e,
    )
    computed-Result Mapping.slli n d e = (
      _,
      refl,
      word-Result BinOp.op_shl _ n first (constant_amount (amount_slli w d)) refl
          (ap u32 (shl_lem _ _ (omega arith))) e,
    )
    computed-Result Mapping.srl n d e = (
      _,
      refl,
      word-Result BinOp.op_l_shr _ n first amount refl (ap u32 (l_shr_lem _ _ (omega arith))) e,
    )
    computed-Result Mapping.srli n d e = (
      _,
      refl,
      word-Result BinOp.op_l_shr _ n first (constant_amount (amount_srli w d)) refl
          (ap u32 (l_shr_lem _ _ (omega arith))) e,
    )
    computed-Result Mapping.sra n d e = (
      _,
      refl,
      word-Result BinOp.op_a_shr _ n first amount refl (ap u32 (a_shr_lem _ _ (omega arith))) e,
    )
    computed-Result Mapping.srai n d e = (
      _,
      refl,
      word-Result BinOp.op_a_shr _ n first (constant_amount (amount_srai w d)) refl
          (ap u32 (a_shr_lem _ _ (omega arith))) e,
    )
    computed-Result Mapping.lui n d e =
        let same : field w 12 20 * 2 ^ 12 ≡ n = cc in
        (
          _,
          refl,
          record {
            size = 32;
            is_word = subst (IsWord b m st ρ 32 (u_operand b w)) same upper;
            small = subst (λ k. k < 2 ^ 32) same upper.small;
            fits = omega arith;
          },
        )
    computed-Result Mapping.auipc n d e =
        (_, refl, word-Result BinOp.op_add _ n (bvc-IsWord b m st ρ pc small_pc) upper refl refl e)
    computed-Result _ n d e = absurd cc

    -- If a word decodes to an instruction of RV32I that computes a register from registers and
    -- immediates, then executing it puts in the destination what the instruction set says and leaves
    -- the other registers. Where every register holds a word of which its symbolic part is an instance
    -- under the inputs, so it does afterwards, and no assertion fails. The pc has 32 bits, and the
    -- builder's operations mean what is documented.
    pub exec_computed-Holds :
        (op : Mapping) (n : ℕ)
        → decode_normal Architecture.rv32 w ≡ op
        → isa op w pc x ≡ some n
        → (new : RegFile b) × (exec_computed b op w pc regs ≡ some (some new))
          × Holds b m st ρ new (λ i. if i == field w 7 5 then n else x i)
    unfolding exec_computed Yields
    exec_computed-Holds op n d e =
        let (v, case_, r) = computed-Result op n d e in
        let (new, written, holds) =
          write-Holds b m st ρ regs x r.size (rd w) n v held r.is_word r.small r.fits
            (rw (rd-field w) (omega arith)) in
        (
          new,
          rw (exec_computed, case_, written) refl,
          subst (λ k. Holds b m st ρ new (λ i. if i == k then n else x i)) (rd-field w) holds,
        )
