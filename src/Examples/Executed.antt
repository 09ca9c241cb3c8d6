-- ===== src/Examples/Executed.antt =====
-- The execution of instructions (vp/src/core/rv32/iss.cpp) at a concrete word and registers.
use coverage_vp.Base.{ℕ, Bool, Option, ◌≡◌, refl, some, arith, ◌==◌, if◌then◌else◌, false}
use coverage_vp.Clover.Expr.{BinOp}
use coverage_vp.Clover.Trace.{Trace, Query, init, get_query}
use coverage_vp.Examples.OneBit.{one_bit}
use coverage_vp.Rv32.Csr.{csr_table}
use coverage_vp.Rv32.Exec.Control.{Validity, valid, refuted, Core, comparison, exec_branch}
use coverage_vp.Rv32.Exec.Branches.{is_taken, expected, exec_branch-expected}
use coverage_vp.Clover.Value.{binary_operator, ConcolicValue, get_width}
use coverage_vp.Rv32.Instr.{opcode, funct3, funct7}
use coverage_vp.Rv32.Instr.Pattern.{Mapping, pattern}
use coverage_vp.Rv32.Decode.Match.{Architecture, match_and_return_instr, match_and_return_instr2}
use coverage_vp.Rv32.Decode.Integer.{decode_arithmetic}
use coverage_vp.Rv32.Decode.Normal.{decode_normal}
use coverage_vp.Rv32.RegFile.{RegFile}
use coverage_vp.Rv32.Exec.Alu.{exec_computed}
use coverage_vp.Rv32.Exec.Isa.{isa, flag}
use coverage_vp.Rv32.Exec.Operand.{IsWord, Holds}
use coverage_vp.Rv32.Exec.Computes.{exec_computed-Holds}
use coverage_vp.Examples.Folding.{
  Expression, number, folded-number, con, input, Inputs, folding, folding_meaning, folding_standard,
}

-- A symbolic word that is five under the inputs.
abbrev fives : Inputs
fives name = 5

abbrev five : ConcolicValue folding
five = record { concrete = con 5 32; symbolic = some (input (λ ρ. ρ "a") 32); tainted = false }

five-IsWord : IsWord folding folding_meaning folding_standard fives 32 five 5
unfolding get_width
five-IsWord = record {
  instance_of = record { is_constant = refl; agrees = (refl, refl) };
  has_width = refl;
  small = omega arith;
}

-- `sll x3, x1, x2`.
decodes_sll : decode_normal Architecture.rv32 0x002091b3 ≡ Mapping.sll
unfolding decode_normal decode_arithmetic match_and_return_instr match_and_return_instr2 pattern
    opcode funct3 funct7
decodes_sll = refl

shifted : isa Mapping.sll 0x002091b3 0x1000 (λ _. 5) ≡ some 160
unfolding isa
shifted = refl

exec_computed-Holds_example :
    (new : RegFile folding) × (exec_computed folding Mapping.sll 0x002091b3 0x1000 (λ _. five)
      ≡ some (some new))
    × Holds folding folding_meaning folding_standard fives new (λ i. if i == 3 then 160 else 5)
exec_computed-Holds_example =
    exec_computed-Holds folding folding_meaning folding_standard fives 0x002091b3 0x1000 (λ _. five)
      (λ _. 5) (λ _. five-IsWord) (omega arith) Mapping.sll 160 decodes_sll shifted

-- A solver that knows the inputs.
abbrev known : Expression → Bool → ℕ
known e _ = number fives e

abbrev at_fives : Query one_bit → Option Validity
at_fives q = some (if q.expr false == 0 then refuted else valid)

at_fives_constant :
    (t : Trace one_bit) (e : Expression) (n : ℕ)
    → folding.constant_value e ≡ some n
    → at_fives (get_query one_bit t (known e)) ≡ some (if n == 0 then refuted else valid)
unfolding get_query
at_fives_constant t e n h = rw (folded-number fives e n h) refl

abbrev core : Core folding one_bit known at_fives
core = record { pc = 0x1004; regs = λ _. five; trace = init one_bit }

compares : comparison Mapping.beq ≡ some BinOp.op_eq
unfolding comparison
compares = refl

-- `beq x1, x2, 8`.
exec_branch-expected_example :
    IsWord folding folding_meaning folding_standard fives 1
      (binary_operator folding BinOp.op_eq five five)
      (flag (is_taken Mapping.beq 5 5))
    × (exec_branch folding one_bit known at_fives BinOp.op_eq 0x00208463 0x1000 csr_table core
        ≡ expected folding one_bit known at_fives 0x00208463 0x1000 csr_table core
            (is_taken Mapping.beq 5 5)
            (binary_operator folding BinOp.op_eq five five))
exec_branch-expected_example =
    exec_branch-expected folding folding_meaning folding_standard fives one_bit known at_fives
      at_fives_constant 0x00208463 0x1000 csr_table core (λ _. 5) (λ _. five-IsWord) refl
      Mapping.beq BinOp.op_eq compares
