-- ===== src/Rv32/Exec/Operation.antt =====
-- Single operations of the computational instructions of vp/src/core/rv32/iss.cpp at 32 bits.

use coverage_vp.Base.{ℕ, ◌*◌, ◌/◌, ◌%◌, ◌^◌, ◌<◌, ◌≡◌, refl, arith, Bool, true, false, ltb}
use coverage_vp.Clover.Expr.{BinOp}
use coverage_vp.Clover.Expr.Standard.{raw_value}
use coverage_vp.Rv32.Word.{u32, field}
use coverage_vp.Rv32.Instr.{shamt, funct7}
use coverage_vp.Rv32.Instr.Registers.{shamt-field}
use coverage_vp.Rv32.Instr.Pattern.{Mapping, pattern}
use coverage_vp.Rv32.Decode.Match.{Architecture}
use coverage_vp.Rv32.Decode.Normal.{decode_normal}
use coverage_vp.Rv32.Decode.Fits.{pattern_on}
use coverage_vp.Rv32.Decode.Covered.{funct7_of}
use coverage_vp.Rv32.Decode.Decoded.{decode_normal_iff}
use coverage_vp.Rv32.Exec.Isa.{flag, signed_less, shift_arithmetic}

-- The operations at 32 bits.
pub less_lem :
    (p q : ℕ) → p < 2 ^ 32 → q < 2 ^ 32 → raw_value BinOp.op_slt 32 p q % 2 ≡ flag (signed_less p q)
unfolding raw_value
less_lem p q h g = ground arith

pub less_unsigned_lem : (p q : ℕ) → raw_value BinOp.op_ult 32 p q % 2 ≡ flag (ltb p q)
unfolding raw_value
less_unsigned_lem p q = ground arith

pub flag-lt : (t : Bool) → flag t < 2 ^ 32
flag-lt true = omega arith
flag-lt false = omega arith

pub shl_lem : (p q : ℕ) → q < 32 → raw_value BinOp.op_shl 32 p q ≡ p * 2 ^ q
unfolding raw_value
shl_lem p q h = ground arith

pub l_shr_lem : (p q : ℕ) → q < 32 → raw_value BinOp.op_l_shr 32 p q ≡ p / 2 ^ q
unfolding raw_value
l_shr_lem p q h = ground arith

pub a_shr_lem : (p q : ℕ) → q < 32 → raw_value BinOp.op_a_shr 32 p q ≡ shift_arithmetic p q
unfolding raw_value
a_shr_lem p q h = let small : ltb q 32 ≡ true = ground arith in rw small refl

pub u32-lt : (n : ℕ) → u32 n < 2 ^ 32
u32-lt n = omega arith

-- The constant shifts have an amount below 32.
pub amount_slli :
    (w : ℕ) → decode_normal Architecture.rv32 w ≡ Mapping.slli → shamt w ≡ field w 20 5
unfolding pattern_on pattern
amount_slli w d =
    let code : funct7 w ≡ 0 =
      funct7_of ((decode_normal_iff Architecture.rv32 w Mapping.slli (λ h. cc)).0 d) refl in
    shamt-field w (omega arith)

pub amount_srli :
    (w : ℕ) → decode_normal Architecture.rv32 w ≡ Mapping.srli → shamt w ≡ field w 20 5
unfolding pattern_on pattern
amount_srli w d =
    let code : funct7 w ≡ 0 =
      funct7_of ((decode_normal_iff Architecture.rv32 w Mapping.srli (λ h. cc)).0 d) refl in
    shamt-field w (omega arith)

pub amount_srai :
    (w : ℕ) → decode_normal Architecture.rv32 w ≡ Mapping.srai → shamt w ≡ field w 20 5
unfolding pattern_on pattern
amount_srai w d =
    let code : funct7 w ≡ 32 =
      funct7_of ((decode_normal_iff Architecture.rv32 w Mapping.srai (λ h. cc)).0 d) refl in
    shamt-field w (omega arith)
