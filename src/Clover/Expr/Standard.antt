-- ===== src/Clover/Expr/Standard.antt =====
-- The documented meaning of klee's binary operations on bit vectors of one width, and of the sign
-- extension: the assumption under which what the simulator builds of them can be compared with the
-- instruction set's definition.
use Prim.Native.Nat.{bit_xor}
use coverage_vp.Base.{
  ℕ, ◌+◌, ◌-◌, ◌*◌, ◌/◌, ◌%◌, ◌^◌, ◌<◌, ◌≡◌, bit_and, bit_or, ltb, ◌==◌, if◌then◌else◌, Bool, true,
  false, not,
}
use coverage_vp.Clover.Expr.{Builder, BinOp, Meaning}

-- The truth value of a test as a bit vector of width one.
abbrev pub truth : Bool → ℕ
truth true = 1
truth false = 0

-- The order of two's complement numbers is that of the words with the sign bit flipped.
abbrev pub biased : ℕ → ℕ → ℕ
biased w p = (p + 2 ^ (w - 1)) % 2 ^ w

abbrev pub is_negative : ℕ → ℕ → Bool
is_negative w p = not (ltb p (2 ^ (w - 1)))

abbrev pub magnitude : ℕ → ℕ → ℕ
magnitude w p = if is_negative w p then 2 ^ w - p else p

-- A magnitude with a sign, as a word.
abbrev pub signed : ℕ → Bool → ℕ → ℕ
signed w true n = 2 ^ w - n
signed w false n = n

abbrev pub differ : Bool → Bool → Bool
differ true b = not b
differ false b = b

-- At operands below two to the width `w`, before the result is cut to its width.
unfoldable pub raw_value : BinOp → ℕ → ℕ → ℕ → ℕ
raw_value BinOp.op_eq w p q = truth (p == q)
raw_value BinOp.op_ne w p q = truth (not (p == q))
raw_value BinOp.op_shl w p q = if ltb q w then p * 2 ^ q else 0
raw_value BinOp.op_l_shr w p q = if ltb q w then p / 2 ^ q else 0
raw_value BinOp.op_a_shr w p q =
    let s = if ltb q w then q else w - 1 in
    if is_negative w p then 2 ^ w - 1 - (2 ^ w - 1 - p) / 2 ^ s else p / 2 ^ s
raw_value BinOp.op_add w p q = p + q
raw_value BinOp.op_mul w p q = p * q
raw_value BinOp.op_u_div w p q = p / q
raw_value BinOp.op_s_div w p q =
    signed w (differ (is_negative w p) (is_negative w q)) (magnitude w p / magnitude w q)
raw_value BinOp.op_u_rem w p q = p % q
raw_value BinOp.op_s_rem w p q = signed w (is_negative w p) (magnitude w p % magnitude w q)
raw_value BinOp.op_sub w p q = p + 2 ^ w - q
raw_value BinOp.op_slt w p q = truth (ltb (biased w p) (biased w q))
raw_value BinOp.op_sge w p q = truth (not (ltb (biased w p) (biased w q)))
raw_value BinOp.op_ult w p q = truth (ltb p q)
raw_value BinOp.op_uge w p q = truth (not (ltb p q))
raw_value BinOp.op_and w p q = bit_and p q
raw_value BinOp.op_or w p q = bit_or p q
raw_value BinOp.op_xor w p q = bit_xor p q
raw_value BinOp.op_concat w p q = p * 2 ^ w + q

-- The width of the result, from those of the operands.
unfoldable pub standard_width : BinOp → ℕ → ℕ → ℕ
standard_width BinOp.op_eq w v = 1
standard_width BinOp.op_ne w v = 1
standard_width BinOp.op_slt w v = 1
standard_width BinOp.op_sge w v = 1
standard_width BinOp.op_ult w v = 1
standard_width BinOp.op_uge w v = 1
standard_width BinOp.op_concat w v = w + v
standard_width o w v = w

-- The sign extension from width `v` to a width `w` that is not smaller.
abbrev pub standard_sext : ℕ → ℕ → ℕ → ℕ
standard_sext v w n = if is_negative v n then n + (2 ^ w - 2 ^ v) else n

module _ (b : Builder) where
  pub record Standard (m : Meaning b) : Type 0 where
    pub operation :
        (o : BinOp) (w p q : ℕ)
        → p < 2 ^ w
        → q < 2 ^ w
        → m.on_values o w w p q ≡ raw_value o w p q % 2 ^ standard_width o w w
    pub operation_width : (o : BinOp) (w v : ℕ) → m.result_width o w v ≡ standard_width o w v
    pub sign_extension : (v w n : ℕ) → n < 2 ^ v → m.sext_value v w n ≡ standard_sext v w n % 2 ^ w
