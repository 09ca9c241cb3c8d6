-- ===== src/Examples/Folding.antt =====
-- An expression builder that meets the assumptions on klee's constant folding builder: an expression
-- is a constant or a function of the inputs, with its width.
use Prim.Native.String.{String}
use native.Mathlib.Nat.{pow-suc, mod-lt, mod-eq_of_lt, one-le-pow}
use coverage_vp.Base.{
  ℕ, zero, suc, ◌+◌, ◌-◌, ◌*◌, ◌/◌, ◌%◌, ◌^◌, ◌<◌, ◌≡◌, refl, sym, ap, Option, none, some, arith,
}
use coverage_vp.Clover.Expr.{Builder, BinOp, Meaning}
use coverage_vp.Clover.Expr.Standard.{raw_value, standard_width, standard_sext, Standard}

abbrev pub Inputs : Type 0
Inputs = String → ℕ

pub data Expression : Type 0 where
  con : ℕ → ℕ → Expression
  input : (Inputs → ℕ) → ℕ → Expression

abbrev pub bits : Expression → ℕ
bits (con n w) = w
bits (input f w) = w

abbrev pub number : Inputs → Expression → ℕ
number ρ (con n w) = n % 2 ^ w
number ρ (input f w) = f ρ % 2 ^ w

abbrev pub folded : Expression → Option ℕ
folded (con n w) = some (n % 2 ^ w)
folded (input f w) = none

abbrev pub combined : BinOp → ℕ → ℕ → ℕ → ℕ → ℕ
combined BinOp.op_concat v w m n = m * 2 ^ w + n
combined o v w m n = raw_value o v m n

abbrev pub two : BinOp → Expression → Expression → Expression
two o (con m v) (con n w) = con (combined o v w (m % 2 ^ v) (n % 2 ^ w)) (standard_width o v w)
two o x y =
    input (λ ρ. combined o (bits x) (bits y) (number ρ x) (number ρ y))
      (standard_width o (bits x) (bits y))

-- An operation of one operand, from the operand's width and number.
abbrev pub single : (ℕ → ℕ → ℕ) → ℕ → Expression → Expression
single f w (con n v) = con (f v (n % 2 ^ v)) w
single f w (input g v) = input (λ ρ. f v (g ρ % 2 ^ v)) w

abbrev pub exactly : BinOp → ℕ → ℕ → ℕ → ℕ → ℕ
exactly BinOp.op_concat v w m n = m * 2 ^ w + n
exactly o v w m n = raw_value o v m n % 2 ^ standard_width o v w

abbrev pub folding : Builder
folding = record {
  Expr = Expression;
  constant = con;
  temp_read = λ name w. input (λ ρ. ρ name) w;
  build = two;
  build_not = λ x. single (λ v n. 2 ^ v - 1 - n) (bits x) x;
  build_extract = λ x off w. single (λ v n. n / 2 ^ off) w x;
  build_sext = λ x w. single (λ v n. standard_sext v w n) w x;
  build_zext = λ x w. single (λ v n. n) w x;
  width = bits;
  constant_value = folded;
}

pow_add : (v w : ℕ) → 2 ^ (v + w) ≡ 2 ^ v * 2 ^ w
pow_add zero w = let e : zero + w ≡ w = omega arith in rw e (omega arith)
pow_add (suc v) w =
    let e : suc v + w ≡ suc (v + w) = omega arith in
    rw (e, pow-suc 2 (v + w), pow-suc 2 v) (omega (arith, pow_add v w))

pub concat-lt : (v w m n : ℕ) → m < 2 ^ v → n < 2 ^ w → m * 2 ^ w + n < 2 ^ (v + w)
concat-lt v w m n h k = rw (pow_add v w) (joined (2 ^ v) (2 ^ w) h k)
  where
    joined : (a b : ℕ) → m < a → n < b → m * b + n < a * b
    joined a b h k = grind arith

-- Cutting the result to its width changes nothing more.
pub cut :
    (o : BinOp) (v w m n : ℕ)
    → m < 2 ^ v
    → n < 2 ^ w
    → combined o v w m n % 2 ^ standard_width o v w ≡ exactly o v w m n
unfolding standard_width
cut BinOp.op_concat v w m n h k = mod-eq_of_lt (concat-lt v w m n h k)
cut BinOp.op_eq v w m n h k = refl
cut _ v w m n h k = refl

pub number-lt : (ρ : Inputs) (x : Expression) → number ρ x < 2 ^ bits x
number-lt ρ (con n w) = mod-lt n (one-le-pow w 2 (omega arith))
number-lt ρ (input f w) = mod-lt (f ρ) (one-le-pow w 2 (omega arith))

abbrev pub sext_of : ℕ → ℕ → ℕ → ℕ
sext_of v w n = standard_sext v w n % 2 ^ w

abbrev pub not_of : ℕ → ℕ → ℕ
not_of v n = (2 ^ v - 1 - n) % 2 ^ v

pub eval-two :
    (ρ : Inputs) (o : BinOp) (x y : Expression)
    → number ρ (two o x y) ≡ exactly o (bits x) (bits y) (number ρ x) (number ρ y)
eval-two ρ o (con m v) (con n w) =
    cut o v w (m % 2 ^ v) (n % 2 ^ w) (number-lt ρ (con m v)) (number-lt ρ (con n w))
eval-two ρ o (con m v) (input g w) =
    cut o v w (m % 2 ^ v) (g ρ % 2 ^ w) (number-lt ρ (con m v)) (number-lt ρ (input g w))
eval-two ρ o (input f v) (con n w) =
    cut o v w (f ρ % 2 ^ v) (n % 2 ^ w) (number-lt ρ (input f v)) (number-lt ρ (con n w))
eval-two ρ o (input f v) (input g w) =
    cut o v w (f ρ % 2 ^ v) (g ρ % 2 ^ w) (number-lt ρ (input f v)) (number-lt ρ (input g w))

pub eval-one :
    (ρ : Inputs) (f : ℕ → ℕ → ℕ) (w : ℕ) (x : Expression)
    → number ρ (single f w x) ≡ f (bits x) (number ρ x) % 2 ^ w
eval-one ρ f w (con n v) = refl
eval-one ρ f w (input g v) = refl

pub bits-two :
    (o : BinOp) (x y : Expression) → bits (two o x y) ≡ standard_width o (bits x) (bits y)
bits-two o (con m v) (con n w) = refl
bits-two o (con m v) (input g w) = refl
bits-two o (input f v) y = refl

pub bits-one : (f : ℕ → ℕ → ℕ) (w : ℕ) (x : Expression) → bits (single f w x) ≡ w
bits-one f w (con n v) = refl
bits-one f w (input g v) = refl

pub folded-number : (ρ : Inputs) (x : Expression) (n : ℕ) → folded x ≡ some n → number ρ x ≡ n
folded-number ρ (con m w) n h = cc
folded-number ρ (input f w) n h = cc

pub folded-two :
    (o : BinOp) (x y : Expression) (m n : ℕ)
    → folded x ≡ some m
    → folded y ≡ some n
    → folded (two o x y) ≡ some (exactly o (bits x) (bits y) m n)
folded-two o (con a v) (con c w) m n h k =
    let e : a % 2 ^ v ≡ m = cc in
    let f : c % 2 ^ w ≡ n = cc in
    rw (← e, ← f)
      (ap {B = Option ℕ} some (
        cut o v w (a % 2 ^ v) (c % 2 ^ w) (number-lt (λ _. 0) (con a v))
          (number-lt (λ _. 0) (con c w))))
folded-two o (con a v) (input g w) m n h k = cc
folded-two o (input f v) y m n h k = cc

pub folded-one :
    (f : ℕ → ℕ → ℕ) (w : ℕ) (x : Expression) (n : ℕ)
    → folded x ≡ some n
    → folded (single f w x) ≡ some (f (bits x) n % 2 ^ w)
folded-one f w (con a v) n h = let e : a % 2 ^ v ≡ n = cc in rw (← e)
folded-one f w (input g v) n h = cc

pub folded_con : (n w : ℕ) → n < 2 ^ w → folded (con n w) ≡ some n
folded_con n w h = rw (mod-eq_of_lt h)

pub concat_bits : (v w : ℕ) → standard_width BinOp.op_concat v w ≡ v + w
unfolding standard_width
concat_bits v w = refl

abbrev pub folding_meaning : Meaning folding
folding_meaning = record {
  Env = Inputs;
  eval = number;
  on_values = exactly;
  not_value = not_of;
  sext_value = sext_of;
  result_width = standard_width;
  eval-lt = number-lt;
  eval-build = eval-two;
  eval-not = λ ρ x. eval-one ρ (λ v n. 2 ^ v - 1 - n) (bits x) x;
  eval-extract = λ ρ x off w. eval-one ρ (λ v n. n / 2 ^ off) w x;
  eval-sext = λ ρ x w. eval-one ρ (λ v n. standard_sext v w n) w x;
  eval-zext = λ ρ x w. eval-one ρ (λ v n. n) w x;
  width-build = bits-two;
  width-not = λ x. bits-one (λ v n. 2 ^ v - 1 - n) (bits x) x;
  width-extract = λ x off w. bits-one (λ v n. n / 2 ^ off) w x;
  width-sext = λ x w. bits-one (λ v n. standard_sext v w n) w x;
  width-zext = λ x w. bits-one (λ v n. n) w x;
  width-constant = λ n w. refl;
  concat_value = λ v w m n. refl;
  concat_width = concat_bits;
  eval-constant = folded-number;
  constant_created = folded_con;
  folds = folded-two;
  folds_not = λ x n. folded-one (λ v k. 2 ^ v - 1 - k) (bits x) x n;
  folds_extract = λ x off w n. folded-one (λ v k. k / 2 ^ off) w x n;
  folds_sext = λ x w n. folded-one (λ v k. standard_sext v w k) w x n;
  folds_zext = λ x w n. folded-one (λ v k. k) w x n;
}

pub operation :
    (o : BinOp) (w p q : ℕ)
    → p < 2 ^ w
    → q < 2 ^ w
    → exactly o w w p q ≡ raw_value o w p q % 2 ^ standard_width o w w
unfolding raw_value standard_width
operation BinOp.op_concat w p q h k = sym (mod-eq_of_lt (concat-lt w w p q h k))
operation BinOp.op_eq w p q h k = refl
operation _ w p q h k = refl

abbrev pub folding_standard : Standard folding folding_meaning
folding_standard = record {
  operation = operation;
  operation_width = λ o w v. refl;
  sign_extension = λ v w n h. refl;
}
