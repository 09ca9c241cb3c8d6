-- ===== src/Clover/Expr.antt =====
-- What vp/src/symex/clover uses of klee to build expressions: `ExprBuilder`, `ConstantExpr` and the
-- reads of symbolic arrays. The builder is the constant folding one that `Solver` sets up. The library
-- is a parameter; `Meaning` states its documented behaviour.
pub mod Standard
use Prim.Native.String.{String}
use coverage_vp.Base.{ℕ, ◌+◌, ◌*◌, ◌/◌, ◌%◌, ◌^◌, ◌<◌, ◌≡◌, Option, some}

-- The builder's binary operations, by the names that concolic.cpp calls.
pub data BinOp : Type 0 where
  op_eq op_ne op_shl op_l_shr op_a_shr op_add op_mul op_u_div op_s_div op_u_rem op_s_rem op_sub
        op_slt op_sge op_ult op_uge op_and op_or op_xor op_concat :
      BinOp

pub record Builder : Type 1 where
  pub Expr : Type 0
  -- `ConstantExpr::create`, a value and a width.
  pub constant : ℕ → ℕ → Expr
  -- `Expr::createTempRead` of the array of a name and a width.
  pub temp_read : String → ℕ → Expr
  pub build : BinOp → Expr → Expr → Expr
  pub build_not : Expr → Expr
  pub build_extract : Expr → ℕ → ℕ → Expr
  pub build_sext : Expr → ℕ → Expr
  pub build_zext : Expr → ℕ → Expr
  pub width : Expr → ℕ
  -- `dyn_cast<ConstantExpr>` and `getZExtValue`.
  pub constant_value : Expr → Option ℕ

module _ (b : Builder) where
  open b use {
    Expr, constant, build, build_not, build_extract, build_sext, build_zext, width, constant_value,
  }

  -- The operations on the numbers that expressions stand for, at the operands' widths; `concat`, `extract`
  -- and the extensions are given, the others need only be functions of the values.
  pub record Meaning : Type 1 where
    -- An assignment of the symbolic arrays.
    pub Env : Type 0
    pub eval : Env → Expr → ℕ
    pub on_values : BinOp → ℕ → ℕ → ℕ → ℕ → ℕ
    pub not_value : ℕ → ℕ → ℕ
    pub sext_value : ℕ → ℕ → ℕ → ℕ
    pub result_width : BinOp → ℕ → ℕ → ℕ
    pub eval-lt : (ρ : Env) (x : Expr) → eval ρ x < 2 ^ width x
    pub eval-build :
        (ρ : Env) (o : BinOp) (x y : Expr)
        → eval ρ (build o x y) ≡ on_values o (width x) (width y) (eval ρ x) (eval ρ y)
    pub eval-not : (ρ : Env) (x : Expr) → eval ρ (build_not x) ≡ not_value (width x) (eval ρ x)
    pub eval-extract :
        (ρ : Env) (x : Expr) (off w : ℕ)
        → eval ρ (build_extract x off w) ≡ eval ρ x / 2 ^ off % 2 ^ w
    pub eval-sext :
        (ρ : Env) (x : Expr) (w : ℕ) → eval ρ (build_sext x w) ≡ sext_value (width x) w (eval ρ x)
    pub eval-zext : (ρ : Env) (x : Expr) (w : ℕ) → eval ρ (build_zext x w) ≡ eval ρ x % 2 ^ w
    pub width-build :
        (o : BinOp) (x y : Expr) → width (build o x y) ≡ result_width o (width x) (width y)
    pub width-not : (x : Expr) → width (build_not x) ≡ width x
    pub width-extract : (x : Expr) (off w : ℕ) → width (build_extract x off w) ≡ w
    pub width-sext : (x : Expr) (w : ℕ) → width (build_sext x w) ≡ w
    pub width-zext : (x : Expr) (w : ℕ) → width (build_zext x w) ≡ w
    pub width-constant : (n w : ℕ) → width (constant n w) ≡ w
    pub concat_value : (wx wy m n : ℕ) → on_values BinOp.op_concat wx wy m n ≡ m * 2 ^ wy + n
    pub concat_width : (wx wy : ℕ) → result_width BinOp.op_concat wx wy ≡ wx + wy
    -- Constants mean their value, and the builder folds what is built of them.
    pub eval-constant : (ρ : Env) (x : Expr) (n : ℕ) → constant_value x ≡ some n → eval ρ x ≡ n
    pub constant_created : (n w : ℕ) → n < 2 ^ w → constant_value (constant n w) ≡ some n
    pub folds :
        (o : BinOp) (x y : Expr) (m n : ℕ)
        → constant_value x ≡ some m
        → constant_value y ≡ some n
        → constant_value (build o x y) ≡ some (on_values o (width x) (width y) m n)
    pub folds_not :
        (x : Expr) (n : ℕ)
        → constant_value x ≡ some n
        → constant_value (build_not x) ≡ some (not_value (width x) n)
    pub folds_extract :
        (x : Expr) (off w n : ℕ)
        → constant_value x ≡ some n
        → constant_value (build_extract x off w) ≡ some (n / 2 ^ off % 2 ^ w)
    pub folds_sext :
        (x : Expr) (w n : ℕ)
        → constant_value x ≡ some n
        → constant_value (build_sext x w) ≡ some (sext_value (width x) w n)
    pub folds_zext :
        (x : Expr) (w n : ℕ)
        → constant_value x ≡ some n
        → constant_value (build_zext x w) ≡ some (n % 2 ^ w)
