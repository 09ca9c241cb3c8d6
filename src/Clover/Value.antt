-- ===== src/Clover/Value.antt =====
-- vp/src/symex/clover/concolic.cpp, and `Solver::BVC` and `getValue` of solver.cpp and clover.h: a
-- concrete value, the symbolic expression that it is an instance of, and the taint of a concretized address.
pub mod Sound
use Prim.Native.String.{String}
use coverage_vp.Base.{ℕ, ◌*◌, Bool, true, false, ◌||◌, Option, none, some}
use coverage_vp.Clover.Expr.{Builder, BinOp}

-- `std::variant<uint8_t, uint32_t>`.
pub data IntValue : Type 0 where
  u8 u32 : ℕ → IntValue

unfoldable pub int_byte_size : IntValue → ℕ
int_byte_size (u8 n) = 1
int_byte_size (u32 n) = 4

unfoldable pub int_to_uint : IntValue → ℕ
int_to_uint (u8 n) = n
int_to_uint (u32 n) = n

module _ (b : Builder) where
  open b use {
    Expr, constant, temp_read, build, build_not, build_extract, build_sext, build_zext, width,
    constant_value,
  }

  pub record ConcolicValue : Type 0 where
    pub concrete : Expr
    pub symbolic : Option Expr
    pub tainted : Bool

  -- `symbolic.has_value()`.
  abbrev pub has_value : Option Expr → Bool
  has_value none = false
  has_value (some s) = true

  unfoldable pub is_symbolic : ConcolicValue → Bool
  is_symbolic v = has_value v.symbolic

  pub taint : ConcolicValue → ConcolicValue
  taint v = record v { tainted = true }

  unfoldable pub get_width : ConcolicValue → ℕ
  get_width v = width v.concrete

  -- `symbolic.value_or(concrete)`.
  abbrev pub symbolic_or : Option Expr → Expr → Expr
  symbolic_or none e = e
  symbolic_or (some s) e = s

  -- The symbolic part of a binary result, if either operand has one.
  abbrev pub join : BinOp → Option Expr → Expr → Option Expr → Expr → Option Expr
  join o none c none d = none
  join o (some s) c t d = some (build o s (symbolic_or t d))
  join o none c (some t) d = some (build o c t)

  -- The macro `BINARY_OPERATOR`, at the builder's operation.
  unfoldable pub binary_operator : BinOp → ConcolicValue → ConcolicValue → ConcolicValue
  binary_operator o x y = record {
    concrete = build o x.concrete y.concrete;
    symbolic = join o x.symbolic x.concrete y.symbolic y.concrete;
    tainted = x.tainted || y.tainted;
  }

  abbrev pub map_symbolic : (Expr → Expr) → Option Expr → Option Expr
  map_symbolic f none = none
  map_symbolic f (some s) = some (f s)

  pub bnot : ConcolicValue → ConcolicValue
  bnot x = record x {
    concrete = build_not x.concrete;
    symbolic = map_symbolic build_not x.symbolic;
  }

  pub extract : ConcolicValue → ℕ → ℕ → ConcolicValue
  extract x offset w = record x {
    concrete = build_extract x.concrete offset w;
    symbolic = map_symbolic (λ s. build_extract s offset w) x.symbolic;
  }

  unfoldable pub sext : ConcolicValue → ℕ → ConcolicValue
  sext x w = record x {
    concrete = build_sext x.concrete w;
    symbolic = map_symbolic (λ s. build_sext s w) x.symbolic;
  }

  pub zext : ConcolicValue → ℕ → ConcolicValue
  zext x w = record x {
    concrete = build_zext x.concrete w;
    symbolic = map_symbolic (λ s. build_zext s w) x.symbolic;
  }

  -- `Solver::BVC(name, value)`.
  unfoldable pub bvc : Option String → IntValue → ConcolicValue
  unfolding int_byte_size int_to_uint
  bvc none value = record {
    concrete = constant (int_to_uint value) (int_byte_size value * 8);
    symbolic = none;
    tainted = false;
  }
  bvc (some name) value = record {
    concrete = constant (int_to_uint value) (int_byte_size value * 8);
    symbolic = some (temp_read name (int_byte_size value * 8));
    tainted = false;
  }

  -- `Solver::getValue` of the concrete part; `none` is the assertion that it is a constant.
  unfoldable pub get_value : ConcolicValue → Option ℕ
  get_value v = constant_value v.concrete
