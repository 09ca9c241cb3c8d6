-- ===== src/Clover/Klee.antt =====
-- What vp/src/symex/clover uses of klee to pose a query: expressions, constraint sets and the solver.
-- The library is a parameter; `Semantics` and `Decides` state its documented behaviour.
use coverage_vp.Base.{ℕ, ◌≡◌, ◌≢◌, ◌↔◌, Bool, true, false, ◌==◌, if◌then◌else◌, Option, none, some}

pub record Klee : Type 1 where
  pub Expr : Type 0
  pub Constraints : Type 0
  pub Assignment : Type 0
  -- `ConstraintSet()` and `ConstraintManager::addConstraint`.
  pub no_constraints : Constraints
  pub add_constraint : Constraints → Expr → Constraints
  -- `ConstraintManager::simplifyExpr`.
  pub simplify_expr : Constraints → Expr → Expr
  -- `EqExpr::alloc` with a constant of width one.
  pub eq_bool : Expr → Bool → Expr
  -- The expression of `Query::negateExpr`.
  pub is_zero : Expr → Expr
  -- `dyn_cast<ConstantExpr>` and `isTrue`.
  pub is_true : Expr → Bool
  -- `Solver::getInitialValues`, for all symbolic objects of the query.
  pub get_initial_values : Constraints → Expr → Option Assignment

-- The number that a truth value is.
abbrev pub bit : Bool → ℕ
bit true = 1
bit false = 0

-- What an expression is under an assignment, and what the calls promise of it.
pub record Semantics (k : Klee) : Type 1 where
  pub eval : k.Assignment → k.Expr → ℕ
  pub Satisfies : k.Assignment → k.Constraints → Type 0
  pub satisfies_none : (a : k.Assignment) → Satisfies a k.no_constraints
  pub satisfies_add :
      (a : k.Assignment) (cs : k.Constraints) (e : k.Expr)
      → Satisfies a (k.add_constraint cs e) ↔ (Satisfies a cs × (eval a e ≡ 1))
  pub eval_simplify :
      (a : k.Assignment) (cs : k.Constraints) (e : k.Expr)
      → Satisfies a cs
      → eval a (k.simplify_expr cs e) ≡ eval a e
  pub eval_eq_bool :
      (a : k.Assignment) (e : k.Expr) (b : Bool)
      → eval a (k.eq_bool e b) ≡ (if eval a e == bit b then 1 else 0)
  pub eval_is_zero :
      (a : k.Assignment) (e : k.Expr) → eval a (k.is_zero e) ≡ (if eval a e == 0 then 1 else 0)
  pub true_eval : (a : k.Assignment) (e : k.Expr) → k.is_true e ≡ true → eval a e ≡ 1
  -- Initial values make the constraints hold and the query's expression false.
  pub values_refute :
      (cs : k.Constraints) (e : k.Expr) (a : k.Assignment)
      → k.get_initial_values cs e ≡ some a
      → Satisfies a cs × (eval a e ≡ 0)

-- The solver finds such values if there are any: it meets no timeout.
pub record Decides (k : Klee) (s : Semantics k) : Type 0 where
  pub values_found :
      (cs : k.Constraints) (e : k.Expr) (a : k.Assignment)
      → k.get_initial_values cs e ≡ none
      → s.Satisfies a cs
      → s.eval a e ≢ 0
