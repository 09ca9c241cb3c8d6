-- ===== src/Clover/Trace.antt =====
-- vp/src/symex/clover/trace.cpp, with `Solver::getAssignment` of solver.cpp. The pointer
-- `pathCondsCurrent` is the list of directions that lead to its node from the root, `none` for null.
pub mod Flip
pub mod Explore
pub mod Runs
use coverage_vp.Base.{
  ℕ, zero, suc, Bool, true, false, if◌then◌else◌, List, [], ◌∷◌, ◌++◌, Option, none, some,
}
use coverage_vp.Clover.Klee.{Klee}
use coverage_vp.Clover.Branch.{
  Branch, BranchPath, placeholder, found, exhausted, get_random_path, add_at,
}

module _ (k : Klee) where
  open k use {
    Expr, Constraints, Assignment, no_constraints, add_constraint, simplify_expr, eq_bool, is_zero,
    is_true, get_initial_values,
  }

  pub record Query : Type 0 where
    pub constraints : Constraints
    pub expr : Expr

  pub record Trace : Type 0 where
    pub cs : Constraints
    pub root : Branch Expr
    pub current : Option (List Bool)

  -- `Trace(solver)`.
  pub init : Trace
  init = record { cs = no_constraints; root = placeholder; current = none }

  pub reset : Trace → Trace
  reset t = record t { cs = no_constraints; current = none }

  abbrev pub position : Option (List Bool) → List Bool
  position none = []
  position (some p) = p

  pub add : Trace → Bool → Expr → Trace
  add t condition bv = record {
    cs = add_constraint t.cs (eq_bool bv condition);
    root = add_at (position t.current) condition bv t.root;
    current = some (position t.current ++ (condition ∷ []));
  }

  unfoldable pub get_query : Trace → Expr → Query
  get_query t bv = record { constraints = t.cs; expr = simplify_expr t.cs bv }

  -- `Query::negateExpr`.
  abbrev pub negate_expr : Query → Query
  negate_expr q = record q { expr = is_zero q.expr }

  -- `none` is the `throw "unreachable"` of an empty path.
  unfoldable pub new_query : Constraints → BranchPath Expr → Option Query
  new_query cs [] = none
  new_query cs ((bv, cond) ∷ []) =
      some (negate_expr (record { constraints = cs; expr = simplify_expr cs (eq_bool bv cond) }))
  new_query cs ((bv, cond) ∷ e ∷ path) = new_query (add_constraint cs (eq_bool bv cond)) (e ∷ path)

  -- `Solver::getAssignment`.
  unfoldable pub get_assignment : Query → Option Assignment
  get_assignment query =
      let nq = negate_expr query in
      if is_true nq.expr then none else get_initial_values nq.constraints nq.expr

  -- How `findNewPath` ends: it returns, it throws, or the fuel of the model runs out.
  pub data Result (R : Type 0) : Type 0 where
    returned : Option Assignment → Trace → R → Result R
    thrown no_fuel : Result R

  module _ {R : Type 0} where
    -- One pass of the `do` loop over what `getRandomPath` gave; `again` is the next pass.
    unfoldable pub attempt : Trace → R → Option Query → (Trace → R → Result R) → Result R
    attempt t r none again = thrown
    attempt t r (some query) again = elim (get_assignment query) [
      | none ↦ again t r
      | some a ↦ returned (some a) t r
    ]

  module _ {R : Type 0} (rand : R → ℕ × R) where
    unfoldable pub find_new_path : ℕ → Trace → R → Result R
    find_new_path zero t r = no_fuel
    find_new_path (suc fuel) t r = elim (get_random_path rand r t.root) [
      | exhausted s ↦ returned none t s
      | found path root s ↦
          attempt (record t { root = root }) s (new_query no_constraints path) (find_new_path fuel)
    ]
