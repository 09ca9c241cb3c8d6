-- ===== src/Clover/Trace/Flip.antt =====
-- The queries of `Trace::newQuery` and what `Solver::getAssignment` answers to them.
use coverage_vp.Base.{◌≡◌, ◌≢◌, ◌↔◌, refl, Bool, if◌then◌else◌, [], ◌∷◌, none, some, arith, ◌==◌}
use coverage_vp.Clover.Klee.{Klee, Semantics, Decides, bit}
use coverage_vp.Clover.Branch.{BranchPath}
use coverage_vp.Clover.Trace.{Query, new_query, get_assignment}

module _ (k : Klee) (s : Semantics k) where
  open k use {Expr, Constraints, Assignment, eq_bool, is_zero, simplify_expr, add_constraint}
  open s use {eval, Satisfies}

  -- The assignment makes each condition of the path go the path's way but the last, which it flips.
  abbrev pub Flips : Assignment → BranchPath Expr → Type 0
  Flips a [] = ⊥
  Flips a ((b, d) ∷ []) = eval a b ≢ bit d
  Flips a ((b, d) ∷ e ∷ p) = (eval a b ≡ bit d) × Flips a (e ∷ p)

  -- The expression that the solver is asked to refute is true exactly if the last condition holds.
  refuted :
      (cs : Constraints) (b : Expr) (d : Bool) (a : Assignment)
      → Satisfies a cs
      → eval a (is_zero (is_zero (simplify_expr cs (eq_bool b d))))
        ≡ (if eval a b == bit d then 1 else 0)
  refuted cs b d a h = ground (
    arith,
    s.eval_is_zero a (is_zero (simplify_expr cs (eq_bool b d))),
    s.eval_is_zero a (simplify_expr cs (eq_bool b d)),
    s.eval_simplify a cs (eq_bool b d) h,
    s.eval_eq_bool a b d,
  )

  holds_iff :
      (a : Assignment) (b : Expr) (d : Bool) → (eval a (eq_bool b d) ≡ 1) ↔ (eval a b ≡ bit d)
  holds_iff a b d =
      (λ h. ground (arith, s.eval_eq_bool a b d), λ h. ground (arith, s.eval_eq_bool a b d))

  -- An empty path is the only one that makes no query.
  pub new_query_made :
      (cs : Constraints) (b : Expr) (d : Bool) (p : BranchPath Expr)
      → (q : Query k) × (new_query k cs ((b, d) ∷ p) ≡ some q)
  unfolding new_query
  new_query_made cs b d [] = (_, refl)
  new_query_made cs b d ((c, e) ∷ p) = new_query_made (add_constraint cs (eq_bool b d)) c e p

  -- An assignment that is returned for a path follows it and flips its last condition.
  pub get_assignment-Flips :
      (cs : Constraints) (path : BranchPath Expr) (q : Query k) (a : Assignment)
      → new_query k cs path ≡ some q
      → get_assignment k q ≡ some a
      → Satisfies a cs × Flips a path
  unfolding new_query get_assignment
  get_assignment-Flips cs [] q a made h = cc
  get_assignment-Flips cs ((b, d) ∷ []) q a made h = ground (
    arith,
    s.values_refute cs (is_zero (is_zero (simplify_expr cs (eq_bool b d)))) a,
    refuted cs b d a,
  )
  get_assignment-Flips cs ((b, d) ∷ e ∷ p) q a made h =
      let rest = get_assignment-Flips (add_constraint cs (eq_bool b d)) (e ∷ p) q a made h in
      let first = (s.satisfies_add a cs (eq_bool b d)).0 rest.0 in
      (first.0, ((holds_iff a b d).0 first.1, rest.1))

  -- If none is returned, no assignment does so.
  pub get_assignment-none :
      Decides k s
      → (cs : Constraints) (path : BranchPath Expr) (q : Query k) (a : Assignment)
      → new_query k cs path ≡ some q
      → get_assignment k q ≡ none
      → Satisfies a cs
      → ¬ Flips a path
  unfolding new_query get_assignment
  get_assignment-none v cs [] q a made h sat f = f
  get_assignment-none v cs ((b, d) ∷ []) q a made h sat f = ground (
    arith,
    v.values_found cs (is_zero (is_zero (simplify_expr cs (eq_bool b d)))) a,
    refuted cs b d a sat,
    s.true_eval a (is_zero (is_zero (simplify_expr cs (eq_bool b d)))),
  )
  get_assignment-none v cs ((b, d) ∷ e ∷ p) q a made h sat f =
      get_assignment-none v (add_constraint cs (eq_bool b d)) (e ∷ p) q a made h
        ((s.satisfies_add a cs (eq_bool b d)).1 (sat, (holds_iff a b d).1 f.0)) f.1
