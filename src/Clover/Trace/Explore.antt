-- ===== src/Clover/Trace/Explore.antt =====
-- `Trace::findNewPath` (vp/src/symex/clover/trace.cpp): termination, the path that it returns an
-- assignment for, and what `nullopt` means.
use coverage_vp.Base.{
  ℕ, zero, suc, ◌<◌, ◌≡◌, refl, subst, [], ◌∷◌, inl, inr, none, some, Option-cases, arith,
}
use coverage_vp.Clover.Klee.{Klee, Semantics, Decides}
use coverage_vp.Clover.Branch.{Branch, BranchPath, node, Outcome, found, exhausted, get_random_path}
use coverage_vp.Clover.Branch.Frontier.{
  candidates, Frontier, mark, Finds, candidates-mark, Frontier-mark_of, Frontier-mark,
  get_random_path-Finds,
}
use coverage_vp.Clover.Trace.{
  Trace, Result, returned, thrown, no_fuel, new_query, get_assignment, attempt, find_new_path,
}
use coverage_vp.Clover.Trace.Flip.{Flips, new_query_made, get_assignment-Flips, get_assignment-none}

module _ (k : Klee) (s : Semantics k) where
  open k use {Expr, Constraints, Assignment, no_constraints}

  -- How a call on the tree `t` may end.
  abbrev pub Ends : {R : Type 0} → Trace k → Result k R → Type 0
  Ends t (returned (some a) u r) =
      ((p : BranchPath Expr) × Frontier p t.root × Flips k s a p)
      × (candidates u.root < candidates t.root)
  Ends t (returned none u r) = candidates u.root ≡ 0
  Ends t thrown = ⊥
  Ends t no_fuel = ⊥

  -- What holds after a mark held before.
  Ends-mark :
      {R : Type 0} (t : Trace k) (q : BranchPath Expr) (o : Result k R)
      → Frontier q t.root
      → Ends (record t { root = mark q t.root }) o
      → Ends t o
  Ends-mark t q (returned (some a) u r) f ((p, on, flips), less) =
      ((p, Frontier-mark_of p q t.root on, flips), omega (arith, candidates-mark q t.root f))
  Ends-mark t q (returned none u r) f e = e
  Ends-mark t q thrown f e = e
  Ends-mark t q no_fuel f e = e

  not-Frontier-nil : (t : Branch Expr) → Frontier [] t → ⊥
  not-Frontier-nil (node (some b) n t f) h = h
  not-Frontier-nil t h = h

  attempt-Ends :
      {R : Type 0} (t : Trace k) (p : BranchPath Expr) (r : R) (again : Trace k → R → Result k R)
      → Frontier p t.root
      → Ends (record t { root = mark p t.root }) (again (record t { root = mark p t.root }) r)
      → Ends t
          (attempt k (record t { root = mark p t.root }) r (new_query k no_constraints p) again)
  unfolding attempt
  attempt-Ends t [] r again f h = absurd (not-Frontier-nil t.root f)
  attempt-Ends t ((b, d) ∷ p) r again f h =
      let (q, made) = new_query_made k s no_constraints b d p in
      elim (Option-cases (get_assignment k q)) [
        | inl unsat ↦ rw (made, attempt, unsat) (Ends-mark t ((b, d) ∷ p) _ f h)
        | inr (a, sat) ↦
            rw (made, attempt, sat)
              (
                (
                  (b, d) ∷ p,
                  f,
                  (get_assignment-Flips k s no_constraints ((b, d) ∷ p) q a made sat).1,
                ),
                omega (arith, candidates-mark ((b, d) ∷ p) t.root f),
              )
      ]

  -- A pass that leads to `nullopt` made an infeasible query and went on.
  attempt-none :
      {R : Type 0} (t u : Trace k) (p : BranchPath Expr) (r z : R)
      (again : Trace k → R → Result k R)
      → Decides k s
      → attempt k t r (new_query k no_constraints p) again ≡ returned none u z
      → ((a : Assignment) → ¬ Flips k s a p) × (again t r ≡ returned none u z)
  unfolding attempt
  attempt-none t u [] r z again v h = ((λ a f. f), unfold new_query in cc)
  attempt-none t u ((b, d) ∷ p) r z again v h =
      let (q, made) = new_query_made k s no_constraints b d p in
      elim (Option-cases (get_assignment k q)) [
        | inl unsat ↦ (
          (λ a.
              get_assignment-none k s v no_constraints ((b, d) ∷ p) q a made unsat
                (s.satisfies_none a)),
          rw (made, attempt, unsat) at h,
        )
        | inr (a, sat) ↦ absurd (refute a (rw (made, attempt, sat) at h))
      ]
    where
      refute :
          (a : Assignment) → ◌≡◌ {A = Result k _} (returned (some a) t r) (returned none u z) → ⊥
      refute a e = cc

  module _ {R : Type 0} (rand : R → ℕ × R) where
    -- With fuel for every candidate the loop ends: it does not throw, an assignment that it returns
    -- flips the last condition of a path of the tree whose other side was never entered, and marks
    -- one candidate at least; without an assignment no candidate is left.
    pub find_new_path-Ends :
        (fuel : ℕ) (t : Trace k) (r : R)
        → candidates t.root < fuel
        → Ends t (find_new_path k rand fuel t r)
    unfolding find_new_path
    find_new_path-Ends zero t r h = absurd (omega arith)
    find_new_path-Ends (suc fuel) t r h =
        go (get_random_path rand r t.root) refl (find_new_path-Ends fuel)
      where
        go :
            (o : Outcome Expr R)
            → get_random_path rand r t.root ≡ o
            → ((u : Trace k) (z : R)
                → candidates u.root < fuel
                → Ends u (find_new_path k rand fuel u z))
            → Ends t (find_new_path k rand (suc fuel) t r)
        go (exhausted z) e again =
            rw (e, find_new_path) (subst (Finds t.root) e (get_random_path-Finds rand r t.root))
        go (found p u z) e again =
            let on = subst (Finds t.root) e (get_random_path-Finds rand r t.root) in
            rw (e, find_new_path)
              (rw on.1 (
                attempt-Ends t p z (find_new_path k rand fuel) on.0 (
                  again (record t { root = mark p t.root }) z
                    (omega (arith, candidates-mark p t.root on.0)))))

    -- If `nullopt` is returned, and the solver decides its queries, no candidate of the tree is feasible: for
    -- a path to a node that was not negated before and whose other side was never entered, no assignment
    -- follows the path and takes that side at its end. Of nodes that were negated before nothing is said.
    pub find_new_path-none :
        Decides k s
        → (fuel : ℕ) (t u : Trace k) (r z : R) → find_new_path k rand fuel t r ≡ returned none u z
        → (p : BranchPath Expr) → Frontier p t.root
        → (a : Assignment) → ¬ Flips k s a p
    unfolding find_new_path
    find_new_path-none v zero t u r z h p on a = cc
    find_new_path-none v (suc fuel) t u r z h p on a =
        go (get_random_path rand r t.root) refl (find_new_path-none v fuel)
      where
        go :
            (o : Outcome Expr R)
            → get_random_path rand r t.root ≡ o
            → ((t' u' : Trace k) (r' z' : R)
                → find_new_path k rand fuel t' r' ≡ returned none u' z'
                → (p' : BranchPath Expr) → Frontier p' t'.root
                → (a' : Assignment) → ¬ Flips k s a' p')
            → ¬ Flips k s a p
        go (exhausted y) e again =
            let zero_left = subst (Finds t.root) e (get_random_path-Finds rand r t.root) in
            absurd (omega (arith, candidates-mark p t.root on))
        go (found q w y) e again =
            let on_q = subst (Finds t.root) e (get_random_path-Finds rand r t.root) in
            let pass =
              attempt-none (record t { root = w }) u q y z (find_new_path k rand fuel) v
                (rw (e, find_new_path) at h) in
            elim (Frontier-mark p q t.root on on_q.0) [
              | inl same ↦ rw same (pass.0 a)
              | inr other ↦ again (record t { root = w }) u y z pass.1 p (rw on_q.1 other) a
            ]
