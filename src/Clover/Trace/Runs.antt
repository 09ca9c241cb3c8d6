-- ===== src/Clover/Trace/Runs.antt =====
-- The calls of `Trace::add` in one execution of the program (vp/src/symex/clover/trace.cpp), from
-- `reset` on: each branch on a symbolic value makes one.
use coverage_vp.Base.{
  ◌+◌, ◌≤◌, ◌≡◌, refl, subst, ◌∙◌, Bool, true, false, List, [], ◌∷◌, ◌++◌, length, arith,
}
use mathlib.Core.List.{append_assoc, append-nil}
use coverage_vp.Clover.Klee.{Klee}
use coverage_vp.Clover.Branch.{BranchPath, Branch, nullptr, node}
use coverage_vp.Clover.Branch.Frontier.{candidates, Frontier}
use coverage_vp.Clover.Branch.Grow.{
  Explored, flipped, WellFormed, add_at-Explored, add_at_keeps, add_at-WellFormed,
  candidates-add_at, Explored-not-Frontier,
}
use coverage_vp.Clover.Trace.{Trace, init, reset, add, position}

module _ (k : Klee) where
  open k use {Expr}

  -- The branches of an execution, in order: direction and condition.
  pub add_all : Trace k → List (Bool × Expr) → Trace k
  add_all t [] = t
  add_all t ((c, b) ∷ run) = add_all (add k t c b) run

  abbrev pub directions : List (Bool × Expr) → List Bool
  directions [] = []
  directions ((c, b) ∷ run) = c ∷ directions run

  -- The current node is in the tree.
  pub record IsValid (t : Trace k) : Type 0 where
    pub here : Explored (position k t.current) t.root
    pub formed : WellFormed t.root

  pub init-IsValid : IsValid (init k)
  unfolding init
  init-IsValid = record { here = tt; formed = (refl, refl, refl) }

  pub add-IsValid : (t : Trace k) (c : Bool) (b : Expr) → IsValid t → IsValid (add k t c b)
  unfolding add
  add-IsValid t c b v = record {
    here = add_at-Explored (position k t.current) c b t.root v.here;
    formed = add_at-WellFormed (position k t.current) c b t.root v.here v.formed;
  }

  Explored-nil : (p : List Bool) (t : Branch Expr) → Explored p t → Explored [] t
  Explored-nil p (node v n t f) h = tt
  Explored-nil p nullptr h = absurd h

  Explored-prefix : (p q : List Bool) (t : Branch Expr) → Explored (p ++ q) t → Explored p t
  Explored-prefix p q nullptr h = h
  Explored-prefix [] q (node v n t f) h = tt
  Explored-prefix (true ∷ p) q (node v n t f) h = Explored-prefix p q t h
  Explored-prefix (false ∷ p) q (node v n t f) h = Explored-prefix p q f h

  pub reset-IsValid : (t : Trace k) → IsValid t → IsValid (reset k t)
  unfolding reset
  reset-IsValid t v = record {
    here = Explored-nil (position k t.current) t.root v.here;
    formed = v.formed;
  }

  add_all-IsValid : (t : Trace k) (run : List (Bool × Expr)) → IsValid t → IsValid (add_all t run)
  unfolding add_all
  add_all-IsValid t [] v = v
  add_all-IsValid t ((c, b) ∷ run) v = add_all-IsValid (add k t c b) run (add-IsValid t c b v)

  -- The current node after the run is where its directions lead from the node before it.
  position-add_all :
      (t : Trace k) (run : List (Bool × Expr))
      → position k (add_all t run).current ≡ position k t.current ++ directions run
  unfolding add_all add
  position-add_all t [] = simp append-nil
  position-add_all t ((c, b) ∷ run) =
      position-add_all (add k t c b) run
      ∙ append_assoc (position k t.current) (c ∷ []) (directions run)

  add_all_keeps :
      (t : Trace k) (run : List (Bool × Expr)) (q : List Bool)
      → Explored q t.root
      → Explored q (add_all t run).root
  unfolding add_all add
  add_all_keeps t [] q h = h
  add_all_keeps t ((c, b) ∷ run) q h =
      add_all_keeps (add k t c b) run q (add_at_keeps (position k t.current) c b t.root q h)

  candidates-add_all :
      (t : Trace k) (run : List (Bool × Expr))
      → IsValid t
      → candidates (add_all t run).root ≤ candidates t.root + length run
  unfolding add_all add
  candidates-add_all t [] v = omega arith
  candidates-add_all t ((c, b) ∷ run) v = omega (
    arith,
    candidates-add_all (add k t c b) run (add-IsValid t c b v),
    candidates-add_at (position k t.current) c b t.root v.formed,
  )

  -- One execution of the program: the calls after `reset`.
  pub execution : Trace k → List (Bool × Expr) → Trace k
  execution t run = add_all (reset k t) run

  -- An execution keeps the tree well formed with the current node in it, records the directions
  -- that it took, forgets none that an earlier execution took, and makes at most one new candidate
  -- for each of its branches.
  pub execution-IsValid :
      (t : Trace k) (run : List (Bool × Expr))
      → IsValid t
      → IsValid (execution t run)
        × Explored (directions run) (execution t run).root
        × ((q : List Bool) → Explored q t.root → Explored q (execution t run).root)
        × (candidates (execution t run).root ≤ candidates t.root + length run)
  unfolding execution reset
  execution-IsValid t run v =
      let w = reset-IsValid t v in
      let x = add_all-IsValid (reset k t) run w in
      (
        x,
        subst (λ p. Explored p (add_all (reset k t) run).root) (position-add_all (reset k t) run)
            x.here,
        add_all_keeps (reset k t) run,
        candidates-add_all (reset k t) run w,
      )

  -- An execution that follows a path of the tree and then goes the other way at its last condition
  -- closes that path: it is no longer one that a search can return.
  pub execution_closes :
      (t : Trace k) (run : List (Bool × Expr)) (p : BranchPath Expr) (rest : List Bool)
      → IsValid t
      → directions run ≡ flipped p ++ rest
      → ¬ Frontier p (execution t run).root
  execution_closes t run p rest v e =
      let there = (execution-IsValid t run v).1 in
      Explored-not-Frontier p (execution t run).root (
        Explored-prefix (flipped p) rest (execution t run).root
          (subst (λ q. Explored q (execution t run).root) e there))
