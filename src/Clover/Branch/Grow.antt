-- ===== src/Clover/Branch/Grow.antt =====
-- How `Trace::add` grows the execution tree (vp/src/symex/clover/trace.cpp).
use coverage_vp.Base.{
  suc, ◌≤◌, ◌≡◌, refl, Bool, true, false, not, ◌&&◌, List, [], ◌∷◌, ◌++◌, none, some, arith,
}
use coverage_vp.Clover.Branch.{Branch, nullptr, node, BranchPath, is_null, ensure, add_at}
use coverage_vp.Clover.Branch.Frontier.{candidates, Frontier}

module _ {E : Type 0} where
  -- The directions lead from the root to a node of the tree.
  abbrev pub Explored : List Bool → Branch E → Type 0
  Explored p nullptr = ⊥
  Explored [] (node b n t f) = Unit {0}
  Explored (true ∷ p) (node b n t f) = Explored p t
  Explored (false ∷ p) (node b n t f) = Explored p f

  -- The directions of a path, and those of the run that would flip its last condition.
  abbrev pub flipped : BranchPath E → List Bool
  flipped [] = []
  flipped ((b, d) ∷ []) = not d ∷ []
  flipped ((b, d) ∷ e ∷ p) = d ∷ flipped (e ∷ p)

  pub add_at-Explored :
      (p : List Bool) (c : Bool) (b : E) (t : Branch E)
      → Explored p t
      → Explored (p ++ (c ∷ [])) (add_at p c b t)
  unfolding add_at
  add_at-Explored p c b nullptr h = h
  add_at-Explored [] true b (node v n nullptr f) h = tt
  add_at-Explored [] true b (node v n (node w m x y) f) h = tt
  add_at-Explored [] false b (node v n t nullptr) h = tt
  add_at-Explored [] false b (node v n t (node w m x y)) h = tt
  add_at-Explored (true ∷ p) c b (node v n t f) h = add_at-Explored p c b t h
  add_at-Explored (false ∷ p) c b (node v n t f) h = add_at-Explored p c b f h

  ensure-Explored : (q : List Bool) (t : Branch E) → Explored q t → Explored q (ensure t)
  ensure-Explored q nullptr h = absurd h
  ensure-Explored q (node v n t f) h = h

  -- What was explored stays so.
  pub add_at_keeps :
      (p : List Bool) (c : Bool) (b : E) (t : Branch E) (q : List Bool)
      → Explored q t
      → Explored q (add_at p c b t)
  unfolding add_at
  add_at_keeps p c b nullptr q h = h
  add_at_keeps [] true b (node v n t f) [] h = tt
  add_at_keeps [] false b (node v n t f) [] h = tt
  add_at_keeps [] true b (node v n t f) (true ∷ q) h = ensure-Explored q t h
  add_at_keeps [] true b (node v n t f) (false ∷ q) h = h
  add_at_keeps [] false b (node v n t f) (true ∷ q) h = h
  add_at_keeps [] false b (node v n t f) (false ∷ q) h = ensure-Explored q f h
  add_at_keeps (true ∷ p) c b (node v n t f) [] h = tt
  add_at_keeps (false ∷ p) c b (node v n t f) [] h = tt
  add_at_keeps (true ∷ p) c b (node v n t f) (true ∷ q) h = add_at_keeps p c b t q h
  add_at_keeps (true ∷ p) c b (node v n t f) (false ∷ q) h = h
  add_at_keeps (false ∷ p) c b (node v n t f) (true ∷ q) h = h
  add_at_keeps (false ∷ p) c b (node v n t f) (false ∷ q) h = add_at_keeps p c b f q h

  is_null-add_at :
      (p : List Bool) (c : Bool) (b : E) (t : Branch E) → is_null (add_at p c b t) ≡ is_null t
  unfolding add_at
  is_null-add_at p c b nullptr = refl
  is_null-add_at [] true b (node v n t f) = refl
  is_null-add_at [] false b (node v n t f) = refl
  is_null-add_at (true ∷ p) c b (node v n t f) = refl
  is_null-add_at (false ∷ p) c b (node v n t f) = refl

  candidates-ensure : (t : Branch E) → candidates (ensure t) ≡ candidates t
  unfolding candidates
  candidates-ensure nullptr = refl
  candidates-ensure (node v n t f) = refl

  -- A placeholder has no children and was not negated; any other node has one child at least.
  abbrev pub WellFormed : Branch E → Type 0
  WellFormed nullptr = Unit {0}
  WellFormed (node none n t f) = (n ≡ false) × (is_null t ≡ true) × (is_null f ≡ true)
  WellFormed (node (some v) n t f) =
      ((is_null t && is_null f) ≡ false) × WellFormed t × WellFormed f

  ensure-WellFormed : (t : Branch E) → WellFormed t → WellFormed (ensure t)
  ensure-WellFormed nullptr h = (refl, refl, refl)
  ensure-WellFormed (node v n t f) h = h

  null-WellFormed : (t : Branch E) → is_null t ≡ true → WellFormed t
  null-WellFormed nullptr h = tt
  null-WellFormed (node v n t f) h = cc

  is_null-ensure : (t : Branch E) → is_null (ensure t) ≡ false
  is_null-ensure nullptr = refl
  is_null-ensure (node v n t f) = refl

  candidates_null : (t : Branch E) → is_null t ≡ true → candidates t ≡ 0
  unfolding candidates
  candidates_null nullptr h = refl
  candidates_null (node v n t f) h = cc

  pub add_at-WellFormed :
      (p : List Bool) (c : Bool) (b : E) (t : Branch E)
      → Explored p t
      → WellFormed t
      → WellFormed (add_at p c b t)
  unfolding add_at
  add_at-WellFormed p c b nullptr x h = h
  add_at-WellFormed [] true b (node none n t f) x h = (
    ground (arith, is_null-ensure t),
    ensure-WellFormed t (null-WellFormed t h.1),
    null-WellFormed f h.2,
  )
  add_at-WellFormed [] false b (node none n t f) x h = (
    ground (arith, is_null-ensure f),
    null-WellFormed t h.1,
    ensure-WellFormed f (null-WellFormed f h.2),
  )
  add_at-WellFormed [] true b (node (some v) n t f) x h =
      (ground (arith, is_null-ensure t), ensure-WellFormed t h.1, h.2)
  add_at-WellFormed [] false b (node (some v) n t f) x h =
      (ground (arith, is_null-ensure f), h.1, ensure-WellFormed f h.2)
  add_at-WellFormed (true ∷ p) c b (node none n nullptr f) x h = absurd x
  add_at-WellFormed (true ∷ p) c b (node none n (node w m y z) f) x h = absurd (cc)
  add_at-WellFormed (false ∷ p) c b (node none n t nullptr) x h = absurd x
  add_at-WellFormed (false ∷ p) c b (node none n t (node w m y z)) x h = absurd (cc)
  add_at-WellFormed (true ∷ p) c b (node (some v) n t f) x h =
      (rw (is_null-add_at p c b t) h.0, add_at-WellFormed p c b t x h.1, h.2)
  add_at-WellFormed (false ∷ p) c b (node (some v) n t f) x h =
      (rw (is_null-add_at p c b f) h.0, h.1, add_at-WellFormed p c b f x h.2)

  -- One call makes one candidate at most.
  pub candidates-add_at :
      (p : List Bool) (c : Bool) (b : E) (t : Branch E)
      → WellFormed t
      → candidates (add_at p c b t) ≤ suc (candidates t)
  unfolding candidates add_at
  candidates-add_at p c b nullptr h = omega arith
  candidates-add_at [] true b (node none n t f) h =
      ground (arith, candidates-ensure t, candidates_null t h.1, candidates_null f h.2)
  candidates-add_at [] false b (node none n t f) h =
      ground (arith, candidates-ensure f, candidates_null t h.1, candidates_null f h.2)
  candidates-add_at [] true b (node (some v) n t f) h =
      ground (arith, candidates-ensure t, is_null-ensure t)
  candidates-add_at [] false b (node (some v) n t f) h =
      ground (arith, candidates-ensure f, is_null-ensure f)
  candidates-add_at (true ∷ p) c b (node none n t f) h = omega arith
  candidates-add_at (true ∷ p) c b (node (some v) n t f) h =
      rw (is_null-add_at p c b t) (omega (arith, candidates-add_at p c b t h.1))
  candidates-add_at (false ∷ p) c b (node none n t f) h = omega arith
  candidates-add_at (false ∷ p) c b (node (some v) n t f) h =
      rw (is_null-add_at p c b f) (omega (arith, candidates-add_at p c b f h.2))

  -- A path whose last condition was taken the other way is closed.
  pub Explored-not-Frontier :
      (p : BranchPath E) (t : Branch E) → Explored (flipped p) t → ¬ Frontier p t
  Explored-not-Frontier p nullptr h g = h
  Explored-not-Frontier p (node none n t f) h g = g
  Explored-not-Frontier [] (node (some v) n t f) h g = g
  Explored-not-Frontier ((b, true) ∷ []) (node (some v) n t nullptr) h g = h
  Explored-not-Frontier ((b, true) ∷ []) (node (some v) n t (node w m x y)) h g = cc
  Explored-not-Frontier ((b, false) ∷ []) (node (some v) n nullptr f) h g = h
  Explored-not-Frontier ((b, false) ∷ []) (node (some v) n (node w m x y) f) h g = cc
  Explored-not-Frontier ((b, true) ∷ e ∷ p) (node (some v) n t f) h g =
      Explored-not-Frontier (e ∷ p) t h g.1
  Explored-not-Frontier ((b, false) ∷ e ∷ p) (node (some v) n t f) h g =
      Explored-not-Frontier (e ∷ p) f h g.1
