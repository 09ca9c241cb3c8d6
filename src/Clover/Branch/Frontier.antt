-- ===== src/Clover/Branch/Frontier.antt =====
-- What `getRandomPath` (vp/src/symex/clover/branch.cpp) finds and how its search ends.
use coverage_vp.Base.{
  ℕ, suc, ◌+◌, ◌%◌, ◌≡◌, refl, sym, ap, ◌∙◌, ◌⊎◌, Bool, true, false, not, ◌==◌, if◌then◌else◌,
  Bool-cases, inl, inr, [], ◌∷◌, none, some, arith,
}
use coverage_vp.Clover.Branch.{
  Branch, nullptr, node, BranchPath, Outcome, found, exhausted, is_null, is_candidate,
  get_random_path, or_else, below,
}

module _ {E : Type 0} where
  -- The nodes under real conditions that are still to be negated.
  unfoldable pub candidates : Branch E → ℕ
  candidates nullptr = 0
  candidates (node none n t f) = 0
  candidates (node (some b) n t f) =
      (if is_candidate n t f then 1 else 0) + candidates t + candidates f

  -- The path runs along the tree's conditions to a node that was not negated yet, and the side that
  -- it does not take there is not in the tree.
  abbrev pub Frontier : BranchPath E → Branch E → Type 0
  Frontier p nullptr = ⊥
  Frontier p (node none n t f) = ⊥
  Frontier [] (node (some b) n t f) = ⊥
  Frontier ((c, true) ∷ []) (node (some b) n t f) =
      (c ≡ b) × (n ≡ false) × (is_null t ≡ false) × (is_null f ≡ true)
  Frontier ((c, false) ∷ []) (node (some b) n t f) = (c ≡ b) × (n ≡ false) × (is_null t ≡ true)
  Frontier ((c, true) ∷ e ∷ p) (node (some b) n t f) = (c ≡ b) × Frontier (e ∷ p) t
  Frontier ((c, false) ∷ e ∷ p) (node (some b) n t f) = (c ≡ b) × Frontier (e ∷ p) f

  -- The tree with the node at the path's end marked as negated.
  abbrev pub mark : BranchPath E → Branch E → Branch E
  mark p nullptr = nullptr
  mark [] (node b n t f) = node b n t f
  mark ((c, d) ∷ []) (node b n t f) = node b true t f
  mark ((c, true) ∷ e ∷ p) (node b n t f) = node b n (mark (e ∷ p) t) f
  mark ((c, false) ∷ e ∷ p) (node b n t f) = node b n t (mark (e ∷ p) f)

  is_null-mark : (p : BranchPath E) (t : Branch E) → is_null (mark p t) ≡ is_null t
  is_null-mark p nullptr = refl
  is_null-mark [] (node b n t f) = refl
  is_null-mark ((c, d) ∷ []) (node b n t f) = refl
  is_null-mark ((c, true) ∷ e ∷ p) (node b n t f) = refl
  is_null-mark ((c, false) ∷ e ∷ p) (node b n t f) = refl

  pub candidates-mark :
      (p : BranchPath E) (t : Branch E) → Frontier p t → candidates t ≡ suc (candidates (mark p t))
  unfolding candidates
  candidates-mark p nullptr h = absurd h
  candidates-mark p (node none n t f) h = absurd h
  candidates-mark [] (node (some b) n t f) h = absurd h
  candidates-mark ((c, true) ∷ []) (node (some b) n t f) h = ground arith
  candidates-mark ((c, false) ∷ []) (node (some b) n t f) h = ground arith
  candidates-mark ((c, true) ∷ e ∷ p) (node (some b) n t f) h =
      rw (is_null-mark (e ∷ p) t) (omega (arith, candidates-mark (e ∷ p) t h.1))
  candidates-mark ((c, false) ∷ e ∷ p) (node (some b) n t f) h =
      rw (is_null-mark (e ∷ p) f) (omega (arith, candidates-mark (e ∷ p) f h.1))

  -- Marking opens no path.
  pub Frontier-mark_of : (p q : BranchPath E) (t : Branch E) → Frontier p (mark q t) → Frontier p t
  Frontier-mark_of p q nullptr h = h
  Frontier-mark_of p q (node none n t f) h = blocked q h
    where
      blocked : (q : BranchPath E) → Frontier p (mark q (node none n t f)) → ⊥
      blocked [] h = h
      blocked ((c, d) ∷ []) h = h
      blocked ((c, true) ∷ e ∷ q) h = h
      blocked ((c, false) ∷ e ∷ q) h = h
  Frontier-mark_of p [] (node (some b) n t f) h = h
  Frontier-mark_of [] ((c, d) ∷ []) (node (some b) n t f) h = h
  Frontier-mark_of ((c, true) ∷ []) ((c', d) ∷ []) (node (some b) n t f) h = ground arith
  Frontier-mark_of ((c, false) ∷ []) ((c', d) ∷ []) (node (some b) n t f) h = ground arith
  Frontier-mark_of ((c, true) ∷ e ∷ p) ((c', d) ∷ []) (node (some b) n t f) h = h
  Frontier-mark_of ((c, false) ∷ e ∷ p) ((c', d) ∷ []) (node (some b) n t f) h = h
  Frontier-mark_of [] ((c', true) ∷ e ∷ q) (node (some b) n t f) h = h
  Frontier-mark_of [] ((c', false) ∷ e ∷ q) (node (some b) n t f) h = h
  Frontier-mark_of ((c, true) ∷ []) ((c', true) ∷ e ∷ q) (node (some b) n t f) h =
      (h.0, h.1, sym (is_null-mark (e ∷ q) t) ∙ h.2, h.3)
  Frontier-mark_of ((c, false) ∷ []) ((c', true) ∷ e ∷ q) (node (some b) n t f) h =
      (h.0, h.1, sym (is_null-mark (e ∷ q) t) ∙ h.2)
  Frontier-mark_of ((c, true) ∷ []) ((c', false) ∷ e ∷ q) (node (some b) n t f) h =
      (h.0, h.1, h.2, sym (is_null-mark (e ∷ q) f) ∙ h.3)
  Frontier-mark_of ((c, false) ∷ []) ((c', false) ∷ e ∷ q) (node (some b) n t f) h = h
  Frontier-mark_of ((c, true) ∷ g ∷ p) ((c', true) ∷ e ∷ q) (node (some b) n t f) h =
      (h.0, Frontier-mark_of (g ∷ p) (e ∷ q) t h.1)
  Frontier-mark_of ((c, true) ∷ g ∷ p) ((c', false) ∷ e ∷ q) (node (some b) n t f) h = h
  Frontier-mark_of ((c, false) ∷ g ∷ p) ((c', true) ∷ e ∷ q) (node (some b) n t f) h = h
  Frontier-mark_of ((c, false) ∷ g ∷ p) ((c', false) ∷ e ∷ q) (node (some b) n t f) h =
      (h.0, Frontier-mark_of (g ∷ p) (e ∷ q) f h.1)

  -- Marking closes the path that it marks and no other.
  pub Frontier-mark :
      (p q : BranchPath E) (t : Branch E)
      → Frontier p t
      → Frontier q t
      → (p ≡ q) ⊎ Frontier p (mark q t)
  Frontier-mark p q nullptr h g = absurd h
  Frontier-mark p q (node none n t f) h g = absurd h
  Frontier-mark [] q (node (some b) n t f) h g = absurd h
  Frontier-mark (e ∷ p) [] (node (some b) n t f) h g = absurd g
  Frontier-mark ((c, true) ∷ []) ((c', true) ∷ []) (node (some b) n t f) h g = inl (cc)
  Frontier-mark ((c, true) ∷ []) ((c', false) ∷ []) (node (some b) n t f) h g = absurd (cc)
  Frontier-mark ((c, false) ∷ []) ((c', true) ∷ []) (node (some b) n t f) h g = absurd (cc)
  Frontier-mark ((c, false) ∷ []) ((c', false) ∷ []) (node (some b) n t f) h g = inl (cc)
  Frontier-mark ((c, true) ∷ e ∷ p) ((c', d) ∷ []) (node (some b) n t f) h g = inr h
  Frontier-mark ((c, false) ∷ e ∷ p) ((c', d) ∷ []) (node (some b) n t f) h g = inr h
  Frontier-mark ((c, true) ∷ []) ((c', true) ∷ e ∷ q) (node (some b) n t f) h g =
      inr (h.0, h.1, is_null-mark (e ∷ q) t ∙ h.2, h.3)
  Frontier-mark ((c, false) ∷ []) ((c', true) ∷ e ∷ q) (node (some b) n t f) h g =
      inr (h.0, h.1, is_null-mark (e ∷ q) t ∙ h.2)
  Frontier-mark ((c, true) ∷ []) ((c', false) ∷ e ∷ q) (node (some b) n t f) h g =
      inr (h.0, h.1, h.2, is_null-mark (e ∷ q) f ∙ h.3)
  Frontier-mark ((c, false) ∷ []) ((c', false) ∷ e ∷ q) (node (some b) n t f) h g = inr h
  Frontier-mark ((c, true) ∷ k ∷ p) ((c', true) ∷ e ∷ q) (node (some b) n t f) h g =
      elim (Frontier-mark (k ∷ p) (e ∷ q) t h.1 g.1) [
        | inl same ↦ inl (cc)
        | inr other ↦ inr (h.0, other)
      ]
  Frontier-mark ((c, true) ∷ k ∷ p) ((c', false) ∷ e ∷ q) (node (some b) n t f) h g = inr h
  Frontier-mark ((c, false) ∷ k ∷ p) ((c', true) ∷ e ∷ q) (node (some b) n t f) h g = inr h
  Frontier-mark ((c, false) ∷ k ∷ p) ((c', false) ∷ e ∷ q) (node (some b) n t f) h g =
      elim (Frontier-mark (k ∷ p) (e ∷ q) f h.1 g.1) [
        | inl same ↦ inl (cc)
        | inr other ↦ inr (h.0, other)
      ]

  -- What each outcome of a search of `t` says.
  abbrev pub Finds : {R : Type 0} → Branch E → Outcome E R → Type 0
  Finds t (found p u r) = Frontier p t × (u ≡ mark p t)
  Finds t (exhausted r) = candidates t ≡ 0

  below-true-Finds :
      {R : Type 0} (b : E) (n : Bool) (t f : Branch E) (p : BranchPath E) (u : Branch E) (r : R)
      → Finds t (found p u r)
      → Finds (node (some b) n t f) (below b true (λ t'. node (some b) n t' f) (found p u r))
  below-true-Finds b n nullptr f p u r h = absurd h.0
  below-true-Finds b n (node none m v w) f p u r h = absurd h.0
  below-true-Finds b n (node (some a) m v w) f [] u r h = absurd h.0
  below-true-Finds b n (node (some a) m v w) f (e ∷ p) u r h =
      ((refl, h.0), ap (λ t'. node (some b) n t' f) h.1)

  below-false-Finds :
      {R : Type 0} (b : E) (n : Bool) (t f : Branch E) (p : BranchPath E) (u : Branch E) (r : R)
      → Finds f (found p u r)
      → Finds (node (some b) n t f) (below b false (λ f'. node (some b) n t f') (found p u r))
  below-false-Finds b n t nullptr p u r h = absurd h.0
  below-false-Finds b n t (node none m v w) p u r h = absurd h.0
  below-false-Finds b n t (node (some a) m v w) [] u r h = absurd h.0
  below-false-Finds b n t (node (some a) m v w) (e ∷ p) u r h =
      ((refl, h.0), ap (λ f'. node (some b) n t f') h.1)

  -- The child that is tried last: with nothing in the other one, its outcome is the node's.
  true_last :
      {R : Type 0} (b : E) (n : Bool) (t f : Branch E) (o : Outcome E R)
      → is_candidate n t f ≡ false
      → candidates f ≡ 0
      → Finds t o
      → Finds (node (some b) n t f) (below b true (λ t'. node (some b) n t' f) o)
  unfolding candidates
  true_last b n t f (found p u r) c z h = below-true-Finds b n t f p u r h
  true_last b n t f (exhausted r) c z h = ground arith

  false_last :
      {R : Type 0} (b : E) (n : Bool) (t f : Branch E) (o : Outcome E R)
      → is_candidate n t f ≡ false
      → candidates t ≡ 0
      → Finds f o
      → Finds (node (some b) n t f) (below b false (λ f'. node (some b) n t f') o)
  unfolding candidates
  false_last b n t f (found p u r) c z h = below-false-Finds b n t f p u r h
  false_last b n t f (exhausted r) c z h = ground arith

  true_first :
      {R : Type 0} (b : E) (n : Bool) (t f : Branch E) (o : Outcome E R) (k : R → Outcome E R)
      → is_candidate n t f ≡ false
      → Finds t o
      → ((r : R) → Finds f (k r))
      → Finds (node (some b) n t f) (
          or_else
            (below b true (λ t'. node (some b) n t' f) o)
            (λ r. below b false (λ f'. node (some b) n t f') (k r)))
  true_first b n t f (found p u r) k c h all = below-true-Finds b n t f p u r h
  true_first b n t f (exhausted r) k c h all = false_last b n t f (k r) c h (all r)

  false_first :
      {R : Type 0} (b : E) (n : Bool) (t f : Branch E) (o : Outcome E R) (k : R → Outcome E R)
      → is_candidate n t f ≡ false
      → Finds f o
      → ((r : R) → Finds t (k r))
      → Finds (node (some b) n t f) (
          or_else
            (below b false (λ f'. node (some b) n t f') o)
            (λ r. below b true (λ t'. node (some b) n t' f) (k r)))
  false_first b n t f (found p u r) k c h all = below-false-Finds b n t f p u r h
  false_first b n t f (exhausted r) k c h all = true_last b n t f (k r) c h (all r)

  here-Finds :
      {R : Type 0} (b : E) (n : Bool) (t f : Branch E) (r : R)
      → is_candidate n t f ≡ true
      → Finds (node (some b) n t f) (found ((b, not (is_null t)) ∷ []) (node (some b) true t f) r)
  here-Finds b n nullptr f r c = ground arith
  here-Finds b n (node a m v w) f r c = ground arith

-- A search finds a path to a node that is still to be negated, with the direction not taken there
-- missing from the tree, and marks that node and nothing else; it fails only if no such node is
-- left. This holds whatever `rand` returns.
pub get_random_path-Finds :
    {E R : Type 0} (rand : R → ℕ × R) (r : R) (t : Branch E) → Finds t (get_random_path rand r t)
unfolding get_random_path candidates
get_random_path-Finds rand r nullptr = refl
get_random_path-Finds rand r (node none n t f) = refl
get_random_path-Finds rand r (node (some b) n t f) = elim (Bool-cases (is_candidate n t f)) [
  | inl c ↦ rw (c, get_random_path) (here-Finds b n t f r c)
  | inr c ↦ elim (Bool-cases ((rand r).0 % 2 == 0)) [
    | inl even ↦
        rw (c, even, get_random_path)
          (true_first b n t f (get_random_path rand (rand r).1 t) (λ s. get_random_path rand s f) c
            (get_random_path-Finds rand (rand r).1 t) (λ s. get_random_path-Finds rand s f))
    | inr odd ↦
        rw (c, odd, get_random_path)
          (false_first b n t f (get_random_path rand (rand r).1 f) (λ s. get_random_path rand s t) c
            (get_random_path-Finds rand (rand r).1 f) (λ s. get_random_path-Finds rand s t))
  ]
]
