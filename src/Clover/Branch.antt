-- ===== src/Clover/Branch.antt =====
-- vp/src/symex/clover/branch.cpp, and the tree walk of `Trace::add`: the execution tree and the
-- search for a branch that was not negated yet. A `shared_ptr<Branch>` is a value of `Branch`, with
-- `nullptr` for the null pointer: no node has two owners. `rand` is a parameter, a step of a
-- generator's state.
pub mod Frontier
pub mod Grow
use coverage_vp.Base.{
  ℕ, ◌%◌, Bool, true, false, not, ◌&&◌, ◌||◌, ◌==◌, if◌then◌else◌, List, [], ◌∷◌, Option, none,
  some,
}

-- A node's `bv` is `none` while it is a placeholder.
pub data Branch (E : Type 0) : Type 0 where
  nullptr : Branch E
  node : Option E → Bool → Branch E → Branch E → Branch E

-- A path of `getRandomPath`: conditions from the root down, with the direction taken at each.
abbrev pub BranchPath : Type 0 → Type 0
BranchPath E = List (E × Bool)

-- The outcome of `getRandomPath`: what it appended to the path, the tree with the chosen node
-- marked, and the generator; or `false`, with the tree and the path as they were.
pub data Outcome (E R : Type 0) : Type 0 where
  found : BranchPath E → Branch E → R → Outcome E R
  exhausted : R → Outcome E R

module _ {E : Type 0} where
  -- `Branch()`.
  abbrev pub placeholder : Branch E
  placeholder = node none false nullptr nullptr

  abbrev pub is_null : Branch E → Bool
  is_null nullptr = true
  is_null (node b n t f) = false

  -- A node to negate: its condition holds on one side only so far, and no query was made of it.
  abbrev pub is_candidate : Bool → Branch E → Branch E → Bool
  is_candidate negated t f = not negated && (is_null t || is_null f)

module _ {E R : Type 0} where
  -- The `else if` of the walk: the second child, if the first had no path.
  abbrev pub or_else : Outcome E R → (R → Outcome E R) → Outcome E R
  or_else (found p t r) k = found p t r
  or_else (exhausted r) k = k r

  -- A child's result as that of its parent: one more element on the path, the child replaced.
  abbrev pub below : E → Bool → (Branch E → Branch E) → Outcome E R → Outcome E R
  below b d put (found p t r) = found ((b, d) ∷ p) (put t) r
  below b d put (exhausted r) = exhausted r

module _ {E R : Type 0} (rand : R → ℕ × R) where
  unfoldable pub get_random_path : R → Branch E → Outcome E R
  get_random_path r nullptr = exhausted r
  get_random_path r (node none n t f) = exhausted r
  get_random_path r (node (some b) n t f) =
      let in_true = λ (s : R). below b true (λ t'. node (some b) n t' f) (get_random_path s t) in
      let in_false = λ (s : R). below b false (λ f'. node (some b) n t f') (get_random_path s f) in
      let (random, s) = rand r in
      elim (is_candidate n t f) [
        | true ↦ found ((b, not (is_null t)) ∷ []) (node (some b) true t f) r
        | false ↦ elim (random % 2 == 0) [
          | true ↦ or_else (in_true s) in_false
          | false ↦ or_else (in_false s) in_true
        ]
      ]

module _ {E : Type 0} where
  -- The child that the branch takes, made if it is not there.
  abbrev pub ensure : Branch E → Branch E
  ensure nullptr = placeholder
  ensure (node b n t f) = node b n t f

  abbrev pub set_if_placeholder : Option E → E → Option E
  set_if_placeholder none b = some b
  set_if_placeholder (some c) b = some c

  -- The node of `Trace::add`, which the directions lead to from the root.
  pub add_at : List Bool → Bool → E → Branch E → Branch E
  add_at p c b nullptr = nullptr
  add_at [] true b (node bv n t f) = node (set_if_placeholder bv b) n (ensure t) f
  add_at [] false b (node bv n t f) = node (set_if_placeholder bv b) n t (ensure f)
  add_at (true ∷ p) c b (node bv n t f) = node bv n (add_at p c b t) f
  add_at (false ∷ p) c b (node bv n t f) = node bv n t (add_at p c b f)
