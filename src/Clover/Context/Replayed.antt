-- ===== src/Clover/Context/Replayed.antt =====
-- The replay of an execution's inputs by `ExecutionContext` (vp/src/symex/clover/context.cpp).
use Prim.Native.String.{String}
use text.Mathlib.Text.{◌==◌}
use text.Mathlib.TextPositions.{eq_refl}
use coverage_vp.Base.{
  ℕ, ◌≡◌, refl, sym, ◌∙◌, subst, true, false, List, [], ◌∷◌, Option, none, some, ap, Option-cases,
  Bool-cases, inl, inr,
}
use coverage_vp.Clover.Expr.{Builder}
use coverage_vp.Clover.Value.{IntValue, ConcolicValue, bvc}
use coverage_vp.Clover.Context.{
  ConcreteStore, assign, erase, ExecutionContext, IntType, uint8, uint32, has_type, cast,
  get_prev_store, setup_new_values, find_remove_or_random, get_symbolic, get_all,
}

-- No input is asked for twice.
pub data Absent (name : String) : List (IntType × String) → Type 0 where
  at_end : Absent name []
  differs :
      {type : IntType} {n : String} {inputs : List (IntType × String)}
      → (name == n) ≡ false
      → (n == name) ≡ false
      → Absent name inputs
      → Absent name ((type, n) ∷ inputs)

pub data AreDistinct : List (IntType × String) → Type 0 where
  empty : AreDistinct []
  new :
      {type : IntType} {n : String} {inputs : List (IntType × String)}
      → Absent n inputs
      → AreDistinct inputs
      → AreDistinct ((type, n) ∷ inputs)

cast_type : (type : IntType) (n : ℕ) → has_type type (cast type n) ≡ true
unfolding has_type cast
cast_type uint8 n = refl
cast_type uint32 n = refl

module _ {R : Type 0} (rand : R → ℕ × R) (b : Builder) where
  -- A store with the values of the inputs.
  data Keeps (store : ConcreteStore)
      : List (IntType × String) → List (ConcolicValue b) → Type 0 where
    nothing : Keeps store [] []
    keeps :
        {type : IntType} {n : String} {v : IntValue} {inputs : List (IntType × String)}
        {vs : List (ConcolicValue b)}
        → store n ≡ some v
        → has_type type v ≡ true
        → Keeps store inputs vs
        → Keeps store ((type, n) ∷ inputs) (bvc b (some n) v ∷ vs)

  Keeps-erase :
      (store : ConcreteStore) (name : String) (inputs : List (IntType × String))
      (vs : List (ConcolicValue b))
      → Absent name inputs
      → Keeps store inputs vs
      → Keeps (erase store name) inputs vs
  Keeps-erase store name [] vs a nothing = nothing
  Keeps-erase store name (x ∷ inputs) vs (differs d f a) (keeps e t k) =
      keeps (rw f e) t (Keeps-erase store name inputs _ a k)

  Keeps-setup :
      (store : ConcreteStore) (c : ExecutionContext) (inputs : List (IntType × String))
      (vs : List (ConcolicValue b))
      → Keeps store inputs vs
      → Keeps (setup_new_values store c).next_run inputs vs
  unfolding setup_new_values
  Keeps-setup store c [] vs nothing = nothing
  Keeps-setup store c (x ∷ inputs) vs (keeps e t k) =
      keeps (rw e refl) t (Keeps-setup store c inputs _ k)

  -- Inputs that are stored are given without a random number.
  replays :
      (inputs : List (IntType × String)) (vs : List (ConcolicValue b)) (c : ExecutionContext)
      (r : R)
      → AreDistinct inputs
      → Keeps c.next_run inputs vs
      → (d : ExecutionContext) × (get_all rand b inputs c r ≡ some (vs, d, r))
  unfolding get_all get_symbolic find_remove_or_random
  replays [] vs c r empty nothing = (c, refl)
  replays ((type, n) ∷ inputs) vs c r (new a ds) (keeps {v = v} e t k) =
      let next : ExecutionContext = record {
        next_run = erase c.next_run n;
        last_run = assign c.last_run n v;
      } in
      let (d, rest) = replays inputs _ next r ds (Keeps-erase c.next_run n inputs _ a k) in
      (d, rw (get_all, get_symbolic, find_remove_or_random, e, t, rest) refl)

  parts :
      {A : Type 0} (x y : A) (d e : ExecutionContext) (q s : R)
      → ◌≡◌ {A = Option (A × ExecutionContext × R)} (some (x, d, q)) (some (y, e, s))
      → (x ≡ y) × (d ≡ e)
  parts x y d e q s h = (cc, cc)

  -- What one input leaves in the store of the run.
  drawn :
      (type : IntType) (name : String) (c : ExecutionContext) (r q : R) (d : ExecutionContext)
      (x : ConcolicValue b)
      → get_symbolic rand b type name c r ≡ some (x, d, q)
      → (v : IntValue) × (x ≡ bvc b (some name) v)
        × (has_type type v ≡ true)
        × (d.last_run ≡ assign c.last_run name v)
  unfolding get_symbolic find_remove_or_random
  drawn type name c r q d x e = elim (Option-cases (c.next_run name)) [
    | inl free ↦
        let v = cast type ((rand r).0) in
        let f : get_symbolic rand b type name c r
            ≡ some (
              bvc b (some name) v,
              record c { last_run = assign c.last_run name v },
              (rand r).1,
            ) =
          rw (get_symbolic, find_remove_or_random, free) refl in
        let (same, after) = parts x _ d _ q _ (sym e ∙ f) in
        (v, same, cast_type type ((rand r).0), ap (λ y. y.last_run) after)
    | inr (v, found) ↦ elim (Bool-cases (has_type type v)) [
      | inl right ↦
          let f : get_symbolic rand b type name c r
              ≡ some (
                bvc b (some name) v,
                record { next_run = erase c.next_run name; last_run = assign c.last_run name v },
                r,
              ) =
            rw (get_symbolic, find_remove_or_random, found, right) refl in
          let (same, after) = parts x _ d _ q _ (sym e ∙ f) in
          (v, same, right, ap (λ y. y.last_run) after)
      | inr wrong ↦
          let f : get_symbolic rand b type name c r ≡ none =
            rw (get_symbolic, find_remove_or_random, found, wrong) refl in
          absurd cc
    ]
  ]

  -- The first input and the others.
  taken :
      (type : IntType) (n : String) (inputs : List (IntType × String)) (c e : ExecutionContext)
      (r s : R) (vs : List (ConcolicValue b))
      → get_all rand b ((type, n) ∷ inputs) c r ≡ some (vs, e, s)
      → (x : ConcolicValue b) × (d : ExecutionContext) × (q : R) × (ws : List (ConcolicValue b))
        × (get_symbolic rand b type n c r ≡ some (x, d, q))
        × (get_all rand b inputs d q ≡ some (ws, e, s))
        × (vs ≡ x ∷ ws)
  unfolding get_all
  taken type n inputs c e r s vs h = elim (Option-cases (get_symbolic rand b type n c r)) [
    | inl failed ↦
        let f : get_all rand b ((type, n) ∷ inputs) c r ≡ none = rw (get_all, failed) refl in
        absurd cc
    | inr ((x, d, q), first) ↦ elim (Option-cases (get_all rand b inputs d q)) [
      | inl failed ↦
          let f : get_all rand b ((type, n) ∷ inputs) c r ≡ none =
            rw (get_all, first, failed) refl in
          absurd cc
      | inr ((ws, e', s'), rest) ↦
          let f : get_all rand b ((type, n) ∷ inputs) c r ≡ some (x ∷ ws, e', s') =
            rw (get_all, first, rest) refl in
          let g : ◌≡◌ {A = Option (List (ConcolicValue b) × ExecutionContext × R)} (some (vs, e, s))
              (some (x ∷ ws, e', s')) =
            sym h ∙ f in
          (x, d, q, ws, first, rest ∙ cc, cc)
    ]
  ]

  -- The other names keep what the run has.
  elsewhere :
      (name : String) (inputs : List (IntType × String)) (vs : List (ConcolicValue b))
      (c e : ExecutionContext) (r s : R)
      → Absent name inputs
      → get_all rand b inputs c r ≡ some (vs, e, s)
      → e.last_run name ≡ c.last_run name
  unfolding get_all
  elsewhere name [] vs c e r s a h = let (_, same) = parts [] vs c e r s h in cc
  elsewhere name ((type, n) ∷ inputs) vs c e r s (differs f g a) h =
      let (x, d, q, ws, first, rest, _) = taken type n inputs c e r s vs h in
      let (v, _, _, last) = drawn type n c r q d x first in
      elsewhere name inputs ws d e q s a rest ∙ ap (λ y. y name) last ∙ rw f refl

  -- A run keeps its inputs.
  recorded :
      (inputs : List (IntType × String)) (vs : List (ConcolicValue b)) (c e : ExecutionContext)
      (r s : R)
      → AreDistinct inputs
      → get_all rand b inputs c r ≡ some (vs, e, s)
      → Keeps e.last_run inputs vs
  unfolding get_all
  recorded [] vs c e r s ds h =
      let (same, _) = parts [] vs c e r s h in subst (λ ws. Keeps e.last_run [] ws) same nothing
  recorded ((type, n) ∷ inputs) vs c e r s (new a ds) h =
      let (x, d, q, ws, first, rest, all) = taken type n inputs c e r s vs h in
      let (v, made, typed, last) = drawn type n c r q d x first in
      let here : assign c.last_run n v n ≡ some v = rw (eq_refl n) refl in
      let held : e.last_run n ≡ some v =
        elsewhere n inputs ws d e q s a rest ∙ ap (λ y. y n) last ∙ here in
      let whole : bvc b (some n) v ∷ ws ≡ vs = cc in
      subst (λ us. Keeps e.last_run ((type, n) ∷ inputs) us) whole
        (keeps held typed (recorded inputs ws d e q s ds rest))

  -- An execution whose inputs have different names can be replayed: set up with the store of a run, whatever
  -- the context was, the same requests give the same values, without a random number.
  pub get_all-setup_new_values :
      (inputs : List (IntType × String)) (vs : List (ConcolicValue b)) (c d e : ExecutionContext)
      (r q s : R)
      → AreDistinct inputs
      → get_all rand b inputs c r ≡ some (vs, d, q)
      → (f : ExecutionContext) × (get_all rand b inputs (setup_new_values (get_prev_store d) e) s
          ≡ some (vs, f, s))
  get_all-setup_new_values inputs vs c d e r q s ds h =
      replays inputs vs (setup_new_values (get_prev_store d) e) s ds
        (Keeps-setup (get_prev_store d) e inputs vs (recorded inputs vs c d r q ds h))
