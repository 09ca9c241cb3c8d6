-- ===== src/Examples/OneBit.antt =====
-- A solver that meets the assumptions on klee: its expressions are over one bit, which it tries both
-- ways.
use coverage_vp.Base.{
  ℕ, ◌≡◌, ◌≢◌, ◌↔◌, Bool, true, false, ◌&&◌, ◌==◌, if◌then◌else◌, Option, none, some, arith, refl,
}
use coverage_vp.Clover.Klee.{Klee, Semantics, Decides, bit}

abbrev is_one : (Bool → ℕ) → Bool
is_one e = (e true == 1) && (e false == 1)

abbrev pub values : (Bool → Bool) → (Bool → ℕ) → Option Bool
values cs e =
    if cs true && (e true == 0)
    then some true
    else if cs false && (e false == 0)
    then some false
    else none

abbrev pub one_bit : Klee
one_bit = record {
  Expr = Bool → ℕ;
  Constraints = Bool → Bool;
  Assignment = Bool;
  no_constraints = λ a. true;
  add_constraint = λ cs e a. cs a && (e a == 1);
  simplify_expr = λ cs e. e;
  eq_bool = λ e b a. if e a == bit b then 1 else 0;
  is_zero = λ e a. if e a == 0 then 1 else 0;
  is_true = is_one;
  get_initial_values = values;
}

pub values_refute :
    (cs : Bool → Bool) (e : Bool → ℕ) (a : Bool) → values cs e ≡ some a → (cs a ≡ true) × (e a ≡ 0)
values_refute cs e true h = ground arith
values_refute cs e false h = ground arith

pub true_eval : (a : Bool) (e : Bool → ℕ) → is_one e ≡ true → e a ≡ 1
true_eval true e h = ground arith
true_eval false e h = ground arith

pub added :
    (a : Bool) (cs : Bool → Bool) (e : Bool → ℕ)
    → ((cs a && (e a == 1)) ≡ true) ↔ ((cs a ≡ true) × (e a ≡ 1))
added a cs e = (λ h. ground arith, λ h. ground arith)

abbrev pub one_bit_semantics : Semantics one_bit
one_bit_semantics = record {
  eval = λ a e. e a;
  Satisfies = λ a cs. cs a ≡ true;
  satisfies_none = λ a. refl;
  satisfies_add = added;
  eval_simplify = λ a cs e h. refl;
  eval_eq_bool = λ a e b. refl;
  eval_is_zero = λ a e. refl;
  true_eval = true_eval;
  values_refute = values_refute;
}

pub values_found :
    (cs : Bool → Bool) (e : Bool → ℕ) (a : Bool) → values cs e ≡ none → cs a ≡ true → e a ≢ 0
values_found cs e true h sat z = ground arith
values_found cs e false h sat z = ground arith

abbrev pub one_bit_decides : Decides one_bit one_bit_semantics
one_bit_decides = record { values_found = values_found }
