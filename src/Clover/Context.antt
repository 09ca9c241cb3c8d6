-- ===== src/Clover/Context.antt =====
-- vp/src/symex/clover/context.cpp and `ExecutionContext` of clover.h: the values of the symbolic inputs of
-- an execution. A `ConcreteStore` is a function of the name; the state of `rand` is passed on.
pub mod Replayed
use Prim.Native.String.{String}
use text.Mathlib.Text.{◌==◌}
use coverage_vp.Base.{
  ℕ, ◌%◌, ◌^◌, Bool, true, false, if◌then◌else◌, List, [], ◌∷◌, Option, none, some,
}
use coverage_vp.Clover.Expr.{Builder}
use coverage_vp.Clover.Value.{IntValue, u8, u32, ConcolicValue, bvc}

abbrev pub ConcreteStore : Type 0
ConcreteStore = String → Option IntValue

abbrev pub assign : ConcreteStore → String → IntValue → ConcreteStore
assign store name v n = if n == name then some v else store n

abbrev pub erase : ConcreteStore → String → ConcreteStore
erase store name n = if n == name then none else store n

pub record ExecutionContext : Type 0 where
  pub next_run : ConcreteStore
  pub last_run : ConcreteStore

-- The type argument of `findRemoveOrRandom`: `uint8_t` or `uint32_t`.
pub data IntType : Type 0 where
  uint8 uint32 : IntType

-- `std::get_if`.
unfoldable pub has_type : IntType → IntValue → Bool
has_type uint8 (u8 n) = true
has_type uint8 (u32 n) = false
has_type uint32 (u8 n) = false
has_type uint32 (u32 n) = true

unfoldable pub cast : IntType → ℕ → IntValue
cast uint8 n = u8 (n % 2 ^ 8)
cast uint32 n = u32 (n % 2 ^ 32)

abbrev pub get_prev_store : ExecutionContext → ConcreteStore
get_prev_store c = c.last_run

-- The loop assigns every entry of the store; the result is always true.
unfoldable pub setup_new_values : ConcreteStore → ExecutionContext → ExecutionContext
setup_new_values store c = record {
  next_run = λ n. elim (store n) [ some v ↦ some v | none ↦ c.next_run n ];
  last_run = λ n. none;
}

module _ {R : Type 0} (rand : R → ℕ × R) where
  -- `none` is the failed assertion on the type.
  unfoldable pub find_remove_or_random :
      IntType → String → ExecutionContext → R → Option (IntValue × ExecutionContext × R)
  find_remove_or_random type name c r = elim (c.next_run name) [
    | some v ↦
        if has_type type v
        then some
            (v, record { next_run = erase c.next_run name; last_run = assign c.last_run name v }, r)
        else none
    | none ↦
        let (n, q) = rand r in
        some (cast type n, record c { last_run = assign c.last_run name (cast type n) }, q)
  ]

  module _ (b : Builder) where
    -- `getSymbolicWord` and `getSymbolicByte`, by the type.
    unfoldable pub get_symbolic :
        IntType → String → ExecutionContext → R → Option (ConcolicValue b × ExecutionContext × R)
    get_symbolic type name c r = elim (find_remove_or_random type name c r) [
      | none ↦ none
      | some (v, d, q) ↦ some (bvc b (some name) v, d, q)
    ]

    -- The inputs that an execution asks for, one after the other.
    unfoldable pub get_all :
        List (IntType × String)
        → ExecutionContext
        → R
        → Option (List (ConcolicValue b) × ExecutionContext × R)
    get_all [] c r = some ([], c, r)
    get_all ((type, name) ∷ inputs) c r = elim (get_symbolic type name c r) [
      | none ↦ none
      | some (v, d, q) ↦ elim (get_all inputs d q) [
        | none ↦ none
        | some (vs, e, s) ↦ some (v ∷ vs, e, s)
      ]
    ]
