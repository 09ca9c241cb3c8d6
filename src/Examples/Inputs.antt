-- ===== src/Examples/Inputs.antt =====
-- The execution context of vp/src/symex/clover/context.cpp at a word and a byte.
use Prim.Native.String.{String}
use text.Mathlib.Text.{◌==◌}
use coverage_vp.Base.{ℕ, ◌+◌, ◌≡◌, refl, if◌then◌else◌, List, [], ◌∷◌, none, some}
use coverage_vp.Clover.Value.{ConcolicValue, u8, u32, bvc}
use coverage_vp.Clover.Context.{
  ExecutionContext, IntType, uint8, uint32, cast, get_prev_store, setup_new_values,
  find_remove_or_random, get_symbolic, get_all,
}
use coverage_vp.Clover.Context.Replayed.{at_end, differs, empty, new, get_all-setup_new_values}
use coverage_vp.Examples.Folding.{folding}

abbrev counting : ℕ → ℕ × ℕ
counting r = (r, r + 1)

abbrev fresh : ExecutionContext
fresh = record { next_run = λ n. none; last_run = λ n. none }

abbrev requests : List (IntType × String)
requests = (uint32, "word") ∷ (uint8, "byte") ∷ []

abbrev answers : List (ConcolicValue folding)
answers = bvc folding (some "word") (u32 300) ∷ bvc folding (some "byte") (u8 45) ∷ []

abbrev ran : ExecutionContext
ran = record {
  next_run = λ n. none;
  last_run =
      λ n. if n == "byte" then some (u8 45) else if n == "word" then some (u32 300) else none;
}

runs : get_all counting folding requests fresh 300 ≡ some (answers, ran, 302)
unfolding get_all get_symbolic find_remove_or_random cast
runs = refl

get_all-setup_new_values_example :
    (f : ExecutionContext) × (get_all counting folding requests
        (setup_new_values (get_prev_store ran) fresh)
        7
      ≡ some (answers, f, 7))
get_all-setup_new_values_example =
    get_all-setup_new_values counting folding requests answers fresh ran fresh 300 302 7
      (new (differs refl refl at_end) (new at_end empty)) runs
