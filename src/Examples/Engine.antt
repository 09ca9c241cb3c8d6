-- ===== src/Examples/Engine.antt =====
-- The concolic engine of vp/src/symex/clover at concrete inputs.

use coverage_vp.Base.{
  ℕ, ◌+◌, ◌*◌, ◌^◌, ◌%◌, ◌<◌, ◌≤◌, ◌≡◌, ◌≢◌, refl, Bool, true, false, List, [], ◌∷◌, none, some,
  arith,
}
use coverage_vp.Clover.Klee.{bit}
use coverage_vp.Clover.Branch.{node, nullptr, placeholder, get_random_path}
use coverage_vp.Clover.Branch.Frontier.{Finds, Frontier, candidates, get_random_path-Finds}
use coverage_vp.Clover.Branch.Grow.{Explored}
use coverage_vp.Clover.Trace.{
  Trace, returned, find_new_path, init, new_query, get_assignment, attempt,
}
use coverage_vp.Clover.Trace.Explore.{Ends, find_new_path-Ends, find_new_path-none}
use coverage_vp.Clover.Trace.Flip.{Flips}
use coverage_vp.Clover.Trace.Runs.{
  IsValid, execution, init-IsValid, execution-IsValid, execution_closes,
}
use coverage_vp.Clover.Expr.{BinOp}
use coverage_vp.Clover.Value.{ConcolicValue, binary_operator, get_width, is_symbolic, extract}
use coverage_vp.Clover.Value.Sound.{IsInstance, denotes, binary_operator-Follows}
use coverage_vp.Clover.Memory.{reset, load, store, address, widened}
use coverage_vp.Clover.Memory.Stored.{store_puts}
use coverage_vp.Clover.Memory.Loaded.{Carries, load-store}
use coverage_vp.Clover.Buffer.{bvc_buffer, bvc_to_bytes}
use coverage_vp.Clover.Buffer.Numbers.{none_left, byte_first}
use coverage_vp.Clover.Buffer.Restored.{bvc_to_bytes-bvc_buffer}
use coverage_vp.Examples.OneBit.{one_bit, one_bit_semantics, one_bit_decides}
use coverage_vp.Examples.Folding.{con, input, Inputs, folding, folding_meaning}

abbrev next : ℕ → ℕ × ℕ
next r = (r, r + 1)

-- The input bit, and a condition that is always true.
abbrev the_bit : Bool → ℕ
the_bit a = bit a

abbrev always : Bool → ℕ
always a = 1

-- A tree after one run that took the true branch.
abbrev one_run : (Bool → ℕ) → Trace one_bit
one_run e = record {
  cs = λ a. true;
  root = node (some e) false placeholder nullptr;
  current = none;
}

get_random_path-Finds_example :
    Finds (one_run the_bit).root (get_random_path next 0 (one_run the_bit).root)
get_random_path-Finds_example = get_random_path-Finds next 0 (one_run the_bit).root

find_new_path-Ends_example :
    Ends one_bit one_bit_semantics
      (one_run the_bit)
      (find_new_path one_bit next 2 (one_run the_bit) 0)
unfolding candidates
find_new_path-Ends_example =
    find_new_path-Ends one_bit one_bit_semantics next 2 (one_run the_bit) 0 (omega arith)

abbrev marked : Trace one_bit
marked = record {
  cs = λ a. true;
  root = node (some always) true placeholder nullptr;
  current = none;
}

nothing_left : find_new_path one_bit next 2 (one_run always) 0 ≡ returned none marked 1
unfolding find_new_path get_random_path new_query get_assignment attempt
nothing_left = refl

find_new_path-none_example : ¬ Flips one_bit one_bit_semantics false ((always, true) ∷ [])
find_new_path-none_example =
    find_new_path-none one_bit one_bit_semantics next one_bit_decides 2 (one_run always) marked 0 1
      nothing_left ((always, true) ∷ []) (refl, refl, refl, refl) false

-- The run that flips the bit of `one_run`.
abbrev other_run : List (Bool × (Bool → ℕ))
other_run = (false, the_bit) ∷ (true, always) ∷ []

execution-IsValid_example :
    IsValid one_bit (execution one_bit (init one_bit) other_run)
    × Explored (false ∷ true ∷ []) (execution one_bit (init one_bit) other_run).root
    × ((q : List Bool)
        → Explored q (init one_bit).root
        → Explored q (execution one_bit (init one_bit) other_run).root)
    × (candidates (execution one_bit (init one_bit) other_run).root
        ≤ candidates (init one_bit).root + 2)
execution-IsValid_example =
    execution-IsValid one_bit (init one_bit) other_run (init-IsValid one_bit)

execution_closes_example :
    ¬ Frontier ((the_bit, true) ∷ []) (execution one_bit (init one_bit) other_run).root
execution_closes_example =
    execution_closes one_bit (init one_bit) other_run ((the_bit, true) ∷ []) (true ∷ [])
      (init-IsValid one_bit) refl

abbrev fives : Inputs
fives name = 5

-- A symbolic word that is five, and a byte of memory.
abbrev word : ConcolicValue folding
word = record { concrete = con 5 32; symbolic = some (input (λ ρ. ρ "a") 32); tainted = false }

abbrev constant_word : ConcolicValue folding
constant_word = record { concrete = con 7 32; symbolic = none; tainted = true }

word-IsInstance : IsInstance folding folding_meaning fives word 5
word-IsInstance = record { is_constant = refl; agrees = (refl, refl) }

constant_word-IsInstance : IsInstance folding folding_meaning fives constant_word 7
constant_word-IsInstance = record { is_constant = refl; agrees = tt }

abbrev sevens : Inputs
sevens name = 7

binary_operator-Follows_example :
    IsInstance folding folding_meaning fives
      (binary_operator folding BinOp.op_add word constant_word)
      (folding_meaning.on_values BinOp.op_add
        (get_width folding word)
        (get_width folding constant_word)
        5
        7)
    × (denotes folding folding_meaning sevens
          (binary_operator folding BinOp.op_add word constant_word)
        ≡ folding_meaning.on_values BinOp.op_add
            (get_width folding word)
            (get_width folding constant_word)
            (denotes folding folding_meaning sevens word)
            (denotes folding folding_meaning sevens constant_word))
binary_operator-Follows_example =
    binary_operator-Follows folding folding_meaning fives sevens BinOp.op_add word constant_word 5 7
      word-IsInstance constant_word-IsInstance

load-store_example :
    (u : ConcolicValue folding) × (load folding
        (store folding (reset folding (λ i. none)) 0xffff_fffe word 4)
        0xffff_fffe
        4
      ≡ some u)
    × Carries folding folding_meaning fives u (5 % 2 ^ 32) 32 (is_symbolic folding word) false
load-store_example =
    load-store folding folding_meaning fives (reset folding (λ i. none)) 0xffff_fffe word 5 4
      word-IsInstance (omega arith) (omega arith)

store_puts_example :
    ((j : ℕ)
      → j < 4
      → store folding (reset folding (λ i. none)) 100 word 4 (address 100 j)
        ≡ some (extract folding (widened folding word 4) (j * 8) 8))
    × ((i : ℕ)
        → ((j : ℕ) → j < 4 → i ≢ address 100 j)
        → store folding (reset folding (λ i. none)) 100 word 4 i ≡ reset folding (λ i. none) i)
store_puts_example = store_puts folding (reset folding (λ i. none)) 100 word 4 (omega arith)

bvc_to_bytes-bvc_buffer_example :
    (v : ConcolicValue folding) × (bvc_buffer folding (0x34 ∷ 0x12 ∷ []) ≡ some v)
    × Carries folding folding_meaning fives v 0x1234 16 false false
    × (bvc_to_bytes folding v 2 ≡ some (0x34 ∷ 0x12 ∷ []))
bvc_to_bytes-bvc_buffer_example =
    bvc_to_bytes-bvc_buffer folding folding_meaning fives 0x34 (0x12 ∷ [])
      (byte_first (omega arith) (byte_first (omega arith) none_left))
