-- ===== src/Rv32/Step/Machine.antt =====
-- The state of `ISS` (vp/src/core/rv32/iss.h) with the parts that it works on, and the interfaces of
-- vp/src/core/rv32/mem_if.h that it takes for its memory.
use coverage_vp.Base.{ℕ, Bool, Option, none, some}
use coverage_vp.Clover.Klee.{Klee}
use coverage_vp.Clover.Expr.{Builder}
use coverage_vp.Clover.Value.{ConcolicValue}
use coverage_vp.Clover.Trace.{Trace, Query}
use coverage_vp.Rv32.Hart.{Hart, Outcome, ok, trap, thrown}
use coverage_vp.Rv32.Instr.Pattern.{Mapping}
use coverage_vp.Rv32.RegFile.{RegFile}
use coverage_vp.Rv32.Exec.Control.{Validity, Core}

-- `instr_memory_if` and `data_memory_if`. An address translation reads the registers of the hart.
pub record MemoryIf (b : Builder) : Type 1 where
  pub State : Type 0
  pub load_instr : ℕ → Hart → State → Outcome State ℕ
  pub symbolic_load_data : ConcolicValue b → ℕ → Hart → State → Outcome State (ConcolicValue b)
  pub symbolic_store_data :
      ConcolicValue b → ConcolicValue b → ℕ → Hart → State → Outcome State (Unit {0})

-- What follows a call that returned.
abbrev pub and_then : {S A B : Type 0} → Outcome S A → (A → S → Outcome S B) → Outcome S B
and_then (ok a s) f = f a s
and_then (trap t s) f = trap t s
and_then thrown f = thrown

-- A call that works on a part of the state.
abbrev pub on_part : {S P A : Type 0} → (P → S) → Outcome P A → Outcome S A
on_part put (ok a p) = ok a (put p)
on_part put (trap t p) = trap t (put p)
on_part put thrown = thrown

-- A failed assertion or another exception, where there is no value.
abbrev pub or_thrown : {S A : Type 0} → Option A → S → Outcome S A
or_thrown none s = thrown
or_thrown (some a) s = ok a s

module _ (b : Builder) (k : Klee) (embed : b.Expr → k.Expr) (evaluate : Query k → Option Validity)
    (mem : MemoryIf b) (Coverage : Type 0) where
  -- The registers of `pc` and those of `Hart` are one object.
  pub record Machine : Type 0 where
    pub hart : Hart
    pub regs : RegFile b
    pub trace : Trace k
    pub memory : mem.State
    -- The pointer `coverage`, `none` for null.
    pub coverage : Option Coverage
    -- The last instruction.
    pub instr : ℕ
    pub op : Mapping
    pub ignore_wfi : Bool
    pub debug_mode : Bool
    pub breakpoints : ℕ → Bool

  abbrev pub core_of : Machine → Core b k embed evaluate
  core_of s = record { pc = s.hart.pc; regs = s.regs; trace = s.trace }

  abbrev pub with_core : Machine → Core b k embed evaluate → Machine
  with_core s c = record s { hart = record (s.hart) { pc = c.pc }; regs = c.regs; trace = c.trace }

  abbrev pub on_core :
      {A : Type 0} → Outcome (Core b k embed evaluate) A → Machine → Outcome Machine A
  on_core o s = on_part (with_core s) o

  abbrev pub on_hart : {A : Type 0} → Outcome Hart A → Machine → Outcome Machine A
  on_hart o s = on_part (λ h. record s { hart = h }) o

  abbrev pub on_memory : {A : Type 0} → Outcome (mem.State) A → Machine → Outcome Machine A
  on_memory o s = on_part (λ m. record s { memory = m }) o
