-- ===== src/Rv32/Mmu/Page.antt =====
-- The translation buffer of `GenericMMU` (vp/src/core/common/mmu.h) against the page table walk.
use coverage_vp.Base.{
  arith, ℕ, zero, suc, ◌+◌, ◌-◌, ◌*◌, ◌/◌, ◌%◌, ◌^◌, ◌≡◌, bit_and, bit_or, Bool, true, false, ◌==◌,
  if◌then◌else◌, Option, none, some,
}
use coverage_vp.Base.Ranges.{bit_and_range, bit_or_sum}
use coverage_vp.Rv32.Word.{u32, is_set}
use coverage_vp.Rv32.Hart.{Hart, Outcome, ok, trap, thrown, supervisor_mode, raise_trap}
use coverage_vp.Rv32.Step.Machine.{and_then, on_part}
use coverage_vp.Rv32.Mmu.Walk.{
  MemoryAccessType, MmuMemoryIf, VmInfo, decode_vm_info, check_vaddr_extension, walk_loop,
  leaf_address, finish_walk, is_permitted, is_pointer, is_invalid, load_pte, slot, accessed_dirty,
  next_base,
}
use coverage_vp.Rv32.Mmu.Translate.{Mmu, walk, page_fault, on_memory}

-- Every value that the call returns.
pub data Gives {S A : Type 0} (P : A → Type 0) : Outcome S A → Type 0 where
  gives : {a : A} {s : S} → P a → Gives P (ok a s)
  gives_trap : {e : _} {s : S} → Gives P (trap e s)
  gives_nothing : Gives P thrown

and_then-Gives :
    {S A B : Type 0} (P : A → Type 0) (Q : B → Type 0) (o : Outcome S A) (f : A → S → Outcome S B)
    → Gives P o
    → ((a : A) (s : S) → P a → Gives Q (f a s))
    → Gives Q (and_then o f)
and_then-Gives P Q (ok a s) f (gives p) q = q a s p
and_then-Gives P Q (trap e s) f p q = gives_trap
and_then-Gives P Q thrown f p q = gives_nothing

then-Gives :
    {S A B : Type 0} (Q : B → Type 0) (o : Outcome S A) (f : A → S → Outcome S B)
    → ((a : A) (s : S) → Gives Q (f a s))
    → Gives Q (and_then o f)
then-Gives Q (ok a s) f q = q a s
then-Gives Q (trap e s) f q = gives_trap
then-Gives Q thrown f q = gives_nothing

on_part-Gives :
    {S R A : Type 0} (P : A → Type 0) (put : R → S) (o : Outcome R A)
    → Gives P o
    → Gives P (on_part put o)
on_part-Gives P put (ok a r) (gives p) = gives p
on_part-Gives P put (trap e r) p = gives_trap
on_part-Gives P put thrown p = gives_nothing

if-Gives :
    {S A : Type 0} (P : A → Type 0) (t : Bool) (x y : Outcome S A)
    → Gives P x
    → Gives P y
    → Gives P (if t then x else y)
if-Gives P true x y p q = p
if-Gives P false x y p q = q

-- The offset in the page.
offset_lem : (v : ℕ) → bit_and v (2 ^ 12 - 1) ≡ v % 2 ^ 12
offset_lem v =
    let e : bit_and v (2 ^ 12 - 1) ≡ v / 2 ^ 0 % 2 ^ 12 * 2 ^ 0 = bit_and_range 0 12 v in
    omega (arith, e)

-- A page below the offset of an address.
pub joined_lem : (a v : ℕ) → a % 2 ^ 12 ≡ 0 → bit_or a (bit_and v (2 ^ 12 - 1)) ≡ a + v % 2 ^ 12
joined_lem a v e = rw (offset_lem v) (bit_or_sum 12 a (v % 2 ^ 12) e (omega arith))

-- The address is the same in its page as the other.
pub record InPage (vaddr p : ℕ) : Type 0 where
  pub offset : p % 2 ^ 12 ≡ vaddr % 2 ^ 12

data MaybeInPage (vaddr : ℕ) : Option ℕ → Type 0 where
  no_page : MaybeInPage vaddr none
  page : {p : ℕ} → InPage vaddr p → MaybeInPage vaddr (some p)

pub kept_page : (n : ℕ) → n * 2 ^ 12 % 2 ^ 64 % 2 ^ 12 ≡ 0
kept_page n = omega arith

page_sum : (n v : ℕ) → (n * 2 ^ 12 % 2 ^ 64 + v % 2 ^ 12) % 2 ^ 12 ≡ v % 2 ^ 12
page_sum n v = omega arith

module _ (mem : MmuMemoryIf) (vaddr : ℕ) (type : MemoryAccessType) (s_mode sum mxr : Bool)
    (page_fault_on_ad : Bool) (vm : VmInfo) where
  leaf_address-InPage :
      (i pte : ℕ)
      → InPage vaddr (leaf_address mem vaddr type s_mode sum mxr page_fault_on_ad vm i pte)
  unfolding leaf_address
  leaf_address-InPage i pte = record {
    offset = rw (joined_lem _ vaddr (kept_page _)) (page_sum _ vaddr);
  }

  finish_walk-InPage :
      (i addr pte : ℕ) (s : mem.State)
      → Gives
          (MaybeInPage vaddr)
          (finish_walk mem vaddr type s_mode sum mxr page_fault_on_ad vm i addr pte s)
  unfolding finish_walk
  finish_walk-InPage i addr pte s =
      if-Gives (MaybeInPage vaddr) (bit_and pte (accessed_dirty type) == accessed_dirty type) _ _
        (gives (page (leaf_address-InPage i pte)))
        (if-Gives (MaybeInPage vaddr) page_fault_on_ad _ _ (gives no_page) (
          then-Gives (MaybeInPage vaddr)
            (mem.mmu_store_pte32 addr (u32 (bit_or pte (accessed_dirty type))) s) _
            (λ _ u. gives (page (leaf_address-InPage i pte)))))

  walk_loop-InPage :
      (n base : ℕ) (s : mem.State)
      → Gives
          (MaybeInPage vaddr)
          (walk_loop mem vaddr type s_mode sum mxr page_fault_on_ad vm n base s)
  unfolding walk_loop
  walk_loop-InPage zero base s = gives no_page
  walk_loop-InPage (suc i) base s =
      then-Gives (MaybeInPage vaddr)
        (load_pte mem vaddr type s_mode sum mxr page_fault_on_ad vm
          (slot mem vaddr type s_mode sum mxr page_fault_on_ad vm i base) s)
        _
        (λ pte t.
          if-Gives (MaybeInPage vaddr)
            (is_invalid mem vaddr type s_mode sum mxr page_fault_on_ad vm pte) _ _ (gives no_page)
            (if-Gives (MaybeInPage vaddr)
              (is_pointer mem vaddr type s_mode sum mxr page_fault_on_ad vm pte) _ _
              (walk_loop-InPage i (next_base mem vaddr type s_mode sum mxr page_fault_on_ad vm pte)
                t)
              (if-Gives (MaybeInPage vaddr)
                (is_permitted mem vaddr type s_mode sum mxr page_fault_on_ad vm i pte) _ _
                (finish_walk-InPage i
                  (slot mem vaddr type s_mode sum mxr page_fault_on_ad vm i base) pte t)
                (gives no_page))))

module _ (mem : MmuMemoryIf) (h : Hart) (vaddr : ℕ) (type : MemoryAccessType) where
  -- The walk gives an address with the offset of the virtual one.
  pub walk-InPage : (mode : ℕ) (u : Mmu mem) → Gives (InPage vaddr) (walk mem h vaddr type mode u)
  unfolding walk
  walk-InPage mode u = by_vm (decode_vm_info h mode)
    where
      chosen :
          (p : Option ℕ) (v : Mmu mem)
          → MaybeInPage vaddr p
          → Gives
              (InPage vaddr)
              (elim p [ none ↦ raise_trap (page_fault type) vaddr v | some q ↦ ok q v ])
      chosen none v q = gives_trap
      chosen (some p) v (page q) = gives q

      by_vm :
          (o : Option VmInfo)
          → Gives (InPage vaddr) (elim o [
            | none ↦ thrown
            | some vm ↦
                and_then
                  (on_memory mem
                    (walk_loop mem vaddr type
                      (mode == supervisor_mode)
                      (is_set h.csrs.mstatus 18)
                      (is_set h.csrs.mstatus 19)
                      (u.page_fault_on_ad)
                      vm
                      (if check_vaddr_extension vaddr vm then vm.levels else 0)
                      vm.ptbase
                      u.memory)
                    u)
                  (λ paddr v. elim paddr [
                    | none ↦ raise_trap (page_fault type) vaddr v
                    | some p ↦ ok p v
                  ])
          ])
      by_vm none = gives_nothing
      by_vm (some vm) =
          and_then-Gives (MaybeInPage vaddr) (InPage vaddr) _ _
            (on_part-Gives (MaybeInPage vaddr) (λ s. record u { memory = s }) _
              (walk_loop-InPage mem vaddr type (mode == supervisor_mode) (is_set h.csrs.mstatus 18)
                (is_set h.csrs.mstatus 19) (u.page_fault_on_ad) vm
                (if check_vaddr_extension vaddr vm then vm.levels else 0) vm.ptbase u.memory))
            (λ p v q. chosen p v q)
