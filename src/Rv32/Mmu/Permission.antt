-- ===== src/Rv32/Mmu/Permission.antt =====
-- The rules that the RISC-V manual gives for a page table entry, and the tests of `GenericMMU::walk`
-- (vp/src/core/common/mmu.h) on one.
use coverage_vp.Base.{
  arith, ℕ, ◌*◌, ◌/◌, ◌%◌, ◌^◌, ◌≡◌, ◌↔◌, ◌⊎◌, Bool, true, false, bit_and, ◌==◌, ◌∙◌, sym,
}
use coverage_vp.Base.Ranges.{bit_and_ones, bit_and_range}
use coverage_vp.Rv32.Mmu.Walk.{
  MemoryAccessType, fetch, load, store, MmuMemoryIf, VmInfo, type_permitted, mode_permitted,
  is_permitted, is_pointer, is_invalid, accessed_dirty,
}

-- The bits of an entry: valid, readable, writable, executable, of user mode.
abbrev pub HasBit : ℕ → ℕ → Type 0
HasBit i pte = pte / 2 ^ i % 2 ≡ 1

abbrev pub LacksBit : ℕ → ℕ → Type 0
LacksBit i pte = pte / 2 ^ i % 2 ≡ 0

-- Valid, and not writable alone, which is reserved.
abbrev pub IsValidEntry : ℕ → Type 0
IsValidEntry pte = HasBit 0 pte × (HasBit 1 pte ⊎ LacksBit 2 pte)

-- Neither readable nor executable: the entry points to the next table.
abbrev pub PointsOn : ℕ → Type 0
PointsOn pte = LacksBit 1 pte × LacksBit 3 pte

abbrev pub IsLeaf : ℕ → Type 0
IsLeaf pte = HasBit 1 pte ⊎ HasBit 3 pte

-- The rights of the page: fetches need an executable one, loads a readable one, or with MXR an executable
-- one, and stores one that is readable and writable.
abbrev pub GrantsType : MemoryAccessType → Bool → ℕ → Type 0
GrantsType fetch mxr pte = HasBit 3 pte
GrantsType load mxr pte = HasBit 1 pte ⊎ ((mxr ≡ true) × HasBit 3 pte)
GrantsType store mxr pte = HasBit 1 pte × HasBit 2 pte

-- The owner of the page: user mode has the user pages, supervisor mode the others, and with SUM the loads
-- and stores of user pages.
abbrev pub GrantsMode : MemoryAccessType → Bool → Bool → ℕ → Type 0
GrantsMode fetch s_mode sum pte =
    ((s_mode ≡ false) × HasBit 4 pte) ⊎ ((s_mode ≡ true) × LacksBit 4 pte)
GrantsMode _ s_mode sum pte =
    ((s_mode ≡ false) × HasBit 4 pte) ⊎ ((s_mode ≡ true) × (LacksBit 4 pte ⊎ (sum ≡ true)))

-- A page of a level above the last begins at a multiple of its size.
abbrev pub IsAligned : ℕ → ℕ → Type 0
IsAligned bits pte = pte / 2 ^ 10 % 2 ^ bits ≡ 0

pub record Permits (type : MemoryAccessType) (s_mode sum mxr : Bool) (bits pte : ℕ) : Type 0 where
  pub right : GrantsType type mxr pte
  pub owner : GrantsMode type s_mode sum pte
  pub aligned : IsAligned bits pte

-- The A bit, and for a store the D bit.
abbrev pub HasAccessed : MemoryAccessType → ℕ → Type 0
HasAccessed fetch pte = HasBit 6 pte
HasAccessed load pte = HasBit 6 pte
HasAccessed store pte = HasBit 6 pte × HasBit 7 pte

pub HasAccessed-iff :
    (type : MemoryAccessType) (pte : ℕ)
    → HasAccessed type pte ↔ ((bit_and pte (accessed_dirty type) == accessed_dirty type) ≡ true)
HasAccessed-iff fetch pte =
    let e : bit_and pte 64 ≡ pte / 2 ^ 6 % 2 * 2 ^ 6 = bit_and_range 6 1 pte in ground arith
HasAccessed-iff load pte =
    let e : bit_and pte 64 ≡ pte / 2 ^ 6 % 2 * 2 ^ 6 = bit_and_range 6 1 pte in ground arith
HasAccessed-iff store pte =
    let e : bit_and pte 192 ≡ pte / 2 ^ 6 % 4 * 2 ^ 6 = bit_and_range 6 2 pte in ground arith

type_permitted_iff :
    (type : MemoryAccessType) (mxr : Bool) (pte : ℕ)
    → (type_permitted type mxr pte ≡ true) ↔ GrantsType type mxr pte
unfolding type_permitted
type_permitted_iff fetch mxr pte = ground arith
type_permitted_iff load mxr pte = ground arith
type_permitted_iff store mxr pte = ground arith

mode_permitted_iff :
    (type : MemoryAccessType) (s_mode sum : Bool) (pte : ℕ)
    → (mode_permitted type s_mode sum pte ≡ true) ↔ GrantsMode type s_mode sum pte
unfolding mode_permitted
mode_permitted_iff fetch s_mode sum pte = ground arith
mode_permitted_iff load s_mode sum pte = ground arith
mode_permitted_iff store s_mode sum pte = ground arith

module _ (mem : MmuMemoryIf) (vaddr : ℕ) (type : MemoryAccessType) (s_mode sum mxr : Bool)
    (page_fault_on_ad : Bool) (vm : VmInfo) where
  pub is_invalid_iff :
      (pte : ℕ)
      → (is_invalid mem vaddr type s_mode sum mxr page_fault_on_ad vm pte ≡ false)
        ↔ IsValidEntry pte
  is_invalid_iff pte = ground arith

  pub is_pointer_iff :
      (pte : ℕ)
      → (is_pointer mem vaddr type s_mode sum mxr page_fault_on_ad vm pte ≡ true) ↔ PointsOn pte
  is_pointer_iff pte = ground arith

  pub no_pointer_iff :
      (pte : ℕ)
      → (is_pointer mem vaddr type s_mode sum mxr page_fault_on_ad vm pte ≡ false) ↔ IsLeaf pte
  no_pointer_iff pte = ground arith

  pub is_permitted_iff :
      (i pte : ℕ)
      → (is_permitted mem vaddr type s_mode sum mxr page_fault_on_ad vm i pte ≡ true)
        ↔ Permits type s_mode sum mxr (i * vm.idxbits) pte
  unfolding is_permitted
  is_permitted_iff i pte = (
    (λ e. record {
      right = (type_permitted_iff type mxr pte).0 (ground arith);
      owner = (mode_permitted_iff type s_mode sum pte).0 (ground arith);
      aligned = sym (bit_and_ones (i * vm.idxbits) (pte / 2 ^ 10)) ∙ ground arith;
    }),
    (λ p.
        let right = (type_permitted_iff type mxr pte).1 p.right in
        let owner = (mode_permitted_iff type s_mode sum pte).1 p.owner in
        let aligned = bit_and_ones (i * vm.idxbits) (pte / 2 ^ 10) ∙ p.aligned in ground arith),
  )
