-- ===== src/Rv32/Mmu/Walk.antt =====
-- The page table walk of `GenericMMU` (vp/src/core/common/mmu.h) with the constants of mmu.h, mmu_mem_if.h,
-- trap.h and core_defs.h.
use coverage_vp.Base.{
  ℕ, zero, suc, ◌+◌, ◌-◌, ◌*◌, ◌/◌, ◌%◌, ◌^◌, bit_and, bit_or, Bool, true, false, not, ◌&&◌, ◌||◌,
  ◌==◌, if◌then◌else◌, Option, none, some,
}
use coverage_vp.Base.Bits.{complement}
use coverage_vp.Rv32.Word.{u32, field, is_set}
use coverage_vp.Rv32.Hart.{Hart, Outcome, ok}
use coverage_vp.Rv32.Step.Machine.{and_then}

-- `MemoryAccessType`.
pub data MemoryAccessType : Type 0 where
  fetch load store : MemoryAccessType

-- `mmu_memory_if`.
pub record MmuMemoryIf : Type 1 where
  pub State : Type 0
  pub mmu_load_pte64 : ℕ → State → Outcome State ℕ
  pub mmu_load_pte32 : ℕ → State → Outcome State ℕ
  pub mmu_store_pte32 : ℕ → ℕ → State → Outcome State (Unit {0})

-- `vm_info`.
pub record VmInfo : Type 0 where
  pub levels : ℕ
  pub idxbits : ℕ
  pub ptesize : ℕ
  pub ptbase : ℕ

abbrev pub u64 : ℕ → ℕ
u64 n = n % 2 ^ 64

-- The bits of `pte_t`.
abbrev pub pte_v : ℕ → Bool
pte_v pte = is_set pte 0

abbrev pub pte_r : ℕ → Bool
pte_r pte = is_set pte 1

abbrev pub pte_w : ℕ → Bool
pte_w pte = is_set pte 2

abbrev pub pte_x : ℕ → Bool
pte_x pte = is_set pte 3

abbrev pub pte_u : ℕ → Bool
pte_u pte = is_set pte 4

-- `decode_vm_info`; `none` is the failed assertion on the level and the exception for a mode that is none.
unfoldable pub decode_vm_info : Hart → ℕ → Option VmInfo
decode_vm_info h prv =
    let ptbase = field h.csrs.satp 0 22 * 2 ^ 12 in
    let mode = field h.csrs.satp 31 1 in
    if not (prv == 0 || prv == 1)
    then none
    else if mode == 1
    then some (record { levels = 2; idxbits = 10; ptesize = 4; ptbase = ptbase })
    else if mode == 8
    then some (record { levels = 3; idxbits = 9; ptesize = 8; ptbase = ptbase })
    else if mode == 9
    then some (record { levels = 4; idxbits = 9; ptesize = 8; ptbase = ptbase })
    else if mode == 10
    then some (record { levels = 5; idxbits = 9; ptesize = 8; ptbase = ptbase })
    else if mode == 11
    then some (record { levels = 6; idxbits = 9; ptesize = 8; ptbase = ptbase })
    else none

-- `check_vaddr_extension`, with `xlen` 32.
unfoldable pub check_vaddr_extension : ℕ → VmInfo → Bool
check_vaddr_extension vaddr vm =
    let highbit = vm.idxbits * vm.levels + 12 - 1 in
    let ext_mask = 2 ^ (32 - highbit) - 1 in
    let bits = bit_and (vaddr / 2 ^ highbit) ext_mask in (bits == 0) || (bits == ext_mask)

-- The tests on a leaf: of the type of access, and of the mode.
unfoldable pub type_permitted : MemoryAccessType → Bool → ℕ → Bool
type_permitted fetch mxr pte = pte_x pte
type_permitted load mxr pte = pte_r pte || (mxr && pte_x pte)
type_permitted store mxr pte = pte_r pte && pte_w pte

abbrev pub is_fetch : MemoryAccessType → Bool
is_fetch fetch = true
is_fetch load = false
is_fetch store = false

unfoldable pub mode_permitted : MemoryAccessType → Bool → Bool → ℕ → Bool
mode_permitted type s_mode sum pte =
    if pte_u pte then not (s_mode && (is_fetch type || not sum)) else s_mode

-- `PTE_A | ((type == STORE) * PTE_D)`.
abbrev pub accessed_dirty : MemoryAccessType → ℕ
accessed_dirty fetch = 64
accessed_dirty load = 64
accessed_dirty store = 192

module _ (mem : MmuMemoryIf) (vaddr : ℕ) (type : MemoryAccessType) (s_mode sum mxr : Bool)
    (page_fault_on_ad : Bool) (vm : VmInfo) where
  -- Where the entry of a level stands.
  unfoldable pub slot : ℕ → ℕ → ℕ
  slot i base =
      let vpn_field = bit_and (vaddr / 2 ^ (12 + i * vm.idxbits)) (2 ^ vm.idxbits - 1) in
      u64 (base + vpn_field * vm.ptesize)

  -- The assertion allows both sizes only.
  abbrev pub load_pte : ℕ → mem.State → Outcome (mem.State) ℕ
  load_pte addr s = if vm.ptesize == 4 then mem.mmu_load_pte32 addr s else mem.mmu_load_pte64 addr s

  abbrev pub is_invalid : ℕ → Bool
  is_invalid pte = not (pte_v pte) || (not (pte_r pte) && pte_w pte)

  abbrev pub is_pointer : ℕ → Bool
  is_pointer pte = not (pte_r pte) && not (pte_x pte)

  abbrev pub next_base : ℕ → ℕ
  next_base pte = u64 (pte / 2 ^ 10 * 2 ^ 12)

  unfoldable pub is_permitted : ℕ → ℕ → Bool
  is_permitted i pte =
      type_permitted type mxr pte
      && mode_permitted type s_mode sum pte
      && (bit_and (pte / 2 ^ 10) (2 ^ (i * vm.idxbits) - 1) == 0)

  -- The physical address of a leaf at a level.
  unfoldable pub leaf_address : ℕ → ℕ → ℕ
  leaf_address i pte =
      let mask = 2 ^ (i * vm.idxbits) - 1 in
      let page =
        bit_or (bit_and (pte / 2 ^ 10) (complement 64 mask)) (bit_and (vaddr / 2 ^ 12) mask) in
      bit_or (u64 (page * 2 ^ 12)) (bit_and vaddr (2 ^ 12 - 1))

  -- The end of the loop's body: the bits A and D, and the result.
  unfoldable pub finish_walk : ℕ → ℕ → ℕ → mem.State → Outcome (mem.State) (Option ℕ)
  finish_walk i addr pte s =
      let ad = accessed_dirty type in
      if bit_and pte ad == ad
      then ok (some (leaf_address i pte)) s
      else if page_fault_on_ad
      then ok none s
      else and_then (mem.mmu_store_pte32 addr (u32 (bit_or pte ad)) s)
          (λ _ t. ok (some (leaf_address i pte)) t)

  -- The loop of `walk`, with the levels left; `none` is a loop that was left without an address.
  unfoldable pub walk_loop : ℕ → ℕ → mem.State → Outcome (mem.State) (Option ℕ)
  walk_loop zero base s = ok none s
  walk_loop (suc i) base s = and_then (load_pte (slot i base) s) (λ pte t.
      let deeper = walk_loop i (next_base pte) t in
      if is_invalid pte
      then ok none t
      else if is_pointer pte
      then deeper
      else if is_permitted i pte
      then finish_walk i (slot i base) pte t
      else ok none t)
