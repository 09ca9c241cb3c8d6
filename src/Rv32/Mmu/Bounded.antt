-- ===== src/Rv32/Mmu/Bounded.antt =====
-- The width of the addresses that the page table walk of `GenericMMU` (vp/src/core/common/mmu.h) gives with
-- the entries of 32 bits of Sv32.
use coverage_vp.Base.{
  ℕ, ◌-◌, ◌*◌, ◌/◌, ◌^◌, ◌<◌, ◌≡◌, ◌==◌, subst, sym, arith, bit_and, Bool, if◌then◌else◌, some,
}
use coverage_vp.Base.Bits.{complement, bit_and-lt_left, bit_or-lt}
use coverage_vp.Rv32.Hart.{ok}
use coverage_vp.Rv32.Mmu.Walk.{MemoryAccessType, MmuMemoryIf, VmInfo, walk_loop, leaf_address}
use coverage_vp.Rv32.Mmu.Found.{Finds, here, deeper, walk_loop_iff}

module _ (mem : MmuMemoryIf) (vaddr : ℕ) (type : MemoryAccessType) (s_mode sum mxr : Bool)
    (page_fault_on_ad : Bool) (vm : VmInfo) where
  leaf_address-lt :
      (i pte : ℕ)
      → vaddr < 2 ^ 34
      → pte < 2 ^ 32
      → leaf_address mem vaddr type s_mode sum mxr page_fault_on_ad vm i pte < 2 ^ 34
  unfolding leaf_address
  leaf_address-lt i pte v h =
      let small : pte / 2 ^ 10 < 2 ^ 22 = omega arith in
      let frame : vaddr / 2 ^ 12 < 2 ^ 22 = omega arith in
      let mask = 2 ^ (i * vm.idxbits) - 1 in
      let page_lt =
        bit_or-lt 22 (bit_and (pte / 2 ^ 10) (complement 64 mask)) (bit_and (vaddr / 2 ^ 12) mask)
          (bit_and-lt_left 22 _ _ small) (bit_and-lt_left 22 _ _ frame) in
      bit_or-lt 34 _ _ (omega arith) (bit_and-lt_left 34 _ _ v)

  module _ (four : vm.ptesize ≡ 4)
      (word : (a pte : ℕ) (s t : mem.State)
        → mem.mmu_load_pte32 a s ≡ ok pte t
        → pte < 2 ^ 32) where
    Finds-lt :
        (n base : ℕ) (s : mem.State) (j a pte : ℕ) (u : mem.State)
        → Finds mem vaddr type s_mode sum mxr page_fault_on_ad vm n base s j a pte u
        → pte < 2 ^ 32
    Finds-lt n base s j a pte u (here {t = t} l x y) = word _ pte s t (
        subst (λ z. (if z == 4 then mem.mmu_load_pte32 a s else mem.mmu_load_pte64 a s) ≡ ok pte t)
          four l)
    Finds-lt n base s j a pte u (deeper l x y w) = Finds-lt _ _ _ j a pte u w

    -- With entries of 32 bits and a virtual address of at most 34 bits, every address that the walk gives
    -- has at most the 34 bits of a physical address of Sv32.
    pub walk_loop-lt :
        (n base p : ℕ) (s u : mem.State)
        → vaddr < 2 ^ 34
        → walk_loop mem vaddr type s_mode sum mxr page_fault_on_ad vm n base s ≡ ok (some p) u
        → p < 2 ^ 34
    walk_loop-lt n base p s u v e =
        let r =
          (walk_loop_iff mem vaddr type s_mode sum mxr page_fault_on_ad vm p u n base s).0 e in
        let entry = Finds-lt n base s r.level r.address r.pte r.state r.finds in
        subst (λ q. q < 2 ^ 34) (sym r.gives) (leaf_address-lt r.level r.pte v entry)
