-- ===== src/Rv32/Mmu/Translate.antt =====
-- `walk`, the translation buffer and `translate_virtual_to_physical_addr` of `GenericMMU`
-- (vp/src/core/common/mmu.h).
use coverage_vp.Base.{
  ℕ, ◌-◌, ◌/◌, ◌%◌, ◌^◌, bit_and, bit_or, Bool, true, false, not, ◌&&◌, ◌||◌, ◌==◌, if◌then◌else◌,
  none, some,
}
use coverage_vp.Rv32.Word.{field, is_set}
use coverage_vp.Rv32.Exc.{instr_page_fault, load_page_fault, store_amo_page_fault}
use coverage_vp.Rv32.Hart.{Hart, Outcome, ok, thrown, raise_trap, supervisor_mode, machine_mode}
use coverage_vp.Rv32.Step.Machine.{and_then, on_part}
use coverage_vp.Rv32.Mmu.Walk.{
  MemoryAccessType, fetch, load, store, is_fetch, MmuMemoryIf, decode_vm_info,
  check_vaddr_extension, walk_loop,
}

abbrev pub page_fault : MemoryAccessType → ℕ
page_fault fetch = instr_page_fault
page_fault load = load_page_fault
page_fault store = store_amo_page_fault

-- `tlb_entry_t`; a flushed entry has the number -1 in both fields.
pub record TlbEntry : Type 0 where
  pub ppn : ℕ
  pub vpn : ℕ

abbrev pub Tlb : Type 0
Tlb = ℕ → MemoryAccessType → ℕ → TlbEntry

unfoldable pub flush_tlb : Tlb
flush_tlb mode type idx = record { ppn = 2 ^ 64 - 1; vpn = 2 ^ 64 - 1 }

abbrev pub same_type : MemoryAccessType → MemoryAccessType → Bool
same_type fetch fetch = true
same_type load load = true
same_type store store = true
same_type a b = false

abbrev pub with_entry : Tlb → ℕ → MemoryAccessType → ℕ → TlbEntry → Tlb
with_entry tlb mode type idx entry m t i =
    if (m == mode) && same_type t type && (i == idx) then entry else tlb m t i

module _ (mem : MmuMemoryIf) where
  pub record Mmu : Type 0 where
    pub tlb : Tlb
    pub page_fault_on_ad : Bool
    pub memory : mem.State

  abbrev pub on_memory : {A : Type 0} → Outcome (mem.State) A → Mmu → Outcome Mmu A
  on_memory o u = on_part (λ s. record u { memory = s }) o

  unfoldable pub walk : Hart → ℕ → MemoryAccessType → ℕ → Mmu → Outcome Mmu ℕ
  walk h vaddr type mode u = elim (decode_vm_info h mode) [
    | none ↦ thrown
    | some vm ↦
        let levels = if check_vaddr_extension vaddr vm then vm.levels else 0 in
        and_then
          (on_memory
            (walk_loop mem vaddr type (mode == supervisor_mode) (is_set h.csrs.mstatus 18)
              (is_set h.csrs.mstatus 19) (u.page_fault_on_ad) vm levels vm.ptbase u.memory)
            u)
          (λ paddr v. elim paddr [ none ↦ raise_trap (page_fault type) vaddr v | some p ↦ ok p v ])
  ]

  -- The level that the access is made for: that of `mpp` for data where `mprv` is set.
  unfoldable pub effective_mode : Hart → MemoryAccessType → ℕ
  effective_mode h type =
      if not (is_fetch type) && is_set h.csrs.mstatus 17 then field h.csrs.mstatus 11 2 else h.prv

  -- The entry for a page. `~PGMASK` is an `unsigned`, so 32 bits are kept of an address.
  abbrev pub entry_at : Mmu → ℕ → MemoryAccessType → ℕ → TlbEntry
  entry_at u mode type vaddr = u.tlb mode type (vaddr / 2 ^ 12 % 256)

  abbrev pub remember : Mmu → ℕ → MemoryAccessType → ℕ → ℕ → Mmu
  remember u mode type vaddr paddr = record u {
    tlb =
        with_entry u.tlb mode type (vaddr / 2 ^ 12 % 256)
          (record { ppn = bit_and paddr (2 ^ 32 - 2 ^ 12); vpn = vaddr / 2 ^ 12 });
  }

  -- Through the buffer; `thrown` is the failed assertion on the mode.
  unfoldable pub look_up : Hart → ℕ → MemoryAccessType → ℕ → Mmu → Outcome Mmu ℕ
  look_up h vaddr type mode u =
      if not (mode == 0 || mode == 1)
      then thrown
      else if (entry_at u mode type vaddr).vpn == vaddr / 2 ^ 12
      then ok (bit_or (entry_at u mode type vaddr).ppn (bit_and vaddr (2 ^ 12 - 1))) u
      else and_then (walk h vaddr type mode u)
          (λ paddr v. ok paddr (remember v mode type vaddr paddr))

  unfoldable pub translate_virtual_to_physical_addr :
      Hart → ℕ → MemoryAccessType → Mmu → Outcome Mmu ℕ
  translate_virtual_to_physical_addr h vaddr type u =
      if field h.csrs.satp 31 1 == 0
      then ok vaddr u
      else if effective_mode h type == machine_mode
      then ok vaddr u
      else look_up h vaddr type (effective_mode h type) u
