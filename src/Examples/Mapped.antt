-- ===== src/Examples/Mapped.antt =====
-- The translation of vp/src/core/common/mmu.h at a concrete page table: one entry, which maps the page of
-- 4 MiB at the address 2^32 with all rights.
use coverage_vp.Base.{
  ◌+◌, ◌*◌, ◌/◌, ◌%◌, ◌^◌, ◌≡◌, ◌↔◌, ◌==◌, ◌<◌, ℕ, refl, subst, arith, false, some,
}
use coverage_vp.Rv32.Csr.{csr_table}
use coverage_vp.Rv32.Hart.{Hart, ok, runnable}
use coverage_vp.Rv32.Mmu.Walk.{
  load, MmuMemoryIf, VmInfo, decode_vm_info, check_vaddr_extension, type_permitted, mode_permitted,
  slot, is_permitted, leaf_address, finish_walk, walk_loop,
}
use coverage_vp.Rv32.Mmu.Translate.{
  Mmu, flush_tlb, walk, effective_mode, entry_at, remember, look_up,
  translate_virtual_to_physical_addr,
}
use coverage_vp.Rv32.Mmu.Remembered.{translate-remembers}
use coverage_vp.Rv32.Mmu.Found.{Translation, walk_loop_iff}
use coverage_vp.Rv32.Mmu.Permission.{IsAligned}
use coverage_vp.Rv32.Mmu.Address.{leaf_address_lem}
use coverage_vp.Rv32.Mmu.Bounded.{walk_loop-lt}

abbrev one_entry : MmuMemoryIf
one_entry = record {
  State = Unit {0};
  mmu_load_pte64 = λ a s. ok 0 s;
  mmu_load_pte32 = λ a s. ok (2 ^ 30 + 0xdf) s;
  mmu_store_pte32 = λ a v s. ok tt s;
}

abbrev sv32 : VmInfo
sv32 = record { levels = 2; idxbits = 10; ptesize = 4; ptbase = 0 }

walk_loop_iff_example :
    (walk_loop one_entry 0x1234 load false false false false sv32 2 0 tt
      ≡ ok (some (2 ^ 32 + 0x1234)) tt)
    ↔ Translation one_entry 0x1234 load false false false false sv32 2 0 tt (2 ^ 32 + 0x1234) tt
walk_loop_iff_example =
    walk_loop_iff one_entry 0x1234 load false false false false sv32 (2 ^ 32 + 0x1234) tt 2 0 tt

one_entry_word :
    (a pte : ℕ) (s t : Unit {0}) → one_entry.mmu_load_pte32 a s ≡ ok pte t → pte < 2 ^ 32
one_entry_word a pte s t e =
    let same : 2 ^ 30 + 0xdf ≡ pte = cc in subst (λ n. n < 2 ^ 32) same (omega arith)

found :
    walk_loop one_entry 0x1234 load false false false false sv32 2 0 tt
    ≡ ok (some (2 ^ 32 + 0x1234)) tt
unfolding walk_loop slot is_permitted type_permitted mode_permitted finish_walk leaf_address
found = refl

walk_loop-lt_example : 2 ^ 32 + 0x1234 < 2 ^ 34
walk_loop-lt_example =
    walk_loop-lt one_entry 0x1234 load false false false false sv32 refl one_entry_word 2 0
      (2 ^ 32 + 0x1234) tt tt (omega arith) found

mapped_page : IsAligned 10 (2 ^ 30 + 0xdf)
mapped_page = omega arith

leaf_address_lem_example :
    leaf_address one_entry 0x1234 load false false false false sv32 1 (2 ^ 30 + 0xdf)
    ≡ ((2 ^ 30 + 0xdf) / 2 ^ 10 + 0x1234 / 2 ^ 12 % 2 ^ 10) * 2 ^ 12 % 2 ^ 64 + 0x1234 % 2 ^ 12
leaf_address_lem_example =
    leaf_address_lem one_entry 0x1234 load false false false false sv32 1 (2 ^ 30 + 0xdf)
      (omega arith) mapped_page

-- A program in user mode, with paging on.
abbrev paged : Hart
unfolding csr_table
paged = record {
  pc = 0;
  last_pc = 0;
  prv = 0;
  csrs = record csr_table { satp = 2 ^ 31 };
  lr_sc_counter = 0;
  total_num_instr = 0;
  shall_exit = false;
  status = runnable;
  cycle_counter = 0;
}

abbrev flushed : Mmu one_entry
unfolding flush_tlb
flushed = record { tlb = flush_tlb; page_fault_on_ad = false; memory = tt }

abbrev kept : Mmu one_entry
kept = remember one_entry flushed 0 load 0x1234 (2 ^ 32 + 0x1234)

is_paged : (paged.csrs.satp / 2 ^ 31 % 2 ^ 1 == 0) ≡ false
unfolding paged
is_paged = refl

walks :
    translate_virtual_to_physical_addr one_entry paged 0x1234 load flushed
    ≡ ok (2 ^ 32 + 0x1234) kept
unfolding translate_virtual_to_physical_addr effective_mode look_up walk decode_vm_info
    check_vaddr_extension walk_loop slot is_permitted type_permitted mode_permitted finish_walk
    leaf_address flush_tlb csr_table
walks = refl

user_level : effective_mode one_entry paged load ≡ 0
unfolding effective_mode csr_table
user_level = refl

missing : ((flushed.tlb 0 load (0x1234 / 2 ^ 12 % 256)).vpn == 0x1234 / 2 ^ 12) ≡ false
unfolding flush_tlb
missing = refl

-- Later the loads of another page went through the buffer.
abbrev and_more : Mmu one_entry
and_more = remember one_entry kept 0 load 0x5000 0x7000

still_there : entry_at one_entry and_more 0 load 0x1678 ≡ entry_at one_entry kept 0 load 0x1678
unfolding flush_tlb
still_there = refl

translate-remembers_example :
    translate_virtual_to_physical_addr one_entry paged 0x1678 load and_more ≡ ok 0x1678 and_more
translate-remembers_example =
    translate-remembers one_entry 0 load refl paged paged 0x1234 0x1678 (2 ^ 32 + 0x1234) flushed
      kept and_more (is_paged, user_level) (is_paged, user_level) missing walks refl still_there
