-- ===== src/Examples/Harts.antt =====
-- CSR accesses, traps and interrupts of vp/src/core/rv32 at concrete harts.
use coverage_vp.Base.{
  ◌^◌, ◌<◌, ◌≤◌, ◌≡◌, ◌↔◌, ◌⊎◌, inl, inr, refl, bit_and, true, false, none, some, arith,
}
use coverage_vp.Rv32.Word.{field}
use coverage_vp.Rv32.Csr.{csr_table, mie_reg, low_half}
use coverage_vp.Rv32.Hart.{Hart, ok, runnable, machine_mode, supervisor_mode}
use coverage_vp.Rv32.Trap.{return_from_trap_handler}
use coverage_vp.Rv32.Trap.Target.{Takes, take_trap, take_trap-Takes}
use coverage_vp.Rv32.Trap.Return.{Resumes, enter_and_return, enter_and_return-Resumes}
use coverage_vp.Rv32.Access.{
  set_csr_value, get_csr_value, is_invalid_csr_access, is_counter, raise_illegal_instruction,
  read_mask, write_mask, mie_mask,
}
use coverage_vp.Rv32.Access.Masked.{Leaves}
use coverage_vp.Rv32.Access.Legal.{
  IsRestricted, csr_table-IsRestricted, set_csr_value-IsRestricted, mret_enters_mpp,
}
use coverage_vp.Rv32.Access.Rights.{
  Allowed, is_invalid_csr_access-Allowed, ReadsOnly, counter_enabled, get_csr_value-ReadsOnly,
  mcycle_read, get_csr_value_stale_cycle, get-set_csr_value,
}

abbrev boot : Hart
boot = record {
  pc = 0x104;
  last_pc = 0x100;
  prv = 3;
  csrs = csr_table;
  lr_sc_counter = 3;
  total_num_instr = 7;
  shall_exit = false;
  status = runnable;
  cycle_counter = 40;
}

-- A hart in user mode with a pending timer interrupt of machine mode.
abbrev interrupted : Hart
interrupted = record boot { prv = 0; csrs = record csr_table { mie = 0x80; mip = 0x80 } }

take_trap-Takes_example :
    ((5 < 2 ^ 32)
      × Takes
          (record { reason = 2; mtval = 5 })
          boot
          (take_trap (record { reason = 2; mtval = 5 }) boot))
    ⊎ ((2 ^ 32 ≤ 5) × (take_trap (record { reason = 2; mtval = 5 }) boot ≡ none))
take_trap-Takes_example = take_trap-Takes (record { reason = 2; mtval = 5 }) boot (inl refl)

enter_and_return-Resumes_example :
    Resumes supervisor_mode interrupted (enter_and_return supervisor_mode interrupted)
enter_and_return-Resumes_example =
    enter_and_return-Resumes supervisor_mode interrupted (inr (inl (refl, omega arith)))

set_csr_value-IsRestricted_example :
    Leaves
      (λ t. IsRestricted t.csrs × (t.csrs.misa ≡ csr_table.misa))
      boot
      (set_csr_value 0 0x304 0xffff_ffff boot)
set_csr_value-IsRestricted_example =
    set_csr_value-IsRestricted 0 0x304 0xffff_ffff boot (omega arith) csr_table-IsRestricted

mret_enters_mpp_example :
    (t : Hart) × (set_csr_value 0 0x300 0x1000 boot ≡ ok tt t)
    × ((u : Hart) × (return_from_trap_handler machine_mode t ≡ some u)
        × (u.prv ≡ field 0x1000 11 2))
mret_enters_mpp_example = mret_enters_mpp 0 0x1000 boot

is_invalid_csr_access-Allowed_example :
    (is_invalid_csr_access 0 0x300 true boot ≡ ok false boot) ↔ Allowed 0x300 true boot
is_invalid_csr_access-Allowed_example = is_invalid_csr_access-Allowed 0 0x300 true boot refl

get_csr_value-ReadsOnly_example :
    ReadsOnly interrupted (get_csr_value 9 0 0xc01 interrupted)
    × (is_counter 0xc01 ≡ true
        → counter_enabled 0xc01 interrupted ≡ false
        → get_csr_value 9 0 0xc01 interrupted ≡ raise_illegal_instruction 0 interrupted)
get_csr_value-ReadsOnly_example = get_csr_value-ReadsOnly 9 0 0xc01 interrupted

-- After a read of `mcycle`.
abbrev boot_read : Hart
boot_read = record boot { csrs = record csr_table { cycle = 40 } }

mcycle_is_read : get_csr_value 9 0 0xb00 boot ≡ ok 40 boot_read
mcycle_is_read = mcycle_read 9 0 boot refl

get_csr_value_stale_cycle_example :
    (get_csr_value 9 0 0xc00 (record boot_read { cycle_counter = 90 })
      ≡ ok 40 (record boot_read { cycle_counter = 90 }))
    × (get_csr_value 9 0 0xb00 (record boot_read { cycle_counter = 90 })
        ≡ ok
            (low_half 90)
            (record boot { cycle_counter = 90; csrs = record csr_table { cycle = 90 } }))
get_csr_value_stale_cycle_example =
    get_csr_value_stale_cycle 9 0 40 90 boot boot_read refl mcycle_is_read

get-set_csr_value_example :
    (t : Hart) × (set_csr_value 0 0x304 0xffff_ffff boot ≡ ok tt t)
    × (get_csr_value 9 0 0x304 t ≡ ok (bit_and 0xffff_ffff mie_mask) t)
unfolding read_mask write_mask
get-set_csr_value_example = get-set_csr_value 9 0 0x304 0xffff_ffff boot mie_reg mie_mask refl refl
