-- ===== src/Rv32/Csr/Registers.antt =====
-- Writes to one register of `csr_table` (vp/src/core/rv32/csr.h) and reads of the others.
use coverage_vp.Base.{
  ℕ, ◌^◌, ◌<◌, ◌≡◌, ◌≢◌, refl, ap, arith, length, get_or-set_self, get_or-set_ne,
}
use coverage_vp.Rv32.Csr.{
  CsrTable, Register, read_register, write_register, pmpaddr_reg, pmpcfg_reg, cycle_low, cycle_high,
  time_low, time_high, instret_low, instret_high, mvendorid_reg, marchid_reg, mimpid_reg,
  mhartid_reg, mstatus_reg, misa_reg, medeleg_reg, mideleg_reg, mie_reg, mtvec_reg, mcounteren_reg,
  mcountinhibit_reg, mscratch_reg, mepc_reg, mcause_reg, mtval_reg, mip_reg, sedeleg_reg,
  sideleg_reg, stvec_reg, scounteren_reg, sscratch_reg, sepc_reg, scause_reg, stval_reg, satp_reg,
  utvec_reg, uscratch_reg, uepc_reg, ucause_reg, utval_reg, fcsr_reg,
}

-- The protection registers are arrays.
abbrev pub InBounds : CsrTable → Register → Type 0
InBounds c (pmpaddr_reg i) = i < length c.pmpaddr
InBounds c (pmpcfg_reg i) = i < length c.pmpcfg
InBounds c _ = Unit {0}

pub read-write_self :
    (c : CsrTable) (r : Register) (v : ℕ)
    → v < 2 ^ 32
    → InBounds c r
    → read_register (write_register c r v) r ≡ v
unfolding read_register write_register
read-write_self c (pmpaddr_reg i) v h b = get_or-set_self c.pmpaddr i v 0 b
read-write_self c (pmpcfg_reg i) v h b = get_or-set_self c.pmpcfg i v 0 b
read-write_self c cycle_low v h b = omega arith
read-write_self c cycle_high v h b = omega arith
read-write_self c time_low v h b = omega arith
read-write_self c time_high v h b = omega arith
read-write_self c instret_low v h b = omega arith
read-write_self c instret_high v h b = omega arith
read-write_self c _ v h b = refl

pub read-write_ne :
    (c : CsrTable) (r s : Register) (v : ℕ)
    → v < 2 ^ 32
    → r ≢ s
    → read_register (write_register c r v) s ≡ read_register c s
unfolding read_register write_register
read-write_ne c (pmpaddr_reg i) (pmpaddr_reg j) v h n =
    get_or-set_ne c.pmpaddr i j v 0 (λ e. n (ap pmpaddr_reg e))
read-write_ne c (pmpaddr_reg i) _ v h n = refl
read-write_ne c (pmpcfg_reg i) (pmpcfg_reg j) v h n =
    get_or-set_ne c.pmpcfg i j v 0 (λ e. n (ap pmpcfg_reg e))
read-write_ne c (pmpcfg_reg i) _ v h n = refl
read-write_ne c cycle_low cycle_low v h n = absurd (n refl)
read-write_ne c cycle_low cycle_high v h n = omega arith
read-write_ne c cycle_low _ v h n = refl
read-write_ne c cycle_high cycle_high v h n = absurd (n refl)
read-write_ne c cycle_high cycle_low v h n = omega arith
read-write_ne c cycle_high _ v h n = refl
read-write_ne c time_low time_low v h n = absurd (n refl)
read-write_ne c time_low time_high v h n = omega arith
read-write_ne c time_low _ v h n = refl
read-write_ne c time_high time_high v h n = absurd (n refl)
read-write_ne c time_high time_low v h n = omega arith
read-write_ne c time_high _ v h n = refl
read-write_ne c instret_low instret_low v h n = absurd (n refl)
read-write_ne c instret_low instret_high v h n = omega arith
read-write_ne c instret_low _ v h n = refl
read-write_ne c instret_high instret_high v h n = absurd (n refl)
read-write_ne c instret_high instret_low v h n = omega arith
read-write_ne c instret_high _ v h n = refl
read-write_ne c mvendorid_reg mvendorid_reg v h n = absurd (n refl)
read-write_ne c mvendorid_reg _ v h n = refl
read-write_ne c marchid_reg marchid_reg v h n = absurd (n refl)
read-write_ne c marchid_reg _ v h n = refl
read-write_ne c mimpid_reg mimpid_reg v h n = absurd (n refl)
read-write_ne c mimpid_reg _ v h n = refl
read-write_ne c mhartid_reg mhartid_reg v h n = absurd (n refl)
read-write_ne c mhartid_reg _ v h n = refl
read-write_ne c mstatus_reg mstatus_reg v h n = absurd (n refl)
read-write_ne c mstatus_reg _ v h n = refl
read-write_ne c misa_reg misa_reg v h n = absurd (n refl)
read-write_ne c misa_reg _ v h n = refl
read-write_ne c medeleg_reg medeleg_reg v h n = absurd (n refl)
read-write_ne c medeleg_reg _ v h n = refl
read-write_ne c mideleg_reg mideleg_reg v h n = absurd (n refl)
read-write_ne c mideleg_reg _ v h n = refl
read-write_ne c mie_reg mie_reg v h n = absurd (n refl)
read-write_ne c mie_reg _ v h n = refl
read-write_ne c mtvec_reg mtvec_reg v h n = absurd (n refl)
read-write_ne c mtvec_reg _ v h n = refl
read-write_ne c mcounteren_reg mcounteren_reg v h n = absurd (n refl)
read-write_ne c mcounteren_reg _ v h n = refl
read-write_ne c mcountinhibit_reg mcountinhibit_reg v h n = absurd (n refl)
read-write_ne c mcountinhibit_reg _ v h n = refl
read-write_ne c mscratch_reg mscratch_reg v h n = absurd (n refl)
read-write_ne c mscratch_reg _ v h n = refl
read-write_ne c mepc_reg mepc_reg v h n = absurd (n refl)
read-write_ne c mepc_reg _ v h n = refl
read-write_ne c mcause_reg mcause_reg v h n = absurd (n refl)
read-write_ne c mcause_reg _ v h n = refl
read-write_ne c mtval_reg mtval_reg v h n = absurd (n refl)
read-write_ne c mtval_reg _ v h n = refl
read-write_ne c mip_reg mip_reg v h n = absurd (n refl)
read-write_ne c mip_reg _ v h n = refl
read-write_ne c sedeleg_reg sedeleg_reg v h n = absurd (n refl)
read-write_ne c sedeleg_reg _ v h n = refl
read-write_ne c sideleg_reg sideleg_reg v h n = absurd (n refl)
read-write_ne c sideleg_reg _ v h n = refl
read-write_ne c stvec_reg stvec_reg v h n = absurd (n refl)
read-write_ne c stvec_reg _ v h n = refl
read-write_ne c scounteren_reg scounteren_reg v h n = absurd (n refl)
read-write_ne c scounteren_reg _ v h n = refl
read-write_ne c sscratch_reg sscratch_reg v h n = absurd (n refl)
read-write_ne c sscratch_reg _ v h n = refl
read-write_ne c sepc_reg sepc_reg v h n = absurd (n refl)
read-write_ne c sepc_reg _ v h n = refl
read-write_ne c scause_reg scause_reg v h n = absurd (n refl)
read-write_ne c scause_reg _ v h n = refl
read-write_ne c stval_reg stval_reg v h n = absurd (n refl)
read-write_ne c stval_reg _ v h n = refl
read-write_ne c satp_reg satp_reg v h n = absurd (n refl)
read-write_ne c satp_reg _ v h n = refl
read-write_ne c utvec_reg utvec_reg v h n = absurd (n refl)
read-write_ne c utvec_reg _ v h n = refl
read-write_ne c uscratch_reg uscratch_reg v h n = absurd (n refl)
read-write_ne c uscratch_reg _ v h n = refl
read-write_ne c uepc_reg uepc_reg v h n = absurd (n refl)
read-write_ne c uepc_reg _ v h n = refl
read-write_ne c ucause_reg ucause_reg v h n = absurd (n refl)
read-write_ne c ucause_reg _ v h n = refl
read-write_ne c utval_reg utval_reg v h n = absurd (n refl)
read-write_ne c utval_reg _ v h n = refl
read-write_ne c fcsr_reg fcsr_reg v h n = absurd (n refl)
read-write_ne c fcsr_reg _ v h n = refl
