-- ===== src/Rv32/Access/Levels.antt =====
-- A write at supervisor or user level (`set_csr_value` of vp/src/core/rv32/iss.cpp) does not reach
-- the machine level.
use native.Mathlib.Decide.{ℕ_discrete}
use coverage_vp.Base.{ℕ, ◌≡◌, ◌≢◌, bit_and, Bool, true, false, ◌⊎◌}
use coverage_vp.Rv32.Word.{bit_not}
use coverage_vp.Rv32.Csr.{
  Register, cycle_low, cycle_high, time_low, time_high, instret_low, instret_high, read_register,
  mstatus_reg, mie_reg, mip_reg, mvendorid_reg, marchid_reg, mimpid_reg, mhartid_reg, misa_reg,
  medeleg_reg, mideleg_reg, mtvec_reg, mcounteren_reg, mcountinhibit_reg, mscratch_reg, mepc_reg,
  mcause_reg, mtval_reg, pmpaddr_reg, pmpcfg_reg,
}
use coverage_vp.Rv32.Hart.{Hart}
use coverage_vp.Rv32.Access.{sstatus_mask, ustatus_mask, sie_mask, uie_mask, sip_mask, uip_mask}

pub Register-discrete : Discrete Register
Register-discrete = hlevel ℕ_discrete

-- The registers that only machine mode may change, with the two halves of the counters.
abbrev pub is_machine : Register → Bool
is_machine cycle_low = true
is_machine cycle_high = true
is_machine time_low = true
is_machine time_high = true
is_machine instret_low = true
is_machine instret_high = true
is_machine mvendorid_reg = true
is_machine marchid_reg = true
is_machine mimpid_reg = true
is_machine mhartid_reg = true
is_machine misa_reg = true
is_machine medeleg_reg = true
is_machine mideleg_reg = true
is_machine mtvec_reg = true
is_machine mcounteren_reg = true
is_machine mcountinhibit_reg = true
is_machine mscratch_reg = true
is_machine mepc_reg = true
is_machine mcause_reg = true
is_machine mtval_reg = true
is_machine (pmpaddr_reg i) = true
is_machine (pmpcfg_reg i) = true
is_machine _ = false

-- What the hart `t` has in common with `h`: all machine registers, the machine's fields of the shared
-- ones, and all but the registers.
pub record Isolated (h t : Hart) : Type 0 where
  pub machine :
      (s : Register) → is_machine s ≡ true → read_register t.csrs s ≡ read_register h.csrs s
  pub status :
      bit_and t.csrs.mstatus (bit_not sstatus_mask) ≡ bit_and h.csrs.mstatus (bit_not sstatus_mask)
  pub enables : bit_and t.csrs.mie (bit_not sie_mask) ≡ bit_and h.csrs.mie (bit_not sie_mask)
  pub pending : bit_and t.csrs.mip (bit_not sip_mask) ≡ bit_and h.csrs.mip (bit_not sip_mask)
  pub same : t ≡ record h { csrs = t.csrs }

-- What a write at a lower level goes to, and through which mask.
abbrev LowTarget : Register → ℕ → Type 0
LowTarget mstatus_reg m = (m ≡ sstatus_mask) ⊎ (m ≡ ustatus_mask)
LowTarget mie_reg m = (m ≡ sie_mask) ⊎ (m ≡ uie_mask)
LowTarget mip_reg m = (m ≡ sip_mask) ⊎ (m ≡ uip_mask)
LowTarget r m = is_machine r ≡ false

-- A register that a lower level writes whole.
abbrev IsLow : Register → Type 0
IsLow r = (is_machine r ≡ false) × (r ≢ mstatus_reg) × (r ≢ mie_reg) × (r ≢ mip_reg)
