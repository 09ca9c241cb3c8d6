-- ===== src/Rv32/Hart.antt =====
-- The part of `ISS` (vp/src/core/rv32/iss.h) that controls execution, without the register file and
-- the memory; with the constants of vp/src/core/common/{trap,irq_if,core_defs}.h.
use coverage_vp.Base.{ℕ, ◌^◌, ◌-◌, Bool}
use coverage_vp.Rv32.Word.{is_set}
use coverage_vp.Rv32.Csr.{CsrTable}

-- `PrivilegeLevel` is a number: the fields `mpp` and `spp` are read as levels.
abbrev pub machine_mode : ℕ
machine_mode = 3

abbrev pub supervisor_mode : ℕ
supervisor_mode = 1

abbrev pub user_mode : ℕ
user_mode = 0

-- The sentinel -1, as a `uint32_t`.
abbrev pub none_mode : ℕ
none_mode = 2 ^ 32 - 1

pub data CoreExecStatus : Type 0 where
  runnable hit_breakpoint terminated : CoreExecStatus

-- `SimulationTrap`.
pub record SimulationTrap : Type 0 where
  pub reason : ℕ
  pub mtval : ℕ

pub record Hart : Type 0 where
  pub pc : ℕ
  pub last_pc : ℕ
  pub prv : ℕ
  pub csrs : CsrTable
  pub lr_sc_counter : ℕ
  pub total_num_instr : ℕ
  pub shall_exit : Bool
  pub status : CoreExecStatus
  -- `cycle_counter / cycle_time`.
  pub cycle_counter : ℕ

-- How a member function ends: with a value, by a `SimulationTrap`, or by another exception or a
-- failed assertion, which nothing in the simulator handles. A trap keeps the changes made before it.
pub data Outcome (S A : Type 0) : Type 0 where
  ok : A → S → Outcome S A
  trap : SimulationTrap → S → Outcome S A
  thrown : Outcome S A

abbrev pub raise_trap : {S A : Type 0} → ℕ → ℕ → S → Outcome S A
raise_trap exc mtval s = trap (record { reason = exc; mtval = mtval }) s

-- The bits of `misa`.
abbrev pub has_c_extension : CsrTable → Bool
has_c_extension c = is_set c.misa 2

abbrev pub has_e_base_isa : CsrTable → Bool
has_e_base_isa c = is_set c.misa 4

abbrev pub has_user_mode_extension : CsrTable → Bool
has_user_mode_extension c = is_set c.misa 20

abbrev pub has_supervisor_mode_extension : CsrTable → Bool
has_supervisor_mode_extension c = is_set c.misa 18
