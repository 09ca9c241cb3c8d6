-- ===== src/Rv32/Access.antt =====
-- CSR accesses of instructions: `is_invalid_csr_access`, `validate_csr_counter_read_access_rights`,
-- `get_csr_value` and `set_csr_value` of vp/src/core/rv32/iss.cpp, with the masks of csr.h. What
-- `clint->update_and_get_mtime()` returns is the argument `mtime`, and `word` is the
-- instruction word that an illegal instruction reports.
pub mod Masked
pub mod Levels
pub mod Legal
pub mod Rights
use coverage_vp.Base.{
  ℕ, ◌+◌, ◌-◌, ◌/◌, ◌%◌, ◌^◌, bit_and, Bool, true, false, not, ◌&&◌, ◌||◌, ltb, leb, ◌==◌,
  if◌then◌else◌, Option, none, some,
}
use coverage_vp.Base.Bits.{masked}
use coverage_vp.Rv32.Word.{u32, field, set_field, is_set, bit_not}
use coverage_vp.Rv32.Csr.{
  CsrTable, Register, mstatus_reg, medeleg_reg, mideleg_reg, mie_reg, mtvec_reg, mcounteren_reg,
  mcountinhibit_reg, mepc_reg, mip_reg, sedeleg_reg, sideleg_reg, stvec_reg, scounteren_reg,
  sepc_reg, satp_reg, utvec_reg, uepc_reg, fcsr_reg, read_register, write_register, low_half,
  high_half, is_valid_csr32_addr, default_read32, default_write32,
}
use coverage_vp.Rv32.Exc.{illegal_instr}
use coverage_vp.Rv32.Hart.{
  Hart, Outcome, ok, trap, thrown, raise_trap, supervisor_mode, user_mode, has_c_extension,
  has_supervisor_mode_extension, has_user_mode_extension,
}

-- The masks of csr.h.
abbrev pub mie_mask : ℕ
mie_mask = 0b101110111011

abbrev pub sie_mask : ℕ
sie_mask = 0b001100110011

abbrev pub uie_mask : ℕ
uie_mask = 0b000100010001

abbrev pub mip_write_mask : ℕ
mip_write_mask = 0b001100110011

abbrev pub sip_mask : ℕ
sip_mask = 0b11

abbrev pub uip_mask : ℕ
uip_mask = 0b1

abbrev pub medeleg_mask : ℕ
medeleg_mask = 0b1011101111111111

abbrev pub mtvec_mask : ℕ
mtvec_mask = 2 ^ 32 - 1 - 2

abbrev pub mcounteren_mask : ℕ
mcounteren_mask = 0b111

abbrev pub mcountinhibit_mask : ℕ
mcountinhibit_mask = 0b101

abbrev pub sedeleg_mask : ℕ
sedeleg_mask = 0b1011000111111111

abbrev pub mstatus_mask : ℕ
mstatus_mask = 0b10000000011111111111100110111011

abbrev pub sstatus_mask : ℕ
sstatus_mask = 0b10000000000011011110000100110011

abbrev pub ustatus_mask : ℕ
ustatus_mask = 0b00000000000000000000000000010001

abbrev pub satp_mask : ℕ
satp_mask = 0b10000000001111111111111111111111

abbrev pub fcsr_mask : ℕ
fcsr_mask = 0b11111111

-- `pc_alignment_mask`.
abbrev pub pc_alignment_mask : CsrTable → ℕ
pc_alignment_mask c = if has_c_extension c then 2 ^ 32 - 1 - 1 else 2 ^ 32 - 1 - 3

abbrev pub raise_illegal_instruction : {A : Type 0} → ℕ → Hart → Outcome Hart A
raise_illegal_instruction word h = raise_trap illegal_instr word h

abbrev pub between : ℕ → ℕ → ℕ → Bool
between lo hi addr = leb lo addr && leb addr hi

-- `SWITCH_CASE_MATCH_ANY_HPMCOUNTER_RV32`.
unfoldable pub is_hpmcounter : ℕ → Bool
is_hpmcounter addr =
    between 0xc03 0xc1f addr
    || between 0xc83 0xc9f addr
    || between 0xb03 0xb1f addr
    || between 0xb83 0xb9f addr
    || between 0x323 0x33f addr

-- The debug registers but `tselect`, which are hardwired.
abbrev pub is_debug_register : ℕ → Bool
is_debug_register addr = between 0x7a1 0x7a3 addr || between 0x7b0 0x7b3 addr

abbrev pub level_of : ℕ → ℕ
level_of addr = addr / 2 ^ 8 % 2 ^ 2

abbrev pub is_read_only : ℕ → Bool
is_read_only addr = addr / 2 ^ 10 % 2 ^ 2 == 3

abbrev pub is_float_register : ℕ → Bool
is_float_register addr = addr == 0x1 || addr == 0x2 || addr == 0x3

unfoldable pub is_invalid_csr_access : ℕ → ℕ → Bool → Hart → Outcome Hart Bool
is_invalid_csr_access word addr is_write h =
    let c = h.csrs in
    let csr_prv = level_of addr in
    let s_invalid = (csr_prv == supervisor_mode) && not (has_supervisor_mode_extension c) in
    let u_invalid = (csr_prv == user_mode) && not (has_user_mode_extension c) in
    if is_float_register addr && not (is_set c.misa 5)
    then raise_illegal_instruction word h
    else ok ((is_write && is_read_only addr) || ltb h.prv csr_prv || s_invalid || u_invalid) h

abbrev pub is_counter : ℕ → Bool
is_counter addr = between 0xc00 0xc1f addr || between 0xc80 0xc9f addr

unfoldable pub validate_csr_counter_read_access_rights : ℕ → ℕ → Hart → Outcome Hart (Unit {0})
validate_csr_counter_read_access_rights word addr h =
    let c = h.csrs in
    let cnt = addr % 2 ^ 5 in
    if is_counter addr
    then (if h.prv == supervisor_mode && not (is_set c.mcounteren cnt)
        then raise_illegal_instruction word h
        else if h.prv == user_mode
            && (not (is_set c.mcounteren cnt) || not (is_set c.scounteren cnt))
        then raise_illegal_instruction word h
        else ok tt h)
    else ok tt h

-- The cases of `get_csr_value` that read a register through a mask.
unfoldable pub read_mask : ℕ → Option (Register × ℕ)
read_mask addr =
    if addr == 0x300
    then some (mstatus_reg, mstatus_mask)
    else if addr == 0x100
    then some (mstatus_reg, sstatus_mask)
    else if addr == 0x0
    then some (mstatus_reg, ustatus_mask)
    else if addr == 0x344
    then some (mip_reg, mie_mask)
    else if addr == 0x144
    then some (mip_reg, sip_mask)
    else if addr == 0x44
    then some (mip_reg, uip_mask)
    else if addr == 0x304
    then some (mie_reg, mie_mask)
    else if addr == 0x104
    then some (mie_reg, sie_mask)
    else if addr == 0x4
    then some (mie_reg, uie_mask)
    else if addr == 0x3
    then some (fcsr_reg, fcsr_mask)
    else none

-- The end of the switch, and what follows it.
abbrev pub read_default : ℕ → ℕ → Hart → Outcome Hart ℕ
read_default word addr h = elim (default_read32 h.csrs addr) [
  | none ↦ raise_illegal_instruction word h
  | some v ↦ ok v h
]

-- The counters, which are brought up to date by a read; `none` for any other address.
unfoldable pub read_counter : ℕ → ℕ → Hart → Option (ℕ × CsrTable)
read_counter mtime addr h =
    let c = h.csrs in
    let at_time = record c { time = mtime } in
    let at_cycle = record c { cycle = h.cycle_counter } in
    if addr == 0xc01 || addr == 0xb01
    then some (low_half mtime, at_time)
    else if addr == 0xc81 || addr == 0xb81
    then some (high_half mtime, at_time)
    else if addr == 0xb00
    then some (low_half h.cycle_counter, at_cycle)
    else if addr == 0xb80
    then some (high_half h.cycle_counter, at_cycle)
    else if addr == 0xb02
    then some (low_half c.instret, c)
    else if addr == 0xb82
    then some (high_half c.instret, c)
    else none

-- The switch of `get_csr_value` behind the counters.
unfoldable pub read_other : ℕ → ℕ → Hart → Outcome Hart ℕ
read_other word addr h =
    let c = h.csrs in
    if is_hpmcounter addr
    then ok 0 h
    else if addr == 0x180 && is_set c.mstatus 20
    then raise_illegal_instruction word h
    else if addr == 0x1
    then ok (field c.fcsr 0 5) h
    else if addr == 0x2
    then ok (field c.fcsr 5 3) h
    else if addr == 0x7a0
    then ok 1 h
    else if is_debug_register addr
    then ok 0 h
    else elim (read_mask addr) [
      | some (r, m) ↦ ok (bit_and (read_register c r) m) h
      | none ↦ read_default word addr h
    ]

abbrev pub read_switch : ℕ → ℕ → ℕ → Hart → Outcome Hart ℕ
read_switch mtime word addr h = elim (read_counter mtime addr h) [
  | some (v, c) ↦ ok v (record h { csrs = c })
  | none ↦ read_other word addr h
]

unfoldable pub get_csr_value : ℕ → ℕ → ℕ → Hart → Outcome Hart ℕ
get_csr_value mtime word addr h = elim (validate_csr_counter_read_access_rights word addr h) [
  | ok _ t ↦ read_switch mtime word addr t
  | trap e t ↦ trap e t
  | thrown ↦ thrown
]

-- The cases of `set_csr_value` that write a register through a mask.
unfoldable pub write_mask : CsrTable → ℕ → Option (Register × ℕ)
write_mask c addr =
    if addr == 0x180
    then some (satp_reg, satp_mask)
    else if addr == 0x305
    then some (mtvec_reg, mtvec_mask)
    else if addr == 0x105
    then some (stvec_reg, mtvec_mask)
    else if addr == 0x5
    then some (utvec_reg, mtvec_mask)
    else if addr == 0x341
    then some (mepc_reg, pc_alignment_mask c)
    else if addr == 0x141
    then some (sepc_reg, pc_alignment_mask c)
    else if addr == 0x41
    then some (uepc_reg, pc_alignment_mask c)
    else if addr == 0x300
    then some (mstatus_reg, mstatus_mask)
    else if addr == 0x100
    then some (mstatus_reg, sstatus_mask)
    else if addr == 0x0
    then some (mstatus_reg, ustatus_mask)
    else if addr == 0x344
    then some (mip_reg, mip_write_mask)
    else if addr == 0x144
    then some (mip_reg, sip_mask)
    else if addr == 0x44
    then some (mip_reg, uip_mask)
    else if addr == 0x304
    then some (mie_reg, mie_mask)
    else if addr == 0x104
    then some (mie_reg, sie_mask)
    else if addr == 0x4
    then some (mie_reg, uie_mask)
    else if addr == 0x303
    then some (mideleg_reg, mie_mask)
    else if addr == 0x302
    then some (medeleg_reg, medeleg_mask)
    else if addr == 0x103
    then some (sideleg_reg, mie_mask)
    else if addr == 0x102
    then some (sedeleg_reg, sedeleg_mask)
    else if addr == 0x306
    then some (mcounteren_reg, mcounteren_mask)
    else if addr == 0x106
    then some (scounteren_reg, mcounteren_mask)
    else if addr == 0x320
    then some (mcountinhibit_reg, mcountinhibit_mask)
    else if addr == 0x3
    then some (fcsr_reg, fcsr_mask)
    else none

-- `x.reg = (x.reg & ~mask) | (value & mask)`.
abbrev pub write_masked : CsrTable → Register → ℕ → ℕ → CsrTable
write_masked c r m value = write_register c r (masked 32 m (read_register c r) value)

abbrev pub with_csrs : Hart → CsrTable → Outcome Hart (Unit {0})
with_csrs h c = ok tt (record h { csrs = c })

abbrev pub write_default : ℕ → ℕ → ℕ → Hart → Outcome Hart (Unit {0})
write_default word addr value h = elim (default_write32 h.csrs addr value) [
  | none ↦ raise_illegal_instruction word h
  | some c ↦ with_csrs h c
]

unfoldable pub set_csr_value : ℕ → ℕ → ℕ → Hart → Outcome Hart (Unit {0})
set_csr_value word addr value h =
    let c = h.csrs in
    if addr == 0x301 || is_hpmcounter addr
    then ok tt h
    else if addr == 0x180 && is_set c.mstatus 20
    then raise_illegal_instruction word h
    else if addr == 0x1
    then with_csrs h (record c { fcsr = set_field c.fcsr 0 5 value })
    else if addr == 0x2
    then with_csrs h (record c { fcsr = set_field c.fcsr 5 3 value })
    else if addr == 0x7a0 || is_debug_register addr
    then ok tt h
    else elim (write_mask c addr) [
      | some (r, m) ↦ with_csrs h (write_masked c r m value)
      | none ↦ write_default word addr value h
    ]
