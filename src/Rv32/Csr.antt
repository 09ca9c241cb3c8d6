-- ===== src/Rv32/Csr.antt =====
-- The control and status registers of vp/src/core/rv32/csr.h: `csr_table` and its register mapping.
-- A register is its 32-bit word; a union's bit fields are read and written by `field` and `set_field`.
pub mod Registers
use coverage_vp.Base.{
  ℕ, zero, suc, ◌+◌, ◌-◌, ◌*◌, ◌/◌, ◌%◌, ◌^◌, bit_and, bit_or, Bool, true, false, not, ◌&&◌, ltb,
  leb, ◌==◌, if◌then◌else◌, List, [], ◌∷◌, Option, none, some, get_or, set,
}
use coverage_vp.Rv32.Word.{field, set_field, is_set, nonzero, bit_not}

pub record CsrTable : Type 0 where
  -- 64-bit counters.
  pub cycle : ℕ
  pub time : ℕ
  pub instret : ℕ
  pub mvendorid : ℕ
  pub marchid : ℕ
  pub mimpid : ℕ
  pub mhartid : ℕ
  pub mstatus : ℕ
  pub misa : ℕ
  pub medeleg : ℕ
  pub mideleg : ℕ
  pub mie : ℕ
  pub mtvec : ℕ
  pub mcounteren : ℕ
  pub mcountinhibit : ℕ
  pub mscratch : ℕ
  pub mepc : ℕ
  pub mcause : ℕ
  pub mtval : ℕ
  pub mip : ℕ
  pub pmpaddr : List ℕ
  pub pmpcfg : List ℕ
  pub sedeleg : ℕ
  pub sideleg : ℕ
  pub stvec : ℕ
  pub scounteren : ℕ
  pub sscratch : ℕ
  pub sepc : ℕ
  pub scause : ℕ
  pub stval : ℕ
  pub satp : ℕ
  pub utvec : ℕ
  pub uscratch : ℕ
  pub uepc : ℕ
  pub ucause : ℕ
  pub utval : ℕ
  pub fcsr : ℕ

-- `csr_misa::init`: RV32 with the extensions A, C, F, I, M, N, S and U.
abbrev pub init_misa : ℕ
init_misa = 2 ^ 30 + 2 ^ 20 + 2 ^ 18 + 2 ^ 13 + 2 ^ 12 + 2 ^ 8 + 2 ^ 5 + 2 ^ 2 + 1

zeros : ℕ → List ℕ
zeros zero = []
zeros (suc n) = 0 ∷ zeros n

-- A new `csr_table`.
unfoldable pub csr_table : CsrTable
unfolding zeros
csr_table = record {
  cycle = 0;
  time = 0;
  instret = 0;
  mvendorid = 0;
  marchid = 0;
  mimpid = 0;
  mhartid = 0;
  mstatus = 0;
  misa = init_misa;
  medeleg = 0;
  mideleg = 0;
  mie = 0;
  mtvec = 0;
  mcounteren = 0;
  mcountinhibit = 0;
  mscratch = 0;
  mepc = 0;
  mcause = 0;
  mtval = 0;
  mip = 0;
  sedeleg = 0;
  sideleg = 0;
  stvec = 0;
  scounteren = 0;
  sscratch = 0;
  sepc = 0;
  scause = 0;
  stval = 0;
  satp = 0;
  utvec = 0;
  uscratch = 0;
  uepc = 0;
  ucause = 0;
  utval = 0;
  fcsr = 0;
  pmpaddr = zeros 16;
  pmpcfg = zeros 4;
}

-- What an entry of `register_mapping` points to.
pub data Register : Type 0 where
  cycle_low cycle_high time_low time_high instret_low instret_high : Register
  mvendorid_reg marchid_reg mimpid_reg mhartid_reg mstatus_reg misa_reg medeleg_reg mideleg_reg
        mie_reg mtvec_reg mcounteren_reg mcountinhibit_reg mscratch_reg mepc_reg mcause_reg
        mtval_reg mip_reg sedeleg_reg sideleg_reg stvec_reg scounteren_reg sscratch_reg sepc_reg
        scause_reg stval_reg satp_reg utvec_reg uscratch_reg uepc_reg ucause_reg utval_reg
        fcsr_reg :
      Register
  pmpaddr_reg pmpcfg_reg : ℕ → Register

-- The registers below 0x300: user and supervisor level.
low_mapping : ℕ → Option Register
low_mapping addr =
    if addr == 0x5
    then some utvec_reg
    else if addr == 0x40
    then some uscratch_reg
    else if addr == 0x41
    then some uepc_reg
    else if addr == 0x42
    then some ucause_reg
    else if addr == 0x43
    then some utval_reg
    else if addr == 0x102
    then some sedeleg_reg
    else if addr == 0x103
    then some sideleg_reg
    else if addr == 0x105
    then some stvec_reg
    else if addr == 0x106
    then some scounteren_reg
    else if addr == 0x140
    then some sscratch_reg
    else if addr == 0x141
    then some sepc_reg
    else if addr == 0x142
    then some scause_reg
    else if addr == 0x143
    then some stval_reg
    else if addr == 0x180
    then some satp_reg
    else if addr == 0x3
    then some fcsr_reg
    else none

-- The machine level registers, the protection registers among them.
machine_mapping : ℕ → Option Register
machine_mapping addr =
    if addr == 0xf11
    then some mvendorid_reg
    else if addr == 0xf12
    then some marchid_reg
    else if addr == 0xf13
    then some mimpid_reg
    else if addr == 0xf14
    then some mhartid_reg
    else if addr == 0x300
    then some mstatus_reg
    else if addr == 0x301
    then some misa_reg
    else if addr == 0x302
    then some medeleg_reg
    else if addr == 0x303
    then some mideleg_reg
    else if addr == 0x304
    then some mie_reg
    else if addr == 0x305
    then some mtvec_reg
    else if addr == 0x306
    then some mcounteren_reg
    else if addr == 0x320
    then some mcountinhibit_reg
    else if addr == 0x340
    then some mscratch_reg
    else if addr == 0x341
    then some mepc_reg
    else if addr == 0x342
    then some mcause_reg
    else if addr == 0x343
    then some mtval_reg
    else if addr == 0x344
    then some mip_reg
    else if leb 0x3b0 addr && ltb addr 0x3c0
    then some (pmpaddr_reg (addr - 0x3b0))
    else if leb 0x3a0 addr && ltb addr 0x3a4
    then some (pmpcfg_reg (addr - 0x3a0))
    else none

-- The counters and their machine level shadows.
counter_mapping : ℕ → Option Register
counter_mapping addr =
    if addr == 0xc00
    then some cycle_low
    else if addr == 0xc80
    then some cycle_high
    else if addr == 0xc01
    then some time_low
    else if addr == 0xc81
    then some time_high
    else if addr == 0xc02
    then some instret_low
    else if addr == 0xc82
    then some instret_high
    else if addr == 0xb00
    then some cycle_low
    else if addr == 0xb80
    then some cycle_high
    else if addr == 0xb01
    then some time_low
    else if addr == 0xb81
    then some time_high
    else if addr == 0xb02
    then some instret_low
    else if addr == 0xb82
    then some instret_high
    else none

-- `register_mapping.find`, as the constructor `csr_table()` fills the map.
unfoldable pub register_mapping : ℕ → Option Register
unfolding low_mapping machine_mapping counter_mapping
register_mapping addr = elim (counter_mapping addr) [
  | some r ↦ some r
  | none ↦ elim (machine_mapping addr) [ some r ↦ some r | none ↦ low_mapping addr ]
]

abbrev pub low_half : ℕ → ℕ
low_half n = n % 2 ^ 32

abbrev pub high_half : ℕ → ℕ
high_half n = n / 2 ^ 32

abbrev set_low : ℕ → ℕ → ℕ
set_low n v = n / 2 ^ 32 * 2 ^ 32 + v

abbrev set_high : ℕ → ℕ → ℕ
set_high n v = v * 2 ^ 32 + n % 2 ^ 32

unfoldable pub read_register : CsrTable → Register → ℕ
read_register c cycle_low = low_half c.cycle
read_register c cycle_high = high_half c.cycle
read_register c time_low = low_half c.time
read_register c time_high = high_half c.time
read_register c instret_low = low_half c.instret
read_register c instret_high = high_half c.instret
read_register c (pmpaddr_reg i) = get_or c.pmpaddr i 0
read_register c (pmpcfg_reg i) = get_or c.pmpcfg i 0
read_register c mvendorid_reg = c.mvendorid
read_register c marchid_reg = c.marchid
read_register c mimpid_reg = c.mimpid
read_register c mhartid_reg = c.mhartid
read_register c mstatus_reg = c.mstatus
read_register c misa_reg = c.misa
read_register c medeleg_reg = c.medeleg
read_register c mideleg_reg = c.mideleg
read_register c mie_reg = c.mie
read_register c mtvec_reg = c.mtvec
read_register c mcounteren_reg = c.mcounteren
read_register c mcountinhibit_reg = c.mcountinhibit
read_register c mscratch_reg = c.mscratch
read_register c mepc_reg = c.mepc
read_register c mcause_reg = c.mcause
read_register c mtval_reg = c.mtval
read_register c mip_reg = c.mip
read_register c sedeleg_reg = c.sedeleg
read_register c sideleg_reg = c.sideleg
read_register c stvec_reg = c.stvec
read_register c scounteren_reg = c.scounteren
read_register c sscratch_reg = c.sscratch
read_register c sepc_reg = c.sepc
read_register c scause_reg = c.scause
read_register c stval_reg = c.stval
read_register c satp_reg = c.satp
read_register c utvec_reg = c.utvec
read_register c uscratch_reg = c.uscratch
read_register c uepc_reg = c.uepc
read_register c ucause_reg = c.ucause
read_register c utval_reg = c.utval
read_register c fcsr_reg = c.fcsr

unfoldable pub write_register : CsrTable → Register → ℕ → CsrTable
write_register c cycle_low v = record c { cycle = set_low c.cycle v }
write_register c cycle_high v = record c { cycle = set_high c.cycle v }
write_register c time_low v = record c { time = set_low c.time v }
write_register c time_high v = record c { time = set_high c.time v }
write_register c instret_low v = record c { instret = set_low c.instret v }
write_register c instret_high v = record c { instret = set_high c.instret v }
write_register c (pmpaddr_reg i) v = record c { pmpaddr = set c.pmpaddr i v }
write_register c (pmpcfg_reg i) v = record c { pmpcfg = set c.pmpcfg i v }
write_register c mvendorid_reg v = record c { mvendorid = v }
write_register c marchid_reg v = record c { marchid = v }
write_register c mimpid_reg v = record c { mimpid = v }
write_register c mhartid_reg v = record c { mhartid = v }
write_register c mstatus_reg v = record c { mstatus = v }
write_register c misa_reg v = record c { misa = v }
write_register c medeleg_reg v = record c { medeleg = v }
write_register c mideleg_reg v = record c { mideleg = v }
write_register c mie_reg v = record c { mie = v }
write_register c mtvec_reg v = record c { mtvec = v }
write_register c mcounteren_reg v = record c { mcounteren = v }
write_register c mcountinhibit_reg v = record c { mcountinhibit = v }
write_register c mscratch_reg v = record c { mscratch = v }
write_register c mepc_reg v = record c { mepc = v }
write_register c mcause_reg v = record c { mcause = v }
write_register c mtval_reg v = record c { mtval = v }
write_register c mip_reg v = record c { mip = v }
write_register c sedeleg_reg v = record c { sedeleg = v }
write_register c sideleg_reg v = record c { sideleg = v }
write_register c stvec_reg v = record c { stvec = v }
write_register c scounteren_reg v = record c { scounteren = v }
write_register c sscratch_reg v = record c { sscratch = v }
write_register c sepc_reg v = record c { sepc = v }
write_register c scause_reg v = record c { scause = v }
write_register c stval_reg v = record c { stval = v }
write_register c satp_reg v = record c { satp = v }
write_register c utvec_reg v = record c { utvec = v }
write_register c uscratch_reg v = record c { uscratch = v }
write_register c uepc_reg v = record c { uepc = v }
write_register c ucause_reg v = record c { ucause = v }
write_register c utval_reg v = record c { utval = v }
write_register c fcsr_reg v = record c { fcsr = v }

-- `is_valid_csr32_addr`.
unfoldable pub is_valid_csr32_addr : ℕ → Bool
is_valid_csr32_addr addr = elim (register_mapping addr) [ none ↦ false | some r ↦ true ]

-- `default_read32` and `default_write32`; `none` is the failed `ensure`.
unfoldable pub default_read32 : CsrTable → ℕ → Option ℕ
default_read32 c addr = elim (register_mapping addr) [
  | none ↦ none
  | some r ↦ some (read_register c r)
]

unfoldable pub default_write32 : CsrTable → ℕ → ℕ → Option CsrTable
default_write32 c addr v = elim (register_mapping addr) [
  | none ↦ none
  | some r ↦ some (write_register c r v)
]
