-- ===== src/Rv32/Exc.antt =====
-- `ExceptionCode` of vp/src/core/common/trap.h: the exceptions that the simulator raises itself.
use coverage_vp.Base.{ℕ}

abbrev pub illegal_instr : ℕ
illegal_instr = 2

abbrev pub instr_addr_misaligned : ℕ
instr_addr_misaligned = 0

abbrev pub load_addr_misaligned : ℕ
load_addr_misaligned = 4

abbrev pub store_amo_addr_misaligned : ℕ
store_amo_addr_misaligned = 6

abbrev pub ecall_u_mode : ℕ
ecall_u_mode = 8

abbrev pub ecall_s_mode : ℕ
ecall_s_mode = 9

abbrev pub ecall_m_mode : ℕ
ecall_m_mode = 11

abbrev pub instr_page_fault : ℕ
instr_page_fault = 12

abbrev pub load_page_fault : ℕ
load_page_fault = 13

abbrev pub store_amo_page_fault : ℕ
store_amo_page_fault = 15
