-- ===== src/Rv32/Mmu.antt =====
-- The memory management unit of the simulator: vp/src/core/common/mmu.h.
pub mod Walk
pub mod Translate
pub mod Remembered
pub mod Permission
pub mod Address
pub mod Found
pub mod Bounded
pub mod Page
