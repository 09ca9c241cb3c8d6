-- ===== src/Rv32.antt =====
-- vp/src/core/rv32: the instruction set simulator of a RISC-V hart.
pub mod Word
pub mod Csr
pub mod Exc
pub mod Hart
pub mod Trap
pub mod Access
pub mod Instr
pub mod Decode
pub mod RegFile
pub mod Exec
pub mod Compressed
pub mod Step
pub mod Mmu
