-- ===== src/Rv32/Compressed.antt =====
-- The compressed instructions of vp/src/core/common/{instr.h,instr.cpp}: how they are decoded and
-- expanded to 32-bit instructions.
pub mod Fields
pub mod Offset
pub mod Factory
pub mod Decode
pub mod Expand
pub mod Words
pub mod Expanded
pub mod Agreement
