-- ===== src/Rv32/Exec.antt =====
-- The execution of instructions in vp/src/core/rv32/iss.cpp.
pub mod Alu
pub mod Isa
pub mod Control
pub mod Branches
pub mod Operation
pub mod Operand
pub mod Computes
