-- ===== src/Rv32/Step.antt =====
-- One step of the simulator: vp/src/core/rv32/{iss.h,iss.cpp,mem_if.h,mem.h}.
pub mod Machine
pub mod Operands
pub mod Data
pub mod System
pub mod Execute
pub mod Run
pub mod Kept
pub mod Frame
pub mod Finished
pub mod Trapped
pub mod Precise
pub mod Exits
pub mod Accesses
pub mod CsrAccesses
