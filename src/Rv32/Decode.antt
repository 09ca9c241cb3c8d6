-- ===== src/Rv32/Decode.antt =====
-- The decoder of vp/src/core/common/instr.cpp.
pub mod Match
pub mod Integer
pub mod Wide
pub mod System
pub mod Float
pub mod Normal
pub mod Fits
pub mod Covered
pub mod Cases
pub mod Complete
pub mod Decoded
