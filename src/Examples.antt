-- ===== src/Examples.antt =====
-- Concrete instances of the libraries that vp/src/symex/clover is built on, and runs of the model.
pub mod OneBit
pub mod Folding
mod Engine
mod Harts
mod Decoder
mod Executed
mod Stepped
mod Expanded
mod Mapped
mod Inputs
