-- ===== src/Clover.antt =====
-- symex/clover: the concolic execution engine, as it is bundled and modified here.
pub mod Klee
pub mod Expr
pub mod Value
pub mod Memory
pub mod Buffer
pub mod Context
pub mod Branch
pub mod Trace
