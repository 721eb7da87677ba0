-- ===== src/Runtime.antt =====
-- internal/runtime: the command line and the stores in memory.
pub mod Args
pub mod Stores
