-- ===== src/Tuiapp.antt =====
-- internal/tuiapp: the table of jobs in the terminal.
pub mod Table
pub mod Channel
pub mod Tasks
pub mod Edits
