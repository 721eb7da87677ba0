-- ===== src/Runtime/Stores.antt =====
-- internal/runtime/memory_stores.go: the stores that live in memory. A store is its map; the
-- mutex makes each operation one step. Instants are numbers, and 0 is the zero `time.Time`.
pub mod Candidates
pub mod Health
pub mod Identity
pub mod Interface
use jobscout.Prelude.{ℕ, Bool, eqb}

abbrev pub Time : Type 0
Time = ℕ

-- t.IsZero()
abbrev pub is_zero_time : Time → Bool
is_zero_time t = eqb t 0
