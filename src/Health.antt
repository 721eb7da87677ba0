-- ===== src/Health.antt =====
-- internal/health: what a cached result of a company's health is worth.
pub mod Cache
