-- ===== src/Domain/Health.antt =====
-- internal/domain/company_health_*.go: the facts of a company's health.
pub mod Fields
pub mod Facts
