-- ===== src/Domain.antt =====
-- internal/domain: the job record, its metadata and the merging of jobs.
pub mod Summary
pub mod Job
pub mod Unique
pub mod Metadata
pub mod Website
pub mod Merge
pub mod Health
pub mod Criteria
pub mod Location
pub mod RoleFamily
pub mod Titles
