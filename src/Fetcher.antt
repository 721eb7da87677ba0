-- ===== src/Fetcher.antt =====
-- internal/fetcher: which fetched jobs are the same, and how many may pass.
pub mod CandidateCache
pub mod Dedupe
pub mod JobKey
pub mod Policy
pub mod Review
pub mod Urls
pub mod Validation
pub mod Visits
