-- ===== src/Examples/FetcherRuns.antt =====
-- Duplicates and limits of a fetch.
use jobscout.Prelude.{
  ℕ, ◌≡◌, refl, not, List, [], ◌∷◌, ◌++◌, map, Option, some, length, min, eqb, if◌then◌else◌,
}
use jobscout.Text.{
  Text, codes, ◌==◌, lower, to_lower, trim_space, has_prefix, trim_prefix, contains, split,
  trim_char, equal_fold,
}
use jobscout.Text.Dict.{get, put, delete}
use jobscout.Domain.Job.{Job, zero_job}
use jobscout.Domain.Merge.{job_merge_key, merge_fields}
use jobscout.Fetcher.Urls.{UrlPackage, site_parse}
use jobscout.Fetcher.JobKey.{
  is_builtin_host, is_linkedin_host, trailing_numeric_suffix, fetched_job_dedupe_key,
  builtin_job_dedupe_key, linkedin_job_dedupe_key, canonical_apply_url_dedupe_key,
}
use jobscout.Fetcher.Dedupe.{dedupe_fetched_jobs, skip_existing_fetched_jobs}
use jobscout.Fetcher.Dedupe.Reference.{left, absorbed, dedupe_fetched_jobs-eq-reference}
use jobscout.Fetcher.Dedupe.Reference.Once.{
  Once, job_keys, firsts, repeated, dedupe_fetched_jobs-Once,
}
use jobscout.Fetcher.Dedupe.Existing.{select, known, skip_existing-eq-select}
use jobscout.Fetcher.Review.{FetchSummary}
use jobscout.Fetcher.Policy.{
  site_candidate_limit_key, take_count, take_count_if_any, new_site_candidate_limiter,
  cap_accepted_fetched_jobs,
}
use jobscout.Fetcher.Policy.Limiter.{
  offered, passed, passed-new_site_candidate_limiter, IsCapped, cap_accepted_fetched_jobs-IsCapped,
}
use jobscout.Examples.{acme, acme_again, globex}

-- An URL is a host with a path, and its scheme is https.
abbrev pub plain_urls : UrlPackage
plain_urls = record {
  Url = Text × Text;
  parse = parse;
  scheme = λ u. codes "https";
  host = λ u. u.0;
  hostname = λ u. u.0;
  path = λ u. u.1;
  escaped_path = λ u. u.1;
  set_scheme = λ s u. u;
  set_host = λ h u. (h, u.1);
  set_path = λ p u. (u.0, p);
  clear_fragment = λ u. u;
  query = λ u. [];
  set_raw_query = λ q u. u;
  query_escape = λ s. s;
  to_string = λ u. codes "https://" ++ (u.0 ++ u.1);
}
  where
    before_slash : Text → Text × Text
    before_slash [] = ([], [])
    before_slash (c ∷ s) =
        let (host, path) = before_slash s in if eqb c b'/' then ([], c ∷ s) else (c ∷ host, path)

    parse : Text → Option (Text × Text)
    parse raw = some (before_slash (trim_prefix raw (codes "https://")))

-- Two postings of one job on LinkedIn, and one without an URL.
abbrev linked : Job
linked = record acme {
  apply_url = codes "https://www.linkedin.com/jobs/view/engineer-at-acme-123456";
}

abbrev linked_again : Job
linked_again = record globex { apply_url = codes "https://linkedin.com/jobs/view/123456/" }

abbrev jobs : List Job
jobs = linked ∷ linked_again ∷ acme_again ∷ zero_job ∷ zero_job ∷ []

-- The second is a duplicate of the first; the two without a key both stay.
linkedin_key : linkedin_job_dedupe_key plain_urls linked_again.apply_url ≡ codes "linkedin:123456"
unfolding linkedin_job_dedupe_key trim_space lower to_lower ◌==◌ trim_prefix has_prefix
    is_linkedin_host split trim_char equal_fold trailing_numeric_suffix
linkedin_key = refl

counts :
    (length (dedupe_fetched_jobs plain_urls jobs).0 ≡ 4)
    × (map (λ j. j.title) (dedupe_fetched_jobs plain_urls jobs).1 ≡ codes "Analyst" ∷ [])
unfolding dedupe_fetched_jobs fetched_job_dedupe_key linkedin_job_dedupe_key trim_space lower
    to_lower ◌==◌ trim_prefix has_prefix get put delete builtin_job_dedupe_key is_builtin_host
    contains is_linkedin_host split trim_char equal_fold trailing_numeric_suffix
    canonical_apply_url_dedupe_key job_merge_key
counts = (refl, refl)

dedupe_fetched_jobs-eq-reference_example :
    dedupe_fetched_jobs plain_urls jobs ≡ (left plain_urls [] jobs, absorbed plain_urls [] jobs)
dedupe_fetched_jobs-eq-reference_example = dedupe_fetched_jobs-eq-reference plain_urls jobs

abbrev company_and_title : Job → Text × Text
company_and_title j = (j.company, j.title)

company_and_title-merge_fields :
    (e job : Job)
    → company_and_title (merge_fields (site_parse plain_urls) e job) ≡ company_and_title e
unfolding merge_fields
company_and_title-merge_fields e job = refl

dedupe_fetched_jobs-Once_example :
    Once [] (job_keys plain_urls (dedupe_fetched_jobs plain_urls jobs).0)
    × (((dedupe_fetched_jobs plain_urls jobs).1 ≡ repeated plain_urls [] jobs)
        × (map company_and_title (dedupe_fetched_jobs plain_urls jobs).0
            ≡ map company_and_title (firsts plain_urls [] jobs)))
dedupe_fetched_jobs-Once_example =
    dedupe_fetched_jobs-Once plain_urls jobs company_and_title company_and_title-merge_fields

skip_existing-eq-select_example : skip_existing_fetched_jobs plain_urls jobs (linked_again ∷ []) ≡ (
  select (λ j. not (known plain_urls (linked_again ∷ []) j)) jobs,
  select (known plain_urls (linked_again ∷ [])) jobs,
)
skip_existing-eq-select_example = skip_existing-eq-select plain_urls jobs (linked_again ∷ [])

abbrev requests : List (Text × ℕ)
requests = (codes "Indeed", 2) ∷ (codes "rss", 5) ∷ (codes " indeed", 4) ∷ []

-- Of the six candidates of Indeed three pass.
indeed_count : passed (codes "indeed") (new_site_candidate_limiter 3) requests ≡ 3
unfolding passed take_count_if_any take_count new_site_candidate_limiter site_candidate_limit_key
    trim_space lower to_lower ◌==◌ get put delete
indeed_count = refl

passed-new_site_candidate_limiter_example :
    passed (codes "indeed") (new_site_candidate_limiter 3) requests ≡ (
      if eqb 3 0
      then offered (codes "indeed") requests
      else min (offered (codes "indeed") requests) 3)
passed-new_site_candidate_limiter_example =
    passed-new_site_candidate_limiter 3 (codes "indeed") requests

abbrev pub no_summary : FetchSummary
no_summary = record {
  notices = [];
  rejected = [];
  filtered = [];
  llm_filter_bypass = [];
  searches = [];
}

cap_accepted_fetched_jobs-IsCapped_example :
    IsCapped jobs 2 no_summary
      (cap_accepted_fetched_jobs jobs 2 no_summary).0
      (cap_accepted_fetched_jobs jobs 2 no_summary).1
cap_accepted_fetched_jobs-IsCapped_example = cap_accepted_fetched_jobs-IsCapped jobs 2 no_summary
