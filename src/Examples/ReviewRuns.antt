-- ===== src/Examples/ReviewRuns.antt =====
-- The review of a fetch, and the decisions that are kept from it.
use jobscout.Prelude.{
  ◌+◌, ◌≡◌, refl, false, List, [], ◌∷◌, some, length, is_empty, none, ℕ, Option, eqb, if◌then◌else◌,
}
use jobscout.Prelude.Sorting.{select}
use jobscout.Fetcher.JobKey.{is_indeed_host, is_builtin_host, is_linkedin_host}
use jobscout.Text.{
  Text, trim_prefix, ◌==◌, to_lower, lower, has_suffix, contains, trim_right_char, codes,
  trim_space,
}
use jobscout.Text.Dict.{get, text_Eq}
use jobscout.Domain.Merge.{merge_jobs}
use jobscout.Domain.Job.{Job}
use jobscout.Runtime.Stores.Candidates.{CandidateStore}
use jobscout.Fetcher.Validation.{
  Method, validate_fetched_jobs, validate_from, verdict_on, unusable_job_reason,
  unusable_job_url_reason, uses_reserved_placeholder_domain, is_indeed_pagead_click_url,
  is_known_non_job_apply_url, is_llm_generated_job, validate_job_url,
}
use jobscout.Fetcher.Validation.Split.{passing, refused, validate_fetched_jobs-IsSplit}
use jobscout.Fetcher.Review.{entries_of, new_review_session, plan_job_merge, merge_into}
use jobscout.Fetcher.Review.Plan.{accept_review}
use jobscout.Fetcher.CandidateCache.{filter_cached_rejected_jobs, llm_filtering_decision_key}
use jobscout.Fetcher.CandidateCache.Recorded.{record_llm_filter, keys_of}
use jobscout.Fetcher.CandidateCache.Replayed.{was_kept, filter_cached-record_llm_filter}
use jobscout.Examples.{acme, acme_again, globex, host_only}
use jobscout.Examples.FetcherRuns.{plain_urls, no_summary}
use jobscout.Examples.TaskRuns.{clock}

abbrev fetched_jobs : List Job
fetched_jobs = acme_again ∷ globex ∷ globex ∷ []

accept_review_example :
    ((merge_jobs host_only
          (acme ∷ [])
          (new_review_session (acme ∷ []) fetched_jobs no_summary).added_jobs
        ≡ (
          (new_review_session (acme ∷ []) fetched_jobs no_summary).added,
          acme ∷ (new_review_session (acme ∷ []) fetched_jobs no_summary).added_jobs,
        ))
      × (merge_into (some (new_review_session (acme ∷ []) fetched_jobs no_summary)) (acme ∷ []) ≡ (
        acme ∷ (new_review_session (acme ∷ []) fetched_jobs no_summary).added_jobs,
        (new_review_session (acme ∷ []) fetched_jobs no_summary).added_jobs,
      )))
    × ((new_review_session (acme ∷ []) fetched_jobs no_summary).added
          + length (plan_job_merge (acme ∷ []) fetched_jobs).duplicate_jobs
        ≡ (new_review_session (acme ∷ []) fetched_jobs no_summary).fetched)
accept_review_example = accept_review host_only (acme ∷ []) fetched_jobs no_summary

hash_is_filled : is_empty (trim_space (codes "c0ffee")) ≡ false
unfolding trim_space
hash_is_filled = refl

abbrev no_candidates : CandidateStore
no_candidates = record { candidates = []; decisions = [] }

filter_cached-record_llm_filter_example :
    (filter_cached_rejected_jobs plain_urls 900
      (llm_filtering_decision_key (codes "c0ffee") (codes "OpenAI") (codes "small"))
      (record_llm_filter plain_urls clock 100
        (some (llm_filtering_decision_key (codes "c0ffee") (codes "OpenAI") (codes "small")))
        (acme ∷ globex ∷ [])
        (globex ∷ [])
        []
        (some no_candidates))
      (acme ∷ globex ∷ [])).0
    ≡ select
        (was_kept plain_urls
          (codes "c0ffee")
          (codes "OpenAI")
          (codes "small")
          hash_is_filled
          (keys_of plain_urls (globex ∷ [])))
        (acme ∷ globex ∷ [])
filter_cached-record_llm_filter_example =
    filter_cached-record_llm_filter plain_urls (codes "c0ffee") (codes "OpenAI") (codes "small")
      hash_is_filled clock 900 100 (acme ∷ globex ∷ []) (globex ∷ []) no_candidates

-- The second job's posting is gone, and the others are not reached.
abbrev second_gone : ℕ → Method → Text → Option ℕ
second_gone i method url = if eqb i 1 then some 404 else none

abbrev with_url : Job → Job
with_url job = record job { apply_url = codes "https://boards.greenhouse.io/acme/jobs/1" }

abbrev to_validate : List Job
to_validate = with_url acme ∷ with_url globex ∷ acme_again ∷ []

validate_fetched_jobs-IsSplit_example :
    ((validate_fetched_jobs plain_urls second_gone to_validate).0
      ≡ passing plain_urls second_gone 0 to_validate)
    × ((r : Text)
        → entries_of (get r (validate_fetched_jobs plain_urls second_gone to_validate).1)
          ≡ refused plain_urls second_gone r 0 to_validate)
validate_fetched_jobs-IsSplit_example =
    validate_fetched_jobs-IsSplit plain_urls second_gone to_validate

-- the first is kept
validated : (validate_fetched_jobs plain_urls second_gone to_validate).0 ≡ with_url acme ∷ []
unfolding validate_fetched_jobs validate_from verdict_on unusable_job_reason trim_space
    unusable_job_url_reason uses_reserved_placeholder_domain trim_prefix ◌==◌ to_lower lower
    has_suffix is_indeed_pagead_click_url is_indeed_host is_known_non_job_apply_url contains
    trim_right_char is_builtin_host is_linkedin_host is_llm_generated_job validate_job_url
validated = refl
