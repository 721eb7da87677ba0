-- ===== src/Fetcher/CandidateCache.antt =====
-- internal/fetcher/candidate_cache.go: the decisions that are kept from one fetch to the next, on the
-- memory store of candidates. `urls` is the URL package, and `now` the reading of the clock.
pub mod Recorded
pub mod Decided
pub mod Replayed
use jobscout.Prelude.{
  ℕ, ◌*◌, ltb, ◌≡◌, Bool, true, false, not, ◌&&◌, ◌||◌, List, [], ◌∷◌, ◌++◌, Option, none, some,
  is_empty, map, if◌then◌else◌,
}
use jobscout.Text.{Text, codes, ◌==◌, trim_space, to_lower, has_prefix, trim_prefix}
use jobscout.Text.Dict.{Dict, text_Eq, get}
use jobscout.Domain.Job.{Job, is_blank}
use jobscout.Domain.Unique.{seen_in}
use jobscout.Domain.Merge.{merge_fields}
use jobscout.Runtime.Stores.{Time}
use jobscout.Runtime.Stores.Candidates.{
  JobCandidate, JobCandidateDecisionKey, JobCandidateDecision, CandidateStore,
  upsert_job_candidates, get_job_candidate, upsert_decisions_from, get_job_candidate_decision,
}
use jobscout.Fetcher.Urls.{UrlPackage, site_parse}
use jobscout.Fetcher.JobKey.{fetched_job_dedupe_key}
use jobscout.Fetcher.Visits.Key.{canonical_url_visit_key}
use jobscout.Fetcher.Review.{FetchSummary, append_entries}

abbrev pub accepted : Text
accepted = codes "accepted"

abbrev pub rejected : Text
rejected = codes "rejected"

-- a time that is not set
abbrev pub no_time : Time
no_time = 0

-- A decision key but for the candidate's key.
abbrev pub Signature : Type 0
Signature = JobCandidateDecisionKey

abbrev pub for_candidate : Text → Signature → JobCandidateDecisionKey
for_candidate key signature = record signature { candidate_key = key }

unfoldable pub deterministic_candidate_decision_key : Text → Signature
deterministic_candidate_decision_key criteria_hash = record {
  candidate_key = [];
  criteria_hash = criteria_hash;
  stage = codes "deterministic";
  decision_version = codes "deterministic:v1";
  llm_provider = [];
  llm_model = [];
}

unfoldable pub llm_filtering_decision_key : Text → Text → Text → Signature
llm_filtering_decision_key criteria_hash provider model = record {
  candidate_key = [];
  criteria_hash = criteria_hash;
  stage = codes "llm_job_filtering";
  decision_version = codes "llm_job_filtering:v1";
  llm_provider = provider;
  llm_model = model;
}

module _ (urls : UrlPackage) where
  abbrev pub candidate_key : Job → Text
  candidate_key job = trim_space (fetched_job_dedupe_key urls job)

  -- the candidate with this key
  abbrev pub keyed_candidate : Text → Job → Time → Bool → Option JobCandidate
  keyed_candidate key job now active =
      let canonical =
        if has_prefix key (codes "url:")
        then trim_prefix key (codes "url:")
        else if is_blank job.apply_url
        then []
        else canonical_url_visit_key urls job.apply_url in
      if is_empty key
      then none
      else some (record {
        key = key;
        source = trim_space job.source;
        source_key = key;
        apply_url = trim_space job.apply_url;
        canonical_apply_url = canonical;
        company = trim_space job.company;
        title = trim_space job.title;
        job = job;
        active = active;
        first_seen = now;
        last_seen = now;
      })

  unfoldable pub job_candidate_from_job : Job → Time → Bool → Option JobCandidate
  job_candidate_from_job job now active = keyed_candidate (candidate_key job) job now active

  abbrev pub add_candidate : Option JobCandidate → List JobCandidate → List JobCandidate
  add_candidate none cs = cs
  add_candidate (some c) cs = c ∷ cs

  abbrev pub candidates_of : Time → Bool → List Job → List JobCandidate
  candidates_of now active [] = []
  candidates_of now active (job ∷ jobs) =
      add_candidate (job_candidate_from_job job now active) (candidates_of now active jobs)

  -- upsertJobCandidatesWithActive; `none` is a nil store
  unfoldable pub upsert_with_active :
      (ℕ → Time) → Time → List Job → Bool → Option CandidateStore → Option CandidateStore
  upsert_with_active clock now jobs active none = none
  upsert_with_active clock now jobs active (some s) =
      let candidates = candidates_of now active jobs in
      some (if is_empty candidates then s else upsert_job_candidates clock candidates s)

  unfoldable pub record_accepted :
      (ℕ → Time) → Time → List Job → Option CandidateStore → Option CandidateStore
  record_accepted clock now jobs s = upsert_with_active clock now jobs true s

  unfoldable pub record_inactive :
      (ℕ → Time) → Time → List Job → Option CandidateStore → Option CandidateStore
  record_inactive clock now jobs s = upsert_with_active clock now jobs false s

  abbrev hydrated : Option JobCandidate → Job → Job
  hydrated none job = job
  hydrated (some c) job = merge_fields (site_parse urls) job c.job

  -- hydrateJobsFromCandidateCache
  unfoldable pub hydrate_jobs : Option CandidateStore → List Job → List Job
  hydrate_jobs none jobs = jobs
  hydrate_jobs (some s) jobs =
      map
        (λ job.
          if is_empty (candidate_key job)
          then job
          else hydrated (get_job_candidate (candidate_key job) s) job)
        jobs

  abbrev pub is_rejected : Option JobCandidateDecision → Bool
  is_rejected none = false
  is_rejected (some d) = d.decision == rejected

  -- the job with the reason of a decision that rejects it
  abbrev pub with_reason : Option JobCandidateDecision → Job → Job
  with_reason none job = job
  with_reason (some d) job = if is_blank d.reason then job else record job {
    why_matches = job.why_matches ++ (codes "Cached rejection: " ++ d.reason) ∷ [];
  }

  -- the decision that the loop of filterCachedRejectedJobs looks up
  abbrev pub cached_decision : Time → Signature → CandidateStore → Job → Option JobCandidateDecision
  cached_decision now signature s job =
      if is_empty (candidate_key job)
      then none
      else get_job_candidate_decision now (for_candidate (candidate_key job) signature) s

  unfoldable pub filter_from : Time → Signature → CandidateStore → List Job → List Job × List Job
  filter_from now signature s [] = ([], [])
  filter_from now signature s (job ∷ jobs) =
      let (kept, dropped) = filter_from now signature s jobs in
      let decision = cached_decision now signature s job in
      if is_rejected decision
      then (kept, with_reason decision job ∷ dropped)
      else (job ∷ kept, dropped)

  -- filterCachedRejectedJobs
  unfoldable pub filter_cached_rejected_jobs :
      Time → Signature → Option CandidateStore → List Job → List Job × List Job
  filter_cached_rejected_jobs now signature none jobs = (jobs, [])
  filter_cached_rejected_jobs now signature (some s) jobs = filter_from now signature s jobs

  -- what applyCachedDeterministicRejects and ApplyCachedLLMFilterDecisions do with the result
  unfoldable pub apply_cached :
      Text
      → Time
      → Signature
      → Option CandidateStore
      → List Job
      → FetchSummary
      → List Job × FetchSummary
  apply_cached reason now signature s jobs summary =
      let (kept, dropped) = filter_cached_rejected_jobs now signature s jobs in
      if is_empty dropped
      then (jobs, summary)
      else (kept, record summary { filtered = append_entries reason dropped summary.filtered })
