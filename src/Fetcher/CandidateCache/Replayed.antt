-- ===== src/Fetcher/CandidateCache/Replayed.antt =====
-- What the filter by the LLM decided in one fetch is what the cache decides in the next.
use jobscout.Prelude.{
  ℕ, ◌≡◌, refl, inl, inr, Bool, true, false, not, ◌||◌, List, [], ◌∷◌, some, arith, is_empty, map,
  All, Bool-cases,
}
use jobscout.Prelude.Sorting.{select}
use jobscout.Text.{Text, trim_space}
use jobscout.Text.Equality.{eq_refl}
use jobscout.Text.Trim.{trim_space_idem}
use jobscout.Domain.Job.{Job}
use jobscout.Domain.Unique.{seen_in}
use jobscout.Runtime.Stores.{Time}
use jobscout.Runtime.Stores.Candidates.{
  JobCandidateDecision, CandidateStore, upsert_job_candidates, upsert_decisions_from,
}
use jobscout.Fetcher.Urls.{UrlPackage}
use jobscout.Fetcher.JobKey.{fetched_job_dedupe_key}
use jobscout.Fetcher.CandidateCache.{
  Signature, llm_filtering_decision_key, candidate_key, candidates_of, is_rejected, cached_decision,
  filter_from, filter_cached_rejected_jobs,
}
use jobscout.Fetcher.CandidateCache.Recorded.{
  upsert_candidate_decisions, keys_of, llm_decisions, record_llm_filter,
}
use jobscout.Fetcher.CandidateCache.Decided.{is_rejected-llm_decisions}

module _ (urls : UrlPackage) (hash provider model : Text)
    (filled : is_empty (trim_space hash) ≡ false) where
  abbrev sig : Signature
  sig = llm_filtering_decision_key hash provider model

  -- a job that was accepted, or that has no key
  abbrev pub was_kept : List Text → Job → Bool
  was_kept after job = is_empty (candidate_key urls job) || seen_in (candidate_key urls job) after

  is_rejected-cached_decision :
      (clock : ℕ → Time) (later now : Time) (after : List Text) (before : List Job)
      (s : CandidateStore) (job : Job)
      → seen_in (candidate_key urls job) (keys_of urls before) ≡ true
      → is_rejected urls (
          cached_decision urls later sig
            (upsert_decisions_from clock 0 (llm_decisions urls now sig after before) s)
            job)
        ≡ not (was_kept after job)
  is_rejected-cached_decision clock later now after before s job seen =
      elim (Bool-cases (is_empty (candidate_key urls job))) [
        | inl unkeyed ↦ rw unkeyed refl
        | inr keyed ↦
            rw
              (
                keyed,
                is_rejected-llm_decisions urls hash provider model filled clock 0 later now after
                    (candidate_key urls job) before s
                    (trim_space_idem (fetched_job_dedupe_key urls job)) keyed,
                seen,
              )
              refl
      ]

  filter_from-was_kept :
      (later : Time) (after : List Text) (s : CandidateStore) (jobs : List Job)
      → All
          (λ job.
            is_rejected urls (cached_decision urls later sig s job) ≡ not (was_kept after job))
          jobs
      → (filter_from urls later sig s jobs).0 ≡ select (was_kept after) jobs
  unfolding filter_from
  filter_from-was_kept later after s [] h = refl
  filter_from-was_kept later after s (job ∷ jobs) (h, hs) =
      rw (h, ← filter_from-was_kept later after s jobs hs)
        (elim (Bool-cases (was_kept after job)) [
          | inl kept ↦ rw kept refl
          | inr dropped ↦ rw dropped refl
        ])

  seen_by_later :
      (key : Text) (jobs before : List Job)
      → All (λ job. seen_in (candidate_key urls job) (keys_of urls before) ≡ true) jobs
      → All (λ job. seen_in (candidate_key urls job) (key ∷ keys_of urls before) ≡ true) jobs
  unfolding seen_in
  seen_by_later key [] before h = tt
  seen_by_later key (job ∷ jobs) before (h, hs) = (ground arith, seen_by_later key jobs before hs)

  all_seen :
      (before : List Job)
      → All (λ job. seen_in (candidate_key urls job) (keys_of urls before) ≡ true) before
  unfolding seen_in
  all_seen [] = tt
  all_seen (job ∷ before) = (
    ground (arith, eq_refl (candidate_key urls job)),
    seen_by_later (candidate_key urls job) before before (all_seen before),
  )

  all_decided :
      (clock : ℕ → Time) (later now : Time) (after : List Text) (before : List Job)
      (s : CandidateStore) (jobs : List Job)
      → All (λ job. seen_in (candidate_key urls job) (keys_of urls before) ≡ true) jobs
      → All
          (λ job.
            is_rejected urls (
              cached_decision urls later sig
                (upsert_decisions_from clock 0 (llm_decisions urls now sig after before) s)
                job)
            ≡ not (was_kept after job))
          jobs
  all_decided clock later now after before s [] h = tt
  all_decided clock later now after before s (job ∷ jobs) (h, hs) = (
    is_rejected-cached_decision clock later now after before s job h,
    all_decided clock later now after before s jobs hs,
  )

  -- what is written before the decisions does not matter
  upsert_candidate_decisions-decisions :
      (clock : ℕ → Time) (now : Time) (ds : List JobCandidateDecision) (s : CandidateStore)
      → (t : CandidateStore) × (upsert_candidate_decisions urls clock now ds s
          ≡ upsert_decisions_from clock 0 ds t)
  unfolding upsert_candidate_decisions upsert_decisions_from
  upsert_candidate_decisions-decisions clock now [] s = (s, refl)
  upsert_candidate_decisions-decisions clock now (d ∷ ds) s = (
    upsert_job_candidates clock (candidates_of urls now true (map (λ d. d.job) (d ∷ ds))) s,
    refl,
  )

  -- After a filter by the LLM ran without a notice and its decisions were recorded, the cache keeps of the
  -- jobs that it was given those that it returned by their keys, and those that have no key, in their
  -- order, at any later time and whatever was stored before; the hash of the criteria is not blank.
  pub filter_cached-record_llm_filter :
      (clock : ℕ → Time) (later now : Time) (before after : List Job) (s : CandidateStore)
      → (filter_cached_rejected_jobs urls later sig
          (record_llm_filter urls clock now (some sig) before after [] (some s))
          before).0
        ≡ select (was_kept (keys_of urls after)) before
  unfolding filter_cached_rejected_jobs record_llm_filter
  filter_cached-record_llm_filter clock later now [] after s =
      filter_from-was_kept later (keys_of urls after) s [] tt
  filter_cached-record_llm_filter clock later now (job ∷ jobs) after s =
      let before = job ∷ jobs in
      let (t, written) =
        upsert_candidate_decisions-decisions clock now
          (llm_decisions urls now sig (keys_of urls after) before) s in
      rw written (
        filter_from-was_kept later (keys_of urls after)
          (upsert_decisions_from clock 0 (llm_decisions urls now sig (keys_of urls after) before) t)
          before
          (all_decided clock later now (keys_of urls after) before t before (all_seen before)))
