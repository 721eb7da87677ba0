-- ===== src/Fetcher/Dedupe.antt =====
-- internal/fetcher/fetched_job_dedupe.go: removing the duplicates of one fetch, and the jobs that
-- are stored already.
pub mod Existing
pub mod Reference
use jobscout.Prelude.{
  ℕ, zero, suc, Bool, true, false, not, ◌&&◌, List, [], ◌∷◌, ◌++◌, Option, none, some, is_empty,
  is_some, length, ltb, modify, if◌then◌else◌,
}
use jobscout.Text.{Text}
use jobscout.Text.Dict.{Dict, text_Eq, get, put}
use jobscout.Domain.Job.{Job}
use jobscout.Domain.Merge.{merge_fields}
use jobscout.Fetcher.Urls.{UrlPackage, site_parse}
use jobscout.Fetcher.JobKey.{fetched_job_dedupe_key}

-- existingJobIndex: the keys, as a set
abbrev pub JobIndex : Type 0
JobIndex = Dict Text (Unit {0})

module _ (urls : UrlPackage) where
  -- the loop of dedupeFetchedJobs
  unfoldable pub dedupe_from : Dict Text ℕ → List Job → List Job → List Job → List Job × List Job
  dedupe_from seen deduped duplicates [] = (deduped, duplicates)
  dedupe_from seen deduped duplicates (job ∷ jobs) =
      let key = fetched_job_dedupe_key urls job in
      let append = dedupe_from seen (deduped ++ job ∷ []) duplicates jobs in
      let remember =
        dedupe_from (put key (length deduped) seen) (deduped ++ job ∷ []) duplicates jobs in
      if is_empty key then append else elim (get key seen) [
        | none ↦ remember
        | some i ↦
            dedupe_from seen (modify deduped i (λ e. merge_fields (site_parse urls) e job))
              (duplicates ++ job ∷ []) jobs
      ]

  unfoldable pub dedupe_fetched_jobs : List Job → List Job × List Job
  unfolding dedupe_from
  dedupe_fetched_jobs jobs = if ltb (length jobs) 2 then (jobs, []) else dedupe_from [] [] [] jobs

  unfoldable pub index_existing : JobIndex → List Job → JobIndex
  index_existing index [] = index
  index_existing index (job ∷ jobs) =
      let key = fetched_job_dedupe_key urls job in
      index_existing (if is_empty key then index else put key tt index) jobs

  unfoldable pub new_existing_job_index : List Job → JobIndex
  unfolding index_existing
  new_existing_job_index jobs = index_existing [] jobs

  -- existingJobIndex.contains, of an index that is not nil
  unfoldable pub index_contains : JobIndex → Job → Bool
  index_contains index job =
      let key = fetched_job_dedupe_key urls job in
      if is_empty index then false else if is_empty key then false else is_some (get key index)

  -- the loop of skipExistingFetchedJobs
  unfoldable pub skip_from : JobIndex → List Job → List Job → List Job → List Job × List Job
  skip_from index kept skipped [] = (kept, skipped)
  skip_from index kept skipped (job ∷ jobs) =
      let skip = skip_from index kept (skipped ++ job ∷ []) jobs in
      let keep = skip_from index (kept ++ job ∷ []) skipped jobs in
      if index_contains index job then skip else keep

  unfoldable pub skip_existing_fetched_jobs : List Job → List Job → List Job × List Job
  unfolding skip_from new_existing_job_index
  skip_existing_fetched_jobs jobs existing =
      if is_empty jobs then (jobs, []) else skip_from (new_existing_job_index existing) [] [] jobs
