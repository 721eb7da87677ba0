-- ===== src/Fetcher/Dedupe/Existing.antt =====
-- Skipping the jobs that are stored already.
use jobscout.Prelude.{
  ◌≡◌, refl, ap, ◌∙◌, Bool, not, ◌&&◌, ◌||◌, List, [], ◌∷◌, ◌++◌, append_assoc, append-nil,
  is_empty, is_some, arith, Bool-cases, inl, inr, if◌then◌else◌,
}
use jobscout.Text.{Text}
use jobscout.Text.Equality.{eq_iff}
use jobscout.Text.Dict.{text_Eq, get, put, get-put, get-nil}
use jobscout.Domain.Job.{Job}
use jobscout.Domain.Unique.{seen_in}
use jobscout.Fetcher.Urls.{UrlPackage}
use jobscout.Fetcher.JobKey.{fetched_job_dedupe_key}
use jobscout.Fetcher.Dedupe.{
  JobIndex, index_existing, new_existing_job_index, index_contains, skip_from,
  skip_existing_fetched_jobs,
}
use jobscout.Fetcher.Dedupe.Reference.Once.{job_keys}

-- The jobs that pass a test.
pub select : (Job → Bool) → List Job → List Job
select p [] = []
select p (j ∷ js) = let rest = select p js in if p j then j ∷ rest else rest

module _ (urls : UrlPackage) where
  -- A job is known if it has a key and some stored job has the same.
  abbrev pub known : List Job → Job → Bool
  known existing job =
      not (is_empty (fetched_job_dedupe_key urls job))
      && seen_in (fetched_job_dedupe_key urls job) (job_keys urls existing)

  get-index_existing :
      (index : JobIndex) (jobs : List Job) (k : Text)
      → is_some (get k (index_existing urls index jobs))
        ≡ (is_some (get k index) || not (is_empty k) && seen_in k (job_keys urls jobs))
  unfolding index_existing seen_in
  get-index_existing index [] k = ground arith
  get-index_existing index (job ∷ jobs) k =
      elim (Bool-cases (is_empty (fetched_job_dedupe_key urls job))) [
        | inl e ↦ rw e (
            ground
              (arith, get-index_existing index jobs k, eq_iff (fetched_job_dedupe_key urls job) k))
        | inr e ↦ rw e (
            ground (
              arith,
              get-index_existing (put (fetched_job_dedupe_key urls job) tt index) jobs k,
              get-put (fetched_job_dedupe_key urls job) k tt index,
              eq_iff (fetched_job_dedupe_key urls job) k,
            ))
      ]

  index_contains-eq-is_some :
      (index : JobIndex) (job : Job)
      → index_contains urls index job ≡ (
          not (is_empty (fetched_job_dedupe_key urls job))
          && is_some (get (fetched_job_dedupe_key urls job) index))
  unfolding index_contains
  index_contains-eq-is_some [] job =
      ground (arith, get-nil {V = Unit {0}} (fetched_job_dedupe_key urls job))
  index_contains-eq-is_some (e ∷ index) job = ground arith

  index_contains-eq-known :
      (existing : List Job) (job : Job)
      → index_contains urls (new_existing_job_index urls existing) job ≡ known existing job
  unfolding new_existing_job_index
  index_contains-eq-known existing job = ground (
    arith,
    index_contains-eq-is_some (index_existing urls [] existing) job,
    get-index_existing [] existing (fetched_job_dedupe_key urls job),
    get-nil {V = Unit {0}} (fetched_job_dedupe_key urls job),
  )

  skip_from-eq-select :
      (index : JobIndex) (kept skipped jobs : List Job)
      → skip_from urls index kept skipped jobs ≡ (
        kept ++ select (λ j. not (index_contains urls index j)) jobs,
        skipped ++ select (index_contains urls index) jobs,
      )
  unfolding skip_from select
  skip_from-eq-select index kept skipped [] = cc (append-nil kept, append-nil skipped)
  skip_from-eq-select index kept skipped (job ∷ jobs) =
      elim (Bool-cases (index_contains urls index job)) [
        | inl e ↦
            rw e (skip_from-eq-select index kept (skipped ++ job ∷ []) jobs ∙ rw append_assoc refl)
        | inr e ↦
            rw e (skip_from-eq-select index (kept ++ job ∷ []) skipped jobs ∙ rw append_assoc refl)
      ]

  select-ext :
      (p q : Job → Bool) (jobs : List Job) → ((j : Job) → p j ≡ q j) → select p jobs ≡ select q jobs
  unfolding select
  select-ext p q [] h = refl
  select-ext p q (j ∷ jobs) h = ground (arith, h j, select-ext p q jobs h)

  -- A fetched job is skipped exactly if it has a key that a stored job has too; the others are kept,
  -- both in their order.
  pub skip_existing-eq-select :
      (jobs existing : List Job)
      → skip_existing_fetched_jobs urls jobs existing
        ≡ (select (λ j. not (known existing j)) jobs, select (known existing) jobs)
  unfolding skip_existing_fetched_jobs select
  skip_existing-eq-select [] existing = refl
  skip_existing-eq-select (job ∷ jobs) existing =
      skip_from-eq-select (new_existing_job_index urls existing) [] [] (job ∷ jobs) ∙ λ i. (
        select-ext (λ j. not (index_contains urls (new_existing_job_index urls existing) j))
            (λ j. not (known existing j)) (job ∷ jobs)
            (λ j. ap not (index_contains-eq-known existing j)) i,
        select-ext (index_contains urls (new_existing_job_index urls existing)) (known existing)
            (job ∷ jobs) (index_contains-eq-known existing) i,
      )
