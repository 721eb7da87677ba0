-- ===== src/Fetcher/Dedupe/Reference/Once.antt =====
-- Which jobs deduplication leaves, and which it reports.
use jobscout.Prelude.{
  ◌≡◌, refl, sym, ◌∙◌, Bool, false, List, [], ◌∷◌, ◌++◌, map, append_assoc, append-nil, map-append,
  is_empty, arith, Bool-cases, inl, inr, if◌then◌else◌,
}
use jobscout.Text.{Text, ◌==◌}
use jobscout.Domain.Job.{Job}
use jobscout.Domain.Merge.{merge_fields}
use jobscout.Domain.Unique.{seen_in}
use jobscout.Fetcher.Urls.{UrlPackage, site_parse}
use jobscout.Fetcher.JobKey.{fetched_job_dedupe_key}
use jobscout.Fetcher.Dedupe.{dedupe_fetched_jobs}
use jobscout.Fetcher.Dedupe.Reference.{
  key-merge_fields, absorb_first, absorb_job, left, has_key, absorbed,
  dedupe_fetched_jobs-eq-reference,
}

-- Each key that is not empty differs from those before it.
abbrev pub Once : List Text → List Text → Type 0
Once before [] = Unit {0}
Once before (k ∷ ks) = (is_empty k ≡ false → seen_in k before ≡ false) × Once (before ++ k ∷ []) ks

Once-concat :
    (before ks : List Text) (k : Text)
    → Once before ks
    → (is_empty k ≡ false → seen_in k (before ++ ks) ≡ false)
    → Once before (ks ++ k ∷ [])
Once-concat before [] k h new = (λ full. rw (append-nil before) at (new full), tt)
Once-concat before (j ∷ ks) k (n, h) new =
    (n, Once-concat (before ++ j ∷ []) ks k h (λ full. rw append_assoc (new full)))

module _ (urls : UrlPackage) where
  abbrev pub job_keys : List Job → List Text
  job_keys = map (fetched_job_dedupe_key urls)

  has_key-seen_in : (k : Text) (out : List Job) → has_key urls k out ≡ seen_in k (job_keys out)
  unfolding has_key seen_in
  has_key-seen_in k [] = refl
  has_key-seen_in k (e ∷ out) = ground (arith, has_key-seen_in k out)

  -- Absorbing a job keeps the keys, or appends a new one.
  absorb_first-keys :
      (job : Job) (out : List Job)
      → job_keys (absorb_first urls (fetched_job_dedupe_key urls job) job out) ≡ (
          if has_key urls (fetched_job_dedupe_key urls job) out
          then job_keys out
          else job_keys out ++ fetched_job_dedupe_key urls job ∷ [])
  unfolding absorb_first has_key
  absorb_first-keys job [] = refl
  absorb_first-keys job (e ∷ out) =
      ground (arith, absorb_first-keys job out, key-merge_fields urls e job)

  absorb_job-Once :
      (job : Job) (out : List Job)
      → Once [] (job_keys out)
      → Once [] (job_keys (absorb_job urls out job))
  unfolding absorb_job
  absorb_job-Once job out h = elim (Bool-cases (is_empty (fetched_job_dedupe_key urls job))) [
    | inl e ↦
        rw (e, map-append)
          (Once-concat [] (job_keys out) (fetched_job_dedupe_key urls job) h (λ full. cc))
    | inr e ↦
        rw (e, absorb_first-keys job out)
          (elim (Bool-cases (has_key urls (fetched_job_dedupe_key urls job) out)) [
            | inl old ↦ rw old h
            | inr new ↦ rw new (
                Once-concat [] (job_keys out) (fetched_job_dedupe_key urls job) h
                  (λ full. sym (has_key-seen_in _ out) ∙ new))
          ])
  ]

  left-Once :
      (out jobs : List Job) → Once [] (job_keys out) → Once [] (job_keys (left urls out jobs))
  unfolding left
  left-Once out [] h = h
  left-Once out (job ∷ jobs) h =
      left-Once (absorb_job urls out job) jobs (absorb_job-Once job out h)

  -- A job repeats if its key is not empty and an earlier job has it.
  abbrev repeats : List Text → Job → Bool
  repeats before job =
      if is_empty (fetched_job_dedupe_key urls job)
      then false
      else seen_in (fetched_job_dedupe_key urls job) before

  -- the jobs that do not repeat, and those that do, after jobs with the keys
  unfoldable pub firsts : List Text → List Job → List Job
  firsts before [] = []
  firsts before (job ∷ jobs) =
      let again = firsts before jobs in
      let new = job ∷ firsts (before ++ fetched_job_dedupe_key urls job ∷ []) jobs in
      if repeats before job then again else new

  unfoldable pub repeated : List Text → List Job → List Job
  repeated before [] = []
  repeated before (job ∷ jobs) =
      let again = job ∷ repeated before jobs in
      let new = repeated (before ++ fetched_job_dedupe_key urls job ∷ []) jobs in
      if repeats before job then again else new

  absorb_job-keys :
      (out : List Job) (job : Job)
      → job_keys (absorb_job urls out job) ≡ (
          if repeats (job_keys out) job
          then job_keys out
          else job_keys out ++ fetched_job_dedupe_key urls job ∷ [])
  unfolding absorb_job
  absorb_job-keys out job = elim (Bool-cases (is_empty (fetched_job_dedupe_key urls job))) [
    | inl e ↦ rw (e, map-append) refl
    | inr e ↦
        rw (e, absorb_first-keys job out, has_key-seen_in (fetched_job_dedupe_key urls job) out)
          refl
  ]

  absorbed-cons :
      (out : List Job) (job : Job) (jobs : List Job)
      → absorbed urls out (job ∷ jobs) ≡ (
          if repeats (job_keys out) job
          then job ∷ absorbed urls (absorb_job urls out job) jobs
          else absorbed urls (absorb_job urls out job) jobs)
  unfolding absorbed
  absorbed-cons out job jobs = ground (arith, has_key-seen_in (fetched_job_dedupe_key urls job) out)

  absorbed-nil : (out : List Job) → absorbed urls out [] ≡ []
  unfolding absorbed
  absorbed-nil out = refl

  absorbed-repeated : (out jobs : List Job) → absorbed urls out jobs ≡ repeated (job_keys out) jobs
  unfolding repeated
  absorbed-repeated out [] = absorbed-nil out
  absorbed-repeated out (job ∷ jobs) = elim (Bool-cases (repeats (job_keys out) job)) [
    | inl e ↦
        rw
          (
            absorbed-cons out job jobs,
            absorbed-repeated (absorb_job urls out job) jobs,
            absorb_job-keys out job,
            e,
          )
          refl
    | inr e ↦
        rw
          (
            absorbed-cons out job jobs,
            absorbed-repeated (absorb_job urls out job) jobs,
            absorb_job-keys out job,
            e,
          )
          refl
  ]

  module _ {X : Type 0} (f : Job → X)
      (fixed : (e job : Job) → f (merge_fields (site_parse urls) e job) ≡ f e) where
    map-absorb_first :
        (k : Text) (job : Job) (out : List Job)
        → map f (absorb_first urls k job out)
          ≡ (if has_key urls k out then map f out else map f out ++ f job ∷ [])
    unfolding absorb_first has_key
    map-absorb_first k job [] = refl
    map-absorb_first k job (e ∷ out) = elim (Bool-cases (fetched_job_dedupe_key urls e == k)) [
      | inl h ↦ rw (h, fixed e job) refl
      | inr h ↦ elim (Bool-cases (has_key urls k out)) [
        | inl old ↦ rw (h, map-absorb_first k job out, old) refl
        | inr new ↦ rw (h, map-absorb_first k job out, new) refl
      ]
    ]

    map-absorb_job :
        (out : List Job) (job : Job)
        → map f (absorb_job urls out job)
          ≡ (if repeats (job_keys out) job then map f out else map f out ++ f job ∷ [])
    unfolding absorb_job
    map-absorb_job out job = elim (Bool-cases (is_empty (fetched_job_dedupe_key urls job))) [
      | inl e ↦ rw (e, map-append) refl
      | inr e ↦
          rw
            (
              e,
              map-absorb_first (fetched_job_dedupe_key urls job) job out,
              has_key-seen_in (fetched_job_dedupe_key urls job) out,
            )
            refl
    ]

    map-left :
        (out jobs : List Job)
        → map f (left urls out jobs) ≡ map f out ++ map f (firsts (job_keys out) jobs)
    unfolding left firsts
    map-left out [] = sym (append-nil (map f out))
    map-left out (job ∷ jobs) = elim (Bool-cases (repeats (job_keys out) job)) [
      | inl e ↦
          rw
            (
              map-left (absorb_job urls out job) jobs,
              map-absorb_job out job,
              absorb_job-keys out job,
              e,
            )
            refl
      | inr e ↦
          rw
            (
              map-left (absorb_job urls out job) jobs,
              map-absorb_job out job,
              absorb_job-keys out job,
              e,
              append_assoc,
            )
            refl
    ]

-- After deduplication no two jobs have the same key, but the empty one; the jobs reported as
-- duplicates are those whose key, not empty, an earlier job has, in their order; and the jobs left are
-- the other ones, in their order, in everything `f` of a job that a merge does not change.
pub dedupe_fetched_jobs-Once :
    (urls : UrlPackage) (jobs : List Job) {X : Type 0} (f : Job → X)
    → ((e job : Job) → f (merge_fields (site_parse urls) e job) ≡ f e)
    → Once [] (job_keys urls (dedupe_fetched_jobs urls jobs).0)
      × (((dedupe_fetched_jobs urls jobs).1 ≡ repeated urls [] jobs)
          × (map f (dedupe_fetched_jobs urls jobs).0 ≡ map f (firsts urls [] jobs)))
dedupe_fetched_jobs-Once urls jobs f fixed =
    rw (dedupe_fetched_jobs-eq-reference urls jobs)
      (left-Once urls [] jobs tt, (absorbed-repeated urls [] jobs, map-left urls f fixed [] jobs))
