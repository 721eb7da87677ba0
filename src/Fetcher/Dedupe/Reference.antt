-- ===== src/Fetcher/Dedupe/Reference.antt =====
-- Deduplication told without the map of positions: each job is absorbed by the first job of its
-- key, or stands at the end.
pub mod Once
use jobscout.Prelude.{
  ℕ, zero, suc, ◌+◌, ◌≡◌, refl, sym, ap, ◌∙◌, Bool, true, false, List, [], ◌∷◌, ◌++◌, append_assoc,
  append-nil, Option, none, some, is_empty, is_some, arith, length, length-append, ltb, modify,
  Bool-cases, Option-cases, inl, inr, if◌then◌else◌,
}
use jobscout.Text.{Text, ◌==◌}
use jobscout.Text.Equality.{eq_iff, eq_refl}
use jobscout.Text.Dict.{Dict, text_Eq, get, put, get-put, get-nil}
use jobscout.Domain.Job.{Job}
use jobscout.Domain.Merge.{merge_fields, job_merge_key}
use jobscout.Domain.Merge.Keys.{job_merge_key-merge_fields}
use jobscout.Fetcher.Urls.{UrlPackage, site_parse}
use jobscout.Fetcher.JobKey.{
  fetched_job_dedupe_key, canonical_apply_url_dedupe_key, canonical_apply_url_looks_job_specific,
}
use jobscout.Fetcher.Dedupe.{dedupe_from, dedupe_fetched_jobs}

module _ (urls : UrlPackage) where
  abbrev key_of : Job → Text
  key_of = fetched_job_dedupe_key urls

  -- A merge changes nothing that the key is made of.
  pub key-merge_fields :
      (e job : Job)
      → fetched_job_dedupe_key urls (merge_fields (site_parse urls) e job)
        ≡ fetched_job_dedupe_key urls e
  unfolding fetched_job_dedupe_key merge_fields canonical_apply_url_dedupe_key
      canonical_apply_url_looks_job_specific job_merge_key
  key-merge_fields e job = refl

  -- The first job of the list with the key absorbs the job; if there is none, it is appended.
  unfoldable pub absorb_first : Text → Job → List Job → List Job
  absorb_first key job [] = job ∷ []
  absorb_first key job (e ∷ out) =
      if key_of e == key
      then merge_fields (site_parse urls) e job ∷ out
      else e ∷ absorb_first key job out

  unfoldable pub absorb_job : List Job → Job → List Job
  absorb_job out job =
      if is_empty (key_of job) then out ++ job ∷ [] else absorb_first (key_of job) job out

  -- The jobs left by a run over all jobs, and those that were absorbed.
  unfoldable pub left : List Job → List Job → List Job
  left out [] = out
  left out (job ∷ jobs) = left (absorb_job out job) jobs

  unfoldable pub has_key : Text → List Job → Bool
  has_key key [] = false
  has_key key (e ∷ out) = if key_of e == key then true else has_key key out

  unfoldable pub absorbed : List Job → List Job → List Job
  absorbed out [] = []
  absorbed out (job ∷ jobs) =
      let rest = absorbed (absorb_job out job) jobs in
      if is_empty (key_of job) then rest else if has_key (key_of job) out then job ∷ rest else rest

  first_index : Text → List Job → Option ℕ
  first_index key [] = none
  first_index key (e ∷ out) = elim (key_of e == key) [
    | true ↦ some 0
    | false ↦ elim (first_index key out) [ none ↦ none | some i ↦ some (suc i) ]
  ]

  first_index-nil : (key : Text) → first_index key [] ≡ none
  unfolding first_index
  first_index-nil key = refl

  has_key-eq : (key : Text) (out : List Job) → has_key key out ≡ is_some (first_index key out)
  unfolding has_key first_index
  has_key-eq key [] = refl
  has_key-eq key (e ∷ out) = ground (arith, has_key-eq key out)

  absorb_first-none :
      (key : Text) (job : Job) (out : List Job)
      → first_index key out ≡ none
      → absorb_first key job out ≡ out ++ job ∷ []
  unfolding absorb_first first_index
  absorb_first-none key job [] h = refl
  absorb_first-none key job (e ∷ out) h = ground (arith, absorb_first-none key job out)

  absorb_first-some :
      (key : Text) (job : Job) (out : List Job) (i : ℕ)
      → first_index key out ≡ some i
      → absorb_first key job out ≡ modify out i (λ e. merge_fields (site_parse urls) e job)
  unfolding absorb_first first_index
  absorb_first-some key job [] i h = cc
  absorb_first-some key job (e ∷ out) zero h = ground arith
  absorb_first-some key job (e ∷ out) (suc i) h = ground (arith, absorb_first-some key job out i)

  first_index-append :
      (key : Text) (out : List Job) (job : Job)
      → first_index key (out ++ job ∷ []) ≡ (
          if is_some (first_index key out)
          then first_index key out
          else if key_of job == key
          then some (length out)
          else none)
  unfolding first_index
  first_index-append key [] job = ground arith
  first_index-append key (e ∷ out) job = ground (arith, first_index-append key out job)

  first_index-modify :
      (key : Text) (out : List Job) (i : ℕ) (job : Job)
      → first_index key (modify out i (λ e. merge_fields (site_parse urls) e job))
        ≡ first_index key out
  unfolding first_index
  first_index-modify key [] i job = refl
  first_index-modify key (e ∷ out) zero job = ground (arith, key-merge_fields e job)
  first_index-modify key (e ∷ out) (suc i) job = ground (arith, first_index-modify key out i job)

  -- The map of positions points at the first job with each key that is not empty.
  abbrev Points : Dict Text ℕ → List Job → Type 0
  Points seen out = (key : Text) → is_empty key ≡ false → get key seen ≡ first_index key out

  Points-append :
      (seen : Dict Text ℕ) (out : List Job) (job : Job)
      → is_empty (key_of job) ≡ true
      → Points seen out
      → Points seen (out ++ job ∷ [])
  Points-append seen out job e h k full =
      ground (arith, h k full, first_index-append k out job, eq_iff (key_of job) k)

  Points-put :
      (seen : Dict Text ℕ) (out : List Job) (job : Job)
      → first_index (key_of job) out ≡ none
      → Points seen out
      → Points (put (key_of job) (length out) seen) (out ++ job ∷ [])
  Points-put seen out job e h k full = ground (
    arith,
    h k full,
    first_index-append k out job,
    get-put (key_of job) k (length out) seen,
    eq_iff (key_of job) k,
  )

  -- What the loop returns, by the reference.
  abbrev reference_run : List Job → List Job → List Job → List Job × List Job
  reference_run out dups jobs = (left out jobs, dups ++ absorbed out jobs)

  reference_run-empty :
      (out dups : List Job) (job : Job) (jobs : List Job)
      → is_empty (key_of job) ≡ true
      → reference_run out dups (job ∷ jobs) ≡ reference_run (out ++ job ∷ []) dups jobs
  unfolding left absorbed absorb_job
  reference_run-empty out dups job jobs e = rw e refl

  reference_run-none :
      (out dups : List Job) (job : Job) (jobs : List Job)
      → is_empty (key_of job) ≡ false
      → first_index (key_of job) out ≡ none
      → reference_run out dups (job ∷ jobs) ≡ reference_run (out ++ job ∷ []) dups jobs
  unfolding left absorbed absorb_job
  reference_run-none out dups job jobs e n =
      rw (e, absorb_first-none (key_of job) job out n, has_key-eq (key_of job) out, n) refl

  reference_run-some :
      (out dups : List Job) (job : Job) (jobs : List Job) (i : ℕ)
      → is_empty (key_of job) ≡ false
      → first_index (key_of job) out ≡ some i
      → reference_run out dups (job ∷ jobs)
        ≡ reference_run
            (modify out i (λ e. merge_fields (site_parse urls) e job))
            (dups ++ job ∷ [])
            jobs
  unfolding left absorbed absorb_job
  reference_run-some out dups job jobs i e n =
      rw
        (
          e,
          absorb_first-some (key_of job) job out i n,
          has_key-eq (key_of job) out,
          n,
          append_assoc,
        )
        refl

  reference_run-nil : (out dups : List Job) → reference_run out dups [] ≡ (out, dups)
  unfolding left absorbed
  reference_run-nil out dups = ap (λ (d : List Job). (out, d)) (append-nil dups)

  dedupe_from-eq-reference_run :
      (seen : Dict Text ℕ) (out dups jobs : List Job)
      → Points seen out
      → dedupe_from urls seen out dups jobs ≡ reference_run out dups jobs
  unfolding dedupe_from
  dedupe_from-eq-reference_run seen out dups [] h = sym (reference_run-nil out dups)
  dedupe_from-eq-reference_run seen out dups (job ∷ jobs) h =
      elim (Bool-cases (is_empty (key_of job))) [
        | inl e ↦
            rw (reference_run-empty out dups job jobs e, e)
              (dedupe_from-eq-reference_run seen (out ++ job ∷ []) dups jobs
                (Points-append seen out job e h))
        | inr e ↦ elim (Option-cases (get (key_of job) seen)) [
          | inl n ↦
              rw (reference_run-none out dups job jobs e (sym (h (key_of job) e) ∙ n), e, n)
                (dedupe_from-eq-reference_run (put (key_of job) (length out) seen) (out ++ job ∷ [])
                  dups jobs (Points-put seen out job (sym (h (key_of job) e) ∙ n) h))
          | inr (i, s) ↦
              rw (reference_run-some out dups job jobs i e (sym (h (key_of job) e) ∙ s), e, s)
                (dedupe_from-eq-reference_run seen
                  (modify out i (λ x. merge_fields (site_parse urls) x job)) (dups ++ job ∷ []) jobs
                  (λ k full. h k full ∙ sym (first_index-modify k out i job)))
        ]
      ]

  reference_run-short :
      (jobs : List Job) → ltb (length jobs) 2 ≡ true → reference_run [] [] jobs ≡ (jobs, [])
  unfolding left absorbed absorb_job absorb_first has_key
  reference_run-short [] h = refl
  reference_run-short (a ∷ []) h = ground arith
  reference_run-short (a ∷ b ∷ jobs) h = absurd (ground arith)

-- Deduplication returns the jobs that are left when each job is absorbed by the first job of its
-- key, with the fields merged, and the jobs that were absorbed, in their order. A job without a
-- key is never absorbed.
pub dedupe_fetched_jobs-eq-reference :
    (urls : UrlPackage) (jobs : List Job)
    → dedupe_fetched_jobs urls jobs ≡ (left urls [] jobs, absorbed urls [] jobs)
unfolding dedupe_fetched_jobs
dedupe_fetched_jobs-eq-reference urls jobs = elim (Bool-cases (ltb (length jobs) 2)) [
  | inl e ↦ rw e (sym (reference_run-short urls jobs e))
  | inr e ↦ rw e (
      dedupe_from-eq-reference_run urls [] [] [] jobs
        (λ k full. get-nil {V = ℕ} k ∙ sym (first_index-nil urls k)))
]
