-- ===== src/Fetcher/Review/Plan.antt =====
-- What the review shows is what is saved.
use jobscout.Prelude.{
  ℕ, suc, ◌+◌, ◌≡◌, refl, sym, ap, ◌∙◌, inl, inr, false, List, [], ◌∷◌, ◌++◌, append-nil,
  append_assoc, Option, none, some, arith, length, map, Bool-cases, Option-cases,
}
use jobscout.Text.{Text, ◌==◌}
use jobscout.Text.Dict.{Dict, text_Eq, get, put}
use jobscout.Domain.Job.{Job}
use jobscout.Domain.Unique.{seen_in}
use jobscout.Domain.Unique.Distinct.{seen_in-append}
use jobscout.Domain.Website.{Url}
use jobscout.Domain.Merge.{job_merge_key, open_status, merge_from, index_from, merge_jobs}
use jobscout.Domain.Merge.Keys.{
  keys, Indexes, Indexes-index_from, Indexes-put, merge_from-none, job_merge_key-open_status,
  seen_in_of_get, keys-append,
}
use jobscout.Fetcher.Review.{
  FetchSummary, plan_from, plan_job_merge, new_review_session, merge_into,
}

open_status_idem : (job : Job) → open_status (open_status job) ≡ open_status job
unfolding open_status ◌==◌
open_status_idem job = ground arith

-- Jobs with different keys, none of them in `seen`, each with a status that a new job may have.
abbrev AreFresh : List Text → List Job → Type 0
AreFresh seen [] = Unit {0}
AreFresh seen (job ∷ jobs) =
    (open_status job ≡ job)
    × ((seen_in (job_merge_key job) seen ≡ false) × AreFresh (job_merge_key job ∷ seen) jobs)

AreFresh-plan_from :
    (seen : List Text) (new : List Job) → AreFresh seen (plan_from seen new).added_jobs
unfolding plan_from
AreFresh-plan_from seen [] = tt
AreFresh-plan_from seen (job ∷ new) = elim (Bool-cases (seen_in (job_merge_key job) seen)) [
  | inl e ↦ rw e (AreFresh-plan_from seen new)
  | inr e ↦ rw e (
    open_status_idem job,
    (
      ap (λ k. seen_in k seen) (job_merge_key-open_status job) ∙ e,
      rw (job_merge_key-open_status job) (AreFresh-plan_from (job_merge_key job ∷ seen) new),
    ),
  )
]

-- `seen` and `before` hold the same keys.
abbrev SameKeys : List Text → List Text → Type 0
SameKeys seen before = (k : Text) → seen_in k seen ≡ seen_in k before

module _ (p : Text → Option Url) where
  merge_from-AreFresh :
      (seen : List Text) (index : Dict Text ℕ) (added : ℕ) (final jobs : List Job)
      → Indexes index final
      → SameKeys seen (keys final)
      → AreFresh seen jobs
      → merge_from p index added final jobs ≡ (length jobs + added, final ++ jobs)
  unfolding merge_from seen_in
  merge_from-AreFresh seen index added final [] h s f =
      rw (append-nil final) (ap (λ n. (n, final)) (omega arith))
  merge_from-AreFresh seen index added final (job ∷ jobs) h s (o, (n, f)) =
      merge_from-none p index added final job jobs absent
      ∙ (merge_from-AreFresh (key ∷ seen) (put key (length final) index) (suc added)
            (final ++ open_status job ∷ []) jobs (Indexes-put index final job h) same f
          ∙ (ap (λ j. (length jobs + suc added, (final ++ j ∷ []) ++ jobs)) o
              ∙ (ap (λ n. (n, (final ++ job ∷ []) ++ jobs)) (omega arith)
                  ∙ ap (λ js. (suc (length jobs) + added, js))
                      (append_assoc final (job ∷ []) jobs))))
    where
      key : Text
      key = job_merge_key job

      absent : get key index ≡ none
      absent = elim (Option-cases (get key index)) [
        | inl e ↦ e
        | inr (i, e) ↦ ground (arith, n, s key, seen_in_of_get index final key h e)
      ]

      same : SameKeys (key ∷ seen) (keys (final ++ open_status job ∷ []))
      same k =
          ground (arith, s k, seen_in-append k (keys final) (key ∷ []))
          ∙ ap (seen_in k) (sym (keys-append final job))

-- what a plan adds stands behind what there was
plan_from-merged :
    (seen : List Text) (new : List Job)
    → (plan_from seen new).merged ≡ (plan_from seen new).added_jobs
unfolding plan_from
plan_from-merged seen [] = refl
plan_from-merged seen (job ∷ new) =
    ground (arith, plan_from-merged seen new, plan_from-merged (job_merge_key job ∷ seen) new)

length-plan_from :
    (seen : List Text) (new : List Job)
    → length (plan_from seen new).added_jobs + length (plan_from seen new).duplicate_jobs
      ≡ length new
unfolding plan_from
length-plan_from seen [] = omega arith
length-plan_from seen (job ∷ new) =
    ground (arith, length-plan_from seen new, length-plan_from (job_merge_key job ∷ seen) new)

-- A review counts every fetched job, as one that it adds or as a duplicate; and merging the jobs that
-- it shows as added into the jobs that it was made for is what it showed: it adds all of them, leaves
-- the jobs there were as they are, and gives the jobs that the review's own merge gives.
pub accept_review :
    (p : Text → Option Url) (existing fetched_jobs : List Job) (summary : FetchSummary)
    → let r = new_review_session existing fetched_jobs summary in
      ((merge_jobs p existing r.added_jobs ≡ (r.added, existing ++ r.added_jobs))
        × (merge_into (some r) existing ≡ (existing ++ r.added_jobs, r.added_jobs)))
      × (r.added + length (plan_job_merge existing fetched_jobs).duplicate_jobs ≡ r.fetched)
unfolding new_review_session merge_into plan_job_merge merge_jobs
accept_review p existing fetched_jobs summary =
    let seen = map job_merge_key existing in
    let added = (plan_from seen fetched_jobs).added_jobs in
    (
      (
        merge_from-AreFresh p seen (index_from 0 [] existing) 0 existing added
              (Indexes-index_from existing) (λ k. refl) (AreFresh-plan_from seen fetched_jobs)
            ∙ ap (λ n. (n, existing ++ added)) (omega arith),
        ap (λ js. (existing ++ js, added)) (plan_from-merged seen fetched_jobs),
      ),
      length-plan_from seen fetched_jobs,
    )
