-- ===== src/Domain/Merge/Lookup.antt =====
-- What a merge does to the jobs of one key, told without the index map: the last job with the key
-- absorbs, one after the other, the new jobs with the key.
use jobscout.Prelude.{
  ℕ, zero, suc, ◌≡◌, refl, sym, ap, ◌∙◌, List, [], ◌∷◌, ◌++◌, Option, none, some, is_some, arith,
  length, modify, Option-cases, inl, inr, if◌then◌else◌,
}
use jobscout.Text.{Text, ◌==◌}
use jobscout.Text.Equality.{eq_iff}
use jobscout.Text.Dict.{Dict, text_Eq, get, put}
use jobscout.Domain.Job.{Job}
use jobscout.Domain.Website.{Url}
use jobscout.Domain.Merge.{
  job_merge_key, open_status, merge_fields, merge_from, index_from, merge_jobs,
}
use jobscout.Domain.Merge.Keys.{
  last_index, Indexes, Indexes-index_from, Indexes-put, Indexes-modify, merge_from-none,
  merge_from-some, job_merge_key-merge_fields, job_merge_key-open_status,
}

-- The last job with a key.
pub last_with : Text → List Job → Option Job
last_with k [] = none
last_with k (j ∷ js) = elim (last_with k js) [
  | some found ↦ some found
  | none ↦ if job_merge_key j == k then some j else none
]

module _ (p : Text → Option Url) where
  -- One new job with the key: it is merged into the job that is there, or opens the entry.
  abbrev pub absorb : Option Job → Job → Job
  absorb none job = open_status job
  absorb (some e) job = merge_fields p e job

  pub absorb_all : Text → Option Job → List Job → Option Job
  absorb_all k found [] = found
  absorb_all k found (job ∷ jobs) =
      absorb_all k (if job_merge_key job == k then some (absorb found job) else found) jobs

last_with-append :
    (k : Text) (js : List Job) (j : Job)
    → last_with k (js ++ j ∷ []) ≡ (if job_merge_key j == k then some j else last_with k js)
unfolding last_with
last_with-append k [] j = refl
last_with-append k (x ∷ js) j = ground (arith, last_with-append k js j)

is_some-last_with :
    (k : Text) (js : List Job) → is_some (last_with k js) ≡ is_some (last_index k js)
unfolding last_with last_index
is_some-last_with k [] = refl
is_some-last_with k (j ∷ js) = ground (arith, is_some-last_with k js)

module _ (f : Job → Job) (keeps : (j : Job) → job_merge_key (f j) ≡ job_merge_key j) where
  abbrev changed : Option Job → Option Job
  changed none = none
  changed (some j) = some (f j)

  -- An update at the last job with key `k` is seen by a search for `k`, and by no other.
  last_with-modify :
      (k : Text) (js : List Job) (i : ℕ)
      → last_index k js ≡ some i
      → (q : Text)
      → last_with q (modify js i f) ≡ (if k == q then changed (last_with q js) else last_with q js)
  unfolding last_with last_index
  last_with-modify k [] i h q = cc
  last_with-modify k (j ∷ js) zero h q = ground (
    arith,
    keeps j,
    eq_iff (job_merge_key j) k,
    eq_iff k q,
    eq_iff (job_merge_key j) q,
    is_some-last_with k js,
  )
  last_with-modify k (j ∷ js) (suc i) h q =
      ground (arith, last_with-modify k js i (ground arith) q, is_some-last_with k js, eq_iff k q)

get-modify-absorb :
    (p : Text → Option Url) (js : List Job) (i : ℕ) (job : Job) (q : Text)
    → last_index (job_merge_key job) js ≡ some i
    → last_with q (modify js i (λ e. merge_fields p e job))
      ≡ (if job_merge_key job == q then some (absorb p (last_with q js) job) else last_with q js)
get-modify-absorb p js i job q h = ground (
  arith,
  last_with-modify (λ e. merge_fields p e job) (λ e. job_merge_key-merge_fields p e job)
      (job_merge_key job) js i h q,
  is_some-last_with (job_merge_key job) js,
  eq_iff (job_merge_key job) q,
)

module _ (p : Text → Option Url) where
  last_with-merge_from :
      (index : Dict Text ℕ) (added : ℕ) (final new : List Job) (q : Text)
      → Indexes index final
      → last_with q (merge_from p index added final new).1 ≡ absorb_all p q (last_with q final) new
  unfolding merge_from absorb_all
  last_with-merge_from index added final [] q h = refl
  last_with-merge_from index added final (job ∷ jobs) q h =
      elim (Option-cases (get (job_merge_key job) index)) [
        | inl e ↦ rw (merge_from-none p index added final job jobs e) (
            last_with-merge_from (put (job_merge_key job) (length final) index) (suc added)
              (final ++ open_status job ∷ []) jobs q (Indexes-put index final job h)
            ∙ ap (λ o. absorb_all p q o jobs)
                (ground (
                  arith,
                  last_with-append q final (open_status job),
                  job_merge_key-open_status job,
                  h (job_merge_key job),
                  is_some-last_with (job_merge_key job) final,
                  eq_iff (job_merge_key job) q,
                )))
        | inr (i, e) ↦ rw (merge_from-some p index added final job jobs i e) (
            last_with-merge_from index added (modify final i (λ x. merge_fields p x job)) jobs q
              (Indexes-modify p index final i job h)
            ∙ ap (λ o. absorb_all p q o jobs)
                (get-modify-absorb p final i job q (sym (h (job_merge_key job)) ∙ e)))
      ]

-- Looked up by any key, the merged list holds the job that was stored under it, with each new job
-- of that key absorbed in the order of arrival; a key that was not stored is opened by its first
-- new job.
pub merge_jobs-last_with :
    (p : Text → Option Url) (existing new : List Job) (q : Text)
    → last_with q (merge_jobs p existing new).1 ≡ absorb_all p q (last_with q existing) new
unfolding merge_jobs
merge_jobs-last_with p existing new q =
    last_with-merge_from p (index_from 0 [] existing) 0 existing new q (Indexes-index_from existing)
