-- ===== src/Domain/Merge/Keys.antt =====
-- Which jobs a merge holds, by their keys, in order.
pub mod Duplicates
use jobscout.Prelude.{
  ℕ, zero, suc, ◌+◌, ◌≡◌, refl, sym, ap, ◌∙◌, Bool, true, false, ◌||◌, List, [], ◌∷◌, ◌++◌, map,
  Option, none, some, is_some, arith, length, get_elem?, modify, map-modify, map-append,
  append_assoc, append-nil, length-append, length-modify, Bool-cases, Option-cases, inl, inr,
  if◌then◌else◌,
}
use jobscout.Text.{Text, ◌==◌}
use jobscout.Text.Equality.{eq_iff, eq_refl}
use jobscout.Text.Dict.{Dict, text_Eq, get, put, get-put, get-nil}
use jobscout.Domain.Job.{Job}
use jobscout.Domain.Unique.{seen_in}
use jobscout.Domain.Website.{Url}
use jobscout.Domain.Merge.{
  job_merge_key, open_status, merge_fields, merge_from, index_from, merge_jobs,
}

abbrev pub keys : List Job → List Text
keys = map job_merge_key

-- The position of the last job with a key.
unfoldable pub last_index : Text → List Job → Option ℕ
last_index k [] = none
last_index k (j ∷ js) = elim (last_index k js) [
  | some i ↦ some (suc i)
  | none ↦ if job_merge_key j == k then some 0 else none
]

pub job_merge_key-merge_fields :
    (p : Text → Option Url) (e job : Job) → job_merge_key (merge_fields p e job) ≡ job_merge_key e
unfolding job_merge_key merge_fields
job_merge_key-merge_fields p e job = refl

pub job_merge_key-open_status : (job : Job) → job_merge_key (open_status job) ≡ job_merge_key job
unfolding job_merge_key open_status
job_merge_key-open_status job = ground arith

pub last_index-append :
    (k : Text) (js : List Job) (j : Job)
    → last_index k (js ++ j ∷ [])
      ≡ (if job_merge_key j == k then some (length js) else last_index k js)
unfolding last_index
last_index-append k [] j = refl
last_index-append k (x ∷ js) j = ground (arith, last_index-append k js j)

pub last_index-modify :
    (k : Text) (js : List Job) (i : ℕ) (f : Job → Job)
    → ((j : Job) → job_merge_key (f j) ≡ job_merge_key j)
    → last_index k (modify js i f) ≡ last_index k js
unfolding last_index
last_index-modify k [] i f h = refl
last_index-modify k (x ∷ js) zero f h = ground (arith, h x)
last_index-modify k (x ∷ js) (suc i) f h = ground (arith, last_index-modify k js i f h)

-- The index of a merge points at the last job with each key.
abbrev pub Indexes : Dict Text ℕ → List Job → Type 0
Indexes index js = (k : Text) → get k index ≡ last_index k js

abbrev pub shift : ℕ → Option ℕ → Option ℕ → Option ℕ
shift i none d = d
shift i (some n) d = some (i + n)

get-index_from :
    (i : ℕ) (m : Dict Text ℕ) (js : List Job) (k : Text)
    → get k (index_from i m js) ≡ shift i (last_index k js) (get k m)
unfolding index_from last_index
get-index_from i m [] k = refl
get-index_from i m (j ∷ js) k = ground (
  arith,
  get-index_from (suc i) (put (job_merge_key j) i m) js k,
  get-put (job_merge_key j) k i m,
)

pub Indexes-index_from : (js : List Job) → Indexes (index_from 0 [] js) js
Indexes-index_from js k = ground (arith, get-index_from 0 [] js k, get-nil {V = ℕ} k)

pub Indexes-put :
    (index : Dict Text ℕ) (js : List Job) (job : Job)
    → Indexes index js
    → Indexes (put (job_merge_key job) (length js) index) (js ++ open_status job ∷ [])
Indexes-put index js job h k = rw (get-put, last_index-append, job_merge_key-open_status, h k) refl

pub Indexes-modify :
    (p : Text → Option Url) (index : Dict Text ℕ) (js : List Job) (i : ℕ) (job : Job)
    → Indexes index js
    → Indexes index (modify js i (λ e. merge_fields p e job))
Indexes-modify p index js i job h k =
    h k
    ∙ sym (
        last_index-modify k js i (λ e. merge_fields p e job)
          (λ e. job_merge_key-merge_fields p e job))

is_some-last_index : (k : Text) (js : List Job) → is_some (last_index k js) ≡ seen_in k (keys js)
unfolding last_index seen_in
is_some-last_index k [] = refl
is_some-last_index k (j ∷ js) = ground (arith, is_some-last_index k js)

-- The keys of the jobs that a merge appends: those not seen before, once each, in order.
unfoldable pub fresh_keys : List Text → List Text → List Text
fresh_keys ks [] = []
fresh_keys ks (k ∷ new) =
    let skip = fresh_keys ks new in
    let take_it = k ∷ fresh_keys (ks ++ k ∷ []) new in if seen_in k ks then skip else take_it

pub keys-append :
    (js : List Job) (job : Job)
    → keys (js ++ open_status job ∷ []) ≡ keys js ++ job_merge_key job ∷ []
keys-append js job = rw (map-append, job_merge_key-open_status) refl

pub seen_in_of_get :
    (index : Dict Text ℕ) (js : List Job) (k : Text) {o : Option ℕ}
    → Indexes index js
    → get k index ≡ o
    → seen_in k (keys js) ≡ is_some o
seen_in_of_get index js k h e = sym (is_some-last_index k js) ∙ ap is_some (sym (h k) ∙ e)

fresh_keys_seen :
    (ks new : List Text) (k : Text)
    → seen_in k ks ≡ true
    → fresh_keys ks (k ∷ new) ≡ fresh_keys ks new
unfolding fresh_keys
fresh_keys_seen ks new k e = rw e refl

fresh_keys_new :
    (ks new : List Text) (k : Text)
    → seen_in k ks ≡ false
    → fresh_keys ks (k ∷ new) ≡ k ∷ fresh_keys (ks ++ k ∷ []) new
unfolding fresh_keys
fresh_keys_new ks new k e = rw e refl

module _ (p : Text → Option Url) (index : Dict Text ℕ) (added : ℕ) (final : List Job) (job : Job)
    (jobs : List Job) where
  pub merge_from-none :
      get (job_merge_key job) index ≡ none
      → merge_from p index added final (job ∷ jobs)
        ≡ merge_from p
            (put (job_merge_key job) (length final) index)
            (suc added)
            (final ++ open_status job ∷ [])
            jobs
  unfolding merge_from
  merge_from-none e = rw (e, merge_from) refl

  pub merge_from-some :
      (i : ℕ)
      → get (job_merge_key job) index ≡ some i
      → merge_from p index added final (job ∷ jobs)
        ≡ merge_from p index added (modify final i (λ x. merge_fields p x job)) jobs
  unfolding merge_from
  merge_from-some i e = rw (e, merge_from) refl

module _ (p : Text → Option Url) where
  keys-modify :
      (js : List Job) (i : ℕ) (job : Job) → keys (modify js i (λ x. merge_fields p x job)) ≡ keys js
  keys-modify js i job = map-modify job_merge_key _ js i (λ x. job_merge_key-merge_fields p x job)

  abbrev KeysAre : ℕ → List Job → List Job → ℕ × List Job → Type 0
  KeysAre added final new r =
      (keys r.1 ≡ keys final ++ fresh_keys (keys final) (keys new))
      × (r.0 ≡ added + length (fresh_keys (keys final) (keys new)))

  keys-merge_from :
      (index : Dict Text ℕ) (added : ℕ) (final new : List Job)
      → Indexes index final
      → KeysAre added final new (merge_from p index added final new)
  unfolding merge_from fresh_keys
  keys-merge_from index added final [] h = (sym (append-nil (keys final)), omega arith)
  keys-merge_from index added final (job ∷ jobs) h =
      elim (Option-cases (get (job_merge_key job) index)) [
        | inl e ↦
            let (ks, n) =
              keys-merge_from (put (job_merge_key job) (length final) index) (suc added)
                (final ++ open_status job ∷ []) jobs (Indexes-put index final job h) in
            rw
              (
                merge_from-none p index added final job jobs e,
                fresh_keys_new (keys final) (keys jobs) (job_merge_key job)
                    (seen_in_of_get index final (job_merge_key job) h e),
              )
              (
                ks ∙ rw (keys-append final job, append_assoc) refl,
                n ∙ rw (keys-append final job) (omega arith),
              )
        | inr (i, e) ↦
            let (ks, n) =
              keys-merge_from index added (modify final i (λ x. merge_fields p x job)) jobs
                (Indexes-modify p index final i job h) in
            rw
              (
                merge_from-some p index added final job jobs i e,
                fresh_keys_seen (keys final) (keys jobs) (job_merge_key job)
                    (seen_in_of_get index final (job_merge_key job) h e),
              )
              (ks ∙ rw (keys-modify final i job) refl, n ∙ rw (keys-modify final i job) refl)
      ]

-- After a merge the jobs stored before keep their places and keys; behind them stand the new keys
-- that none of the jobs before has, each once and in the order of arrival; and the number that is
-- returned counts them.
pub merge_jobs-keys :
    (p : Text → Option Url) (existing new : List Job)
    → (keys (merge_jobs p existing new).1 ≡ keys existing ++ fresh_keys (keys existing) (keys new))
      × ((merge_jobs p existing new).0 ≡ length (fresh_keys (keys existing) (keys new)))
unfolding merge_jobs
merge_jobs-keys p existing new =
    let (ks, n) =
      keys-merge_from p (index_from 0 [] existing) 0 existing new (Indexes-index_from existing) in
    (ks, n ∙ omega arith)
