-- ===== src/Domain/Merge/Fields.antt =====
-- What a merge keeps of a stored job, and how a new job begins.
use jobscout.Prelude.{
  ℕ, suc, ◌≡◌, refl, sym, ◌∙◌, false, List, [], ◌∷◌, ◌++◌, map, append-nil, append_assoc,
  map-append, map-modify, Option, arith, is_empty, length, modify, All, Option-cases, inl, inr,
}
use jobscout.Prelude.Int.{ℤ}
use jobscout.Text.{Text, codes, ◌==◌}
use jobscout.Text.Dict.{Dict, text_Eq, get, put}
use jobscout.Domain.Job.{Job}
use jobscout.Domain.Website.{Url}
use jobscout.Domain.Merge.{
  job_merge_key, open_status, merge_fields, merge_from, index_from, merge_jobs,
}
use jobscout.Domain.Merge.Keys.{merge_from-none, merge_from-some}

-- What the user sees and sets of a job, and where it came from.
pub record Tracked : Type 0 where
  pub company : Text
  pub title : Text
  pub status : Text
  pub date_added : ℤ
  pub date_discovered : Text
  pub remote : Text
  pub source : Text
  pub apply_url : Text
  pub why_matches : List Text

abbrev pub tracked : Job → Tracked
tracked j = record {
  company = j.company;
  title = j.title;
  status = j.status;
  date_added = j.date_added;
  date_discovered = j.date_discovered;
  remote = j.remote;
  source = j.source;
  apply_url = j.apply_url;
  why_matches = j.why_matches;
}

-- A status with which a job may enter the store.
abbrev pub IsOpened : Tracked → Type 0
IsOpened t = (is_empty t.status ≡ false) × ((t.status == codes "New") ≡ false)

tracked-merge_fields :
    (p : Text → Option Url) (e job : Job) → tracked (merge_fields p e job) ≡ tracked e
unfolding merge_fields
tracked-merge_fields p e job = refl

open_status-IsOpened : (job : Job) → IsOpened (tracked (open_status job))
unfolding open_status ◌==◌
open_status-IsOpened job = ground arith

module _ (p : Text → Option Url) where
  abbrev pub Appends : List Job → List Job → Type 0
  Appends before after =
      (rest : List Tracked) × (map tracked after ≡ map tracked before ++ rest) × All IsOpened rest

  tracked-merge_from :
      (index : Dict Text ℕ) (added : ℕ) (final new : List Job)
      → Appends final (merge_from p index added final new).1
  unfolding merge_from
  tracked-merge_from index added final [] = ([], sym (append-nil (map tracked final)), tt)
  tracked-merge_from index added final (job ∷ jobs) =
      elim (Option-cases (get (job_merge_key job) index)) [
        | inl e ↦
            let (rest, same, opened) =
              tracked-merge_from (put (job_merge_key job) (length final) index) (suc added)
                (final ++ open_status job ∷ []) jobs in
            rw (merge_from-none p index added final job jobs e) (
              tracked (open_status job) ∷ rest,
              same ∙ rw (map-append, append_assoc) refl,
              (open_status-IsOpened job, opened),
            )
        | inr (i, e) ↦
            let (rest, same, opened) =
              tracked-merge_from index added (modify final i (λ x. merge_fields p x job)) jobs in
            rw (merge_from-some p index added final job jobs i e) (
              rest,
              same
                  ∙ rw
                      (map-modify tracked (λ x. merge_fields p x job) final i
                        (λ x. tracked-merge_fields p x job))
                      refl,
              opened,
            )
      ]

  -- A merge changes no stored job's company, title, status, dates, source, apply URL, remote text
  -- or reasons, and moves none; each job that it appends has a status, and not "New".
  pub merge_jobs-Appends :
      (existing new : List Job) → Appends existing (merge_jobs p existing new).1
  unfolding merge_jobs
  merge_jobs-Appends existing new = tracked-merge_from (index_from 0 [] existing) 0 existing new
