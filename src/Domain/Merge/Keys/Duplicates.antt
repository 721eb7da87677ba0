-- ===== src/Domain/Merge/Keys/Duplicates.antt =====
-- A merge makes no duplicates, and the same merge again adds nothing.
use jobscout.Prelude.{
  ◌≡◌, refl, ap, ◌∙◌, true, List, [], ◌∷◌, ◌++◌, Option, arith, length, Bool-cases, inl, inr,
}
use jobscout.Text.{Text}
use jobscout.Text.Equality.{eq_iff, eq_refl}
use jobscout.Text.Dict.{text_Eq}
use jobscout.Domain.Job.{Job}
use jobscout.Domain.Unique.{seen_in}
use jobscout.Domain.Unique.Distinct.{seen_in-append, Distinct, Distinct-append}
use jobscout.Domain.Website.{Url}
use jobscout.Domain.Merge.{merge_jobs}
use jobscout.Domain.Merge.Keys.{keys, fresh_keys, merge_jobs-keys}

fresh_keys-Distinct : (before new : List Text) → Distinct before (fresh_keys before new)
unfolding fresh_keys
fresh_keys-Distinct before [] = tt
fresh_keys-Distinct before (k ∷ new) = elim (Bool-cases (seen_in k before)) [
  | inl e ↦ rw e (fresh_keys-Distinct before new)
  | inr e ↦ rw e (e, fresh_keys-Distinct (before ++ k ∷ []) new)
]

-- Merging never makes a duplicate: if the stored jobs have different keys, so have the merged.
pub merge_jobs-Distinct :
    (p : Text → Option Url) (existing new : List Job)
    → Distinct [] (keys existing)
    → Distinct [] (keys (merge_jobs p existing new).1)
merge_jobs-Distinct p existing new d =
    rw ((merge_jobs-keys p existing new).0)
      (Distinct-append [] (keys existing) _ d (fresh_keys-Distinct (keys existing) (keys new)))

fresh_keys-nil :
    (before new : List Text)
    → ((k : Text) → seen_in k new ≡ true → seen_in k before ≡ true)
    → fresh_keys before new ≡ []
unfolding fresh_keys seen_in
fresh_keys-nil before [] h = refl
fresh_keys-nil before (k ∷ new) h =
    rw (h k (rw (eq_refl k) refl)) (fresh_keys-nil before new (λ j e. h j (ground arith)))

seen_in-fresh_keys :
    (before new : List Text) (k : Text)
    → seen_in k new ≡ true
    → seen_in k (before ++ fresh_keys before new) ≡ true
unfolding fresh_keys seen_in
seen_in-fresh_keys before [] k h = cc
seen_in-fresh_keys before (j ∷ new) k h = elim (Bool-cases (seen_in j before)) [
  | inl e ↦ rw e (
      ground (
        arith,
        seen_in-append k before (fresh_keys before new),
        eq_iff j k,
        seen_in-fresh_keys before new k,
      ))
  | inr e ↦ rw e (
      ground (
        arith,
        seen_in-append k before (j ∷ fresh_keys (before ++ j ∷ []) new),
        seen_in-append k (before ++ j ∷ []) (fresh_keys (before ++ j ∷ []) new),
        seen_in-append k before (j ∷ []),
        seen_in-fresh_keys (before ++ j ∷ []) new k,
      ))
]

-- A second merge of the same jobs adds nothing.
pub merge_jobs_again :
    (p : Text → Option Url) (existing new : List Job)
    → (merge_jobs p (merge_jobs p existing new).1 new).0 ≡ 0
merge_jobs_again p existing new =
    (merge_jobs-keys p (merge_jobs p existing new).1 new).1
    ∙ rw ((merge_jobs-keys p existing new).0) (
        ap length
          (fresh_keys-nil _ (keys new) (λ k. seen_in-fresh_keys (keys existing) (keys new) k)))
