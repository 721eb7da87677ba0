-- ===== src/Domain/Merge/Repair.antt =====
-- IdentityRepairTargets: each target is the job at its index, and no job that needs repair is
-- left out.
use jobscout.Prelude.{
  ℕ, zero, suc, ◌+◌, ◌≤◌, ◌≡◌, refl, subst, true, List, [], ◌∷◌, ◌++◌, map, append_assoc, some,
  arith, length, length-append, get_elem?, All, In, Bool-cases, inl, inr,
}
use native.Mathlib.Nat.{zero-add}
use jobscout.Domain.Job.{Job}
use jobscout.Domain.Merge.{needs_identity_repair, repair_targets_from, identity_repair_targets}

get_elem?-length {ℓ} :
    {A : Type ℓ} (pre : List A) (x : A) (xs : List A)
    → get_elem? (pre ++ x ∷ xs) (length pre) ≡ some x
get_elem?-length [] x xs = refl
get_elem?-length (y ∷ pre) x xs = get_elem?-length pre x xs

-- The numbers, from the first one, increase.
abbrev pub Ascending : ℕ → List ℕ → Type 0
Ascending first [] = Unit {0}
Ascending first (n ∷ ns) = (first ≤ n) × Ascending (suc n) ns

Ascending-weaken : (i : ℕ) (ns : List ℕ) → Ascending (suc i) ns → Ascending i ns
Ascending-weaken i [] h = tt
Ascending-weaken i (n ∷ ns) (h, k) = (omega (arith, h), k)

repair_targets_from-Ascending :
    (i : ℕ) (jobs : List Job) → Ascending i (repair_targets_from i jobs).1
unfolding repair_targets_from
repair_targets_from-Ascending i [] = tt
repair_targets_from-Ascending i (job ∷ jobs) =
    let rest = repair_targets_from-Ascending (suc i) jobs in
    elim (Bool-cases (needs_identity_repair job)) [
      | inl e ↦ rw e (omega arith, rest)
      | inr e ↦ rw e (Ascending-weaken i (repair_targets_from (suc i) jobs).1 rest)
    ]

-- The targets and indexes of a list, and what they are of the whole list.
pub record IsRepair (jobs targets : List Job) (indexes : List ℕ) : Type 0 where
  pub placed : map (get_elem? jobs) indexes ≡ map some targets
  pub needed : All (λ job. needs_identity_repair job ≡ true) targets

module _ (pre : List Job) where
  abbrev From : List Job → List Job × List ℕ → Type 0
  From jobs r = IsRepair (pre ++ jobs) r.0 r.1

repair_targets_from-IsRepair :
    (pre jobs : List Job) (i : ℕ) → length pre ≡ i → From pre jobs (repair_targets_from i jobs)
unfolding repair_targets_from
repair_targets_from-IsRepair pre [] i h = record { placed = refl; needed = tt }
repair_targets_from-IsRepair pre (job ∷ jobs) i h =
    let grown : length (pre ++ job ∷ []) ≡ suc i = omega (arith, length-append pre (job ∷ [])) in
    let rest = repair_targets_from-IsRepair (pre ++ job ∷ []) jobs (suc i) grown in
    let r = rw append_assoc at rest in
    elim (Bool-cases (needs_identity_repair job)) [
      | inl e ↦ rw e (record {
        placed = cc (get_elem?-length pre job jobs, h, r.placed);
        needed = (e, r.needed);
      })
      | inr e ↦ rw e r
    ]

repair_targets_from_complete :
    (i : ℕ) (jobs : List Job) (n : ℕ) (job : Job)
    → get_elem? jobs n ≡ some job
    → needs_identity_repair job ≡ true
    → In (i + n) (repair_targets_from i jobs).1
unfolding repair_targets_from
repair_targets_from_complete i [] n job h k = cc
repair_targets_from_complete i (j ∷ jobs) zero job h k =
    let e : needs_identity_repair j ≡ true = ground arith in rw e (inl (omega arith))
repair_targets_from_complete i (j ∷ jobs) (suc n) job h k =
    let found = repair_targets_from_complete (suc i) jobs n job h k in
    let same : suc i + n ≡ i + suc n = omega arith in
    let moved = subst (λ m. In m (repair_targets_from (suc i) jobs).1) same found in
    elim (Bool-cases (needs_identity_repair j)) [ inl e ↦ rw e (inr moved) | inr e ↦ rw e moved ]

-- Each repair target stands at its index among the jobs and needs repair, the index of every job
-- that needs repair is listed, and the indexes increase, so that none is listed twice.
pub identity_repair_targets-IsRepair :
    (jobs : List Job)
    → (IsRepair jobs (identity_repair_targets jobs).0 (identity_repair_targets jobs).1
        × Ascending 0 (identity_repair_targets jobs).1)
      × ((n : ℕ) (job : Job)
          → get_elem? jobs n ≡ some job
          → needs_identity_repair job ≡ true
          → In n (identity_repair_targets jobs).1)
unfolding identity_repair_targets
identity_repair_targets-IsRepair jobs = (
  (repair_targets_from-IsRepair [] jobs 0 refl, repair_targets_from-Ascending 0 jobs),
  λ n job h k. rw (zero-add n) at (repair_targets_from_complete 0 jobs n job h k),
)
