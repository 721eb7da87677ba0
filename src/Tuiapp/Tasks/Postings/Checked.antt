-- ===== src/Tuiapp/Tasks/Postings/Checked.antt =====
-- Which postings are marked as expired.
use jobscout.Prelude.{
  ◌≡◌, refl, sym, ap, ◌∙◌, inl, inr, Bool, true, false, not, ◌&&◌, ◌||◌, List, [], ◌∷◌, Option,
  none, some, arith, is_empty, is_some, map, if◌then◌else◌, Bool-cases,
}
use jobscout.Prelude.Sorting.{select}
use jobscout.Text.{Text, ◌==◌}
use jobscout.Text.Equality.{eq_iff}
use jobscout.Text.Dict.{Dict, text_Eq, get, put, get-put, get-nil}
use jobscout.Domain.Job.{Job}
use jobscout.Domain.Unique.{seen_in}
use jobscout.Tuiapp.Tasks.{background_job_key}
use jobscout.Tuiapp.Tasks.Postings.{
  PostingResult, posting_validation_status, targets_from, posting_validation_targets,
  validate_postings, inactive_from, gone, mark, expire_from, expire_inactive_postings,
}

-- A result says that the posting with the key is not active.
abbrev found_inactive : List PostingResult → Text → Bool
found_inactive [] key = false
found_inactive (r ∷ results) key = (not r.active && r.key == key) || found_inactive results key

is_some-inactive_from :
    (inactive : Dict Text Text) (results : List PostingResult) (key : Text)
    → is_some (get key (inactive_from inactive results))
      ≡ (found_inactive results key || is_some (get key inactive))
unfolding inactive_from
is_some-inactive_from inactive [] key = refl
is_some-inactive_from inactive (r ∷ results) key = ground (
  arith,
  is_some-inactive_from inactive results key,
  is_some-inactive_from (put r.key r.reason inactive) results key,
  get-put r.key key r.reason inactive,
)

mark-cases :
    (job : Job) (open_job p : Bool) (o : Option Text) (all expired : List Job)
    → is_some o ≡ p
    → mark job open_job o (all, expired) ≡ (
      (if open_job && p then gone job else job) ∷ all,
      if open_job && p then gone job ∷ expired else expired,
    )
mark-cases job false p o all expired h = refl
mark-cases job true p none all expired h = rw (← h) refl
mark-cases job true p (some reason) all expired h = rw (← h) refl

gone_if :
    (b : Bool) (job : Job) (jobs : List Job)
    → (if b then gone job ∷ map gone jobs else map gone jobs)
      ≡ map gone (if b then job ∷ jobs else jobs)
gone_if true job jobs = refl
gone_if false job jobs = refl

module _ (p : Text → Bool) where
  -- the job is open, and its key passes
  abbrev pub expires : Job → Bool
  expires job = posting_validation_status job.status && p (background_job_key job)

  abbrev pub marked : Job → Job
  marked job = if expires job then gone job else job

  marked_none : (jobs : List Job) → ((key : Text) → p key ≡ false) → map marked jobs ≡ jobs
  marked_none [] h = refl
  marked_none (job ∷ jobs) h = ground (arith, h (background_job_key job), marked_none jobs h)

  select_none : (jobs : List Job) → ((key : Text) → p key ≡ false) → select expires jobs ≡ []
  select_none [] h = refl
  select_none (job ∷ jobs) h = ground (arith, h (background_job_key job), select_none jobs h)

  expire_from-marked :
      (inactive : Dict Text Text) (jobs : List Job)
      → ((key : Text) → is_some (get key inactive) ≡ p key)
      → expire_from inactive jobs ≡ (map marked jobs, map gone (select expires jobs))
  unfolding expire_from
  expire_from-marked inactive [] h = refl
  expire_from-marked inactive (job ∷ jobs) h =
      ap (mark job (posting_validation_status job.status) (get (background_job_key job) inactive))
        (expire_from-marked inactive jobs h)
      ∙ (mark-cases job (posting_validation_status job.status) (p (background_job_key job)) _
            (map marked jobs) (map gone (select expires jobs)) (h (background_job_key job))
          ∙ ap (λ x. (marked job ∷ map marked jobs, x))
              (gone_if (expires job) job (select expires jobs)))

inactive_of_shortcut :
    (results : List PostingResult)
    → (is_empty results || is_empty (inactive_from [] results)) ≡ true
    → inactive_from [] results ≡ []
unfolding inactive_from
inactive_of_shortcut [] h = refl
inactive_of_shortcut (r ∷ results) h = nil_of_is_empty _ h
  where
    nil_of_is_empty : (m : Dict Text Text) → is_empty m ≡ true → m ≡ []
    nil_of_is_empty [] e = refl
    nil_of_is_empty (x ∷ m) e = cc

-- For any test `p` that says which keys the results report as inactive: the jobs are marked by it.
module _ (p : Text → Bool) (results : List PostingResult)
    (agrees : (key : Text) → found_inactive results key ≡ p key) where
  in_map : (key : Text) → is_some (get key (inactive_from [] results)) ≡ p key
  unfolding get
  in_map key = ground (arith, agrees key, is_some-inactive_from [] results key)

  expire_inactive_postings-marked :
      (jobs : List Job)
      → expire_inactive_postings results jobs
        ≡ (map (marked p) jobs, map gone (select (expires p) jobs))
  unfolding expire_inactive_postings
  expire_inactive_postings-marked jobs =
      elim (Bool-cases (is_empty results || is_empty (inactive_from [] results))) [
        | inl e ↦
            let none_found : (key : Text) → p key ≡ false = λ key.
              sym (in_map key)
              ∙ (ap (λ m. is_some (get key m)) (inactive_of_shortcut results e)
                  ∙ ap is_some (get-nil key)) in
            rw e (rw (marked_none p jobs none_found, select_none p jobs none_found) refl)
        | inr e ↦ rw e (expire_from-marked p (inactive_from [] results) jobs in_map)
      ]

-- the first open job with the key
abbrev pub first_open : Text → List Job → Option Job
first_open key [] = none
first_open key (job ∷ jobs) =
    let rest = first_open key jobs in
    if posting_validation_status job.status && background_job_key job == key then some job else rest

module _ (verify : Job → (Bool × Text) × Bool) where
  -- The check found that the posting is not active, and did not run out of time.
  abbrev pub refuted : Option Job → Bool
  refuted none = false
  refuted (some job) = not (verify job).0.0 && not (verify job).1

  -- The check refutes the first open job with the key.
  abbrev pub refuted_key : List Job → Text → Bool
  refuted_key jobs key = not (is_empty key) && refuted (first_open key jobs)

  found_inactive-validate_postings :
      (seen : List Text) (jobs : List Job) (key : Text)
      → found_inactive (validate_postings verify (targets_from seen jobs)) key
        ≡ (not (seen_in key seen) && refuted_key jobs key)
  unfolding validate_postings targets_from seen_in
  found_inactive-validate_postings seen [] key = ground arith
  found_inactive-validate_postings seen (job ∷ jobs) key =
      let skipped = found_inactive-validate_postings seen jobs key in
      let kept = found_inactive-validate_postings (background_job_key job ∷ seen) jobs key in
      elim (Bool-cases (background_job_key job == key)) [
        | inl t ↦
            let e = (eq_iff (background_job_key job) key).0 t in
            ground (arith, t, ap (λ k. seen_in k seen) e, ap is_empty e, skipped, kept)
        | inr n ↦ ground (arith, n, skipped, kept)
      ]

  -- A check of the open postings marks as expired exactly the open jobs whose key stands for a posting
  -- that was found inactive in time, in the check of the first open job with that key, and reports
  -- them in their order; no other job changes.
  pub check_postings-marked :
      (jobs : List Job)
      → expire_inactive_postings (validate_postings verify (posting_validation_targets jobs)) jobs
        ≡ (
          map (marked (refuted_key jobs)) jobs,
          map gone (select (expires (refuted_key jobs)) jobs),
        )
  unfolding posting_validation_targets seen_in
  check_postings-marked jobs =
      expire_inactive_postings-marked (refuted_key jobs)
        (validate_postings verify (targets_from [] jobs))
        (λ key. found_inactive-validate_postings [] jobs key) jobs
