-- ===== src/Fetcher/Validation/Split.antt =====
-- Which of the fetched jobs pass the validation, and where the others are listed.
use jobscout.Prelude.{
  ℕ, suc, ◌≡◌, refl, sym, ap, ◌∙◌, inl, inr, Bool, true, false, not, ◌&&◌, ◌||◌, List, [], ◌∷◌,
  ◌++◌, arith, append-nil, append_assoc, Option, if◌then◌else◌, Bool-cases,
}
use jobscout.Text.{Text, ◌==◌}
use jobscout.Text.Equality.{eq_iff}
use jobscout.Text.Dict.{Dict, text_Eq, get, get-put}
use jobscout.Domain.Job.{Job}
use jobscout.Fetcher.Urls.{UrlPackage}
use jobscout.Fetcher.Review.{entries_of, append_entries}
use jobscout.Fetcher.Validation.{
  Method, uses_reserved_placeholder_domain, is_llm_generated_job, job_has_required_company_identity,
  unusable_job_reason, verify_job_posting, verdict_on, entry_of, note_rejected, keep_if,
  validate_from, validate_fetched_jobs,
}

entries_of-append_entries :
    (r reason : Text) (es : List Text) (m : Dict Text (List Text))
    → entries_of (get r (append_entries reason es m))
      ≡ entries_of (get r m) ++ (if reason == r then es else [])
unfolding append_entries
entries_of-append_entries r reason es m =
    rw (get-put reason r (entries_of (get reason m) ++ es) m) (elim (Bool-cases (reason == r)) [
      | inl t ↦ rw (t, (eq_iff reason r).0 t) refl
      | inr f ↦ rw f (sym (append-nil (entries_of (get r m))))
    ])

module _ (urls : UrlPackage) where
  keep_if-if :
      (v : Bool × Text) (job : Job) (jobs : List Job)
      → keep_if urls v job jobs ≡ (if v.0 then job ∷ jobs else jobs)
  keep_if-if (true, reason) job jobs = refl
  keep_if-if (false, reason) job jobs = refl

  -- what a verdict adds to the list of a reason
  abbrev noted : Text → Job → Bool × Text → List Text
  noted r job v = if not v.0 && v.1 == r then entry_of urls job ∷ [] else []

  entries_of-note_rejected :
      (r : Text) (job : Job) (v : Bool × Text) (m : Dict Text (List Text))
      → entries_of (get r (note_rejected urls job v m)) ≡ entries_of (get r m) ++ noted r job v
  entries_of-note_rejected r job (true, reason) m = sym (append-nil (entries_of (get r m)))
  entries_of-note_rejected r job (false, reason) m =
      entries_of-append_entries r reason (entry_of urls job ∷ []) m

  module _ (probe : ℕ → Method → Text → Option ℕ) where
    -- Its posting would be verified as active, its company's website is not a placeholder, and if it
    -- comes from a language model, its company is known.
    abbrev pub passes : ℕ → Job → Bool
    passes i job =
        (verify_job_posting urls (probe i) job).0
        && (not (uses_reserved_placeholder_domain urls job.company_website)
            && (not (is_llm_generated_job job) || job_has_required_company_identity urls job))

    verdict-passes : (i : ℕ) (job : Job) → (verdict_on urls (probe i) job).0 ≡ passes i job
    unfolding verdict_on unusable_job_reason verify_job_posting
    verdict-passes i job = ground arith

    -- the jobs, from position `i`, that pass
    abbrev pub passing : ℕ → List Job → List Job
    passing i [] = []
    passing i (job ∷ jobs) =
        let rest = passing (suc i) jobs in if passes i job then job ∷ rest else rest

    -- the entries for the jobs that do not pass, for this reason
    abbrev pub refused : Text → ℕ → List Job → List Text
    refused r i [] = []
    refused r i (job ∷ jobs) =
        let rest = refused r (suc i) jobs in
        if not (passes i job) && (verdict_on urls (probe i) job).1 == r
        then entry_of urls job ∷ rest
        else rest

    validate_from-passing :
        (i : ℕ) (m : Dict Text (List Text)) (jobs : List Job)
        → (validate_from urls probe i m jobs).0 ≡ passing i jobs
    unfolding validate_from
    validate_from-passing i m [] = refl
    validate_from-passing i m (job ∷ jobs) =
        keep_if-if (verdict_on urls (probe i) job) job _
        ∙ rw
            (
              validate_from-passing (suc i)
                  (note_rejected urls job (verdict_on urls (probe i) job) m) jobs,
              verdict-passes i job,
            )
            refl

    refused-cons :
        (r : Text) (i : ℕ) (job : Job) (jobs : List Job)
        → noted r job (verdict_on urls (probe i) job) ++ refused r (suc i) jobs
          ≡ refused r i (job ∷ jobs)
    refused-cons r i job jobs =
        rw (verdict-passes i job)
          (elim (Bool-cases (not (passes i job) && (verdict_on urls (probe i) job).1 == r)) [
            | inl t ↦ rw t refl
            | inr f ↦ rw f refl
          ])

    validate_from-refused :
        (r : Text) (i : ℕ) (m : Dict Text (List Text)) (jobs : List Job)
        → entries_of (get r (validate_from urls probe i m jobs).1)
          ≡ entries_of (get r m) ++ refused r i jobs
    unfolding validate_from
    validate_from-refused r i m [] = sym (append-nil (entries_of (get r m)))
    validate_from-refused r i m (job ∷ jobs) =
        let v = verdict_on urls (probe i) job in
        validate_from-refused r (suc i) (note_rejected urls job v m) jobs
        ∙ (ap (λ es. es ++ refused r (suc i) jobs) (entries_of-note_rejected r job v m)
            ∙ (append_assoc (entries_of (get r m)) (noted r job v) (refused r (suc i) jobs)
                ∙ ap (λ es. entries_of (get r m) ++ es) (refused-cons r i job jobs)))

    -- The validation keeps, in their order, the jobs whose posting would be verified as active with the
    -- same answers of the network, whose company's website is no placeholder, and whose company is known
    -- if a language model gave them; and each reason lists, in their order, the others that have it.
    pub validate_fetched_jobs-IsSplit :
        (jobs : List Job)
        → ((validate_fetched_jobs urls probe jobs).0 ≡ passing 0 jobs)
          × ((r : Text)
              → entries_of (get r (validate_fetched_jobs urls probe jobs).1) ≡ refused r 0 jobs)
    unfolding validate_fetched_jobs get
    validate_fetched_jobs-IsSplit jobs =
        (validate_from-passing 0 [] jobs, λ r. validate_from-refused r 0 [] jobs)
