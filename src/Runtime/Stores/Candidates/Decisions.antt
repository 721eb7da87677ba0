-- ===== src/Runtime/Stores/Candidates/Decisions.antt =====
-- What is read back from the store of candidates after it was written.
use jobscout.Prelude.{
  ℕ, suc, ◌≡◌, refl, false, List, [], ◌∷◌, Option, none, some, arith, is_empty, All, Bool-cases,
  inl, inr, if◌then◌else◌,
}
use jobscout.Text.{Text, ◌==◌, trim_space}
use jobscout.Text.Trim.{trim_space_idem}
use jobscout.Text.Case.{to_lower_idem, trim_space-to_lower}
use jobscout.Text.Equality.{eq_iff}
use jobscout.Text.Dict.{text_Eq, get, get-put}
use jobscout.Domain.Metadata.Normal.{normalize-clone-normalize_metadata}
use jobscout.Runtime.Stores.{Time, is_zero_time}
use jobscout.Runtime.Stores.Candidates.{
  JobCandidate, JobCandidateDecision, JobCandidateDecisionKey, CandidateStore, decision_key_Eq,
  decision_key_beq, first_seen_for, stored_candidate, upsert_candidate, upsert_candidates_from,
  upsert_job_candidates, get_job_candidate, normalize_decision_key, decision_is_skipped,
  stored_decision, upsert_decision, is_expired, unless_expired, get_job_candidate_decision,
  reread_job,
}

reread-stored :
    (c : JobCandidate) (e : Option JobCandidate) (now : Time)
    → reread_job (stored_candidate c e now).job ≡ (stored_candidate c e now).job
unfolding stored_candidate
reread-stored c e now = rw (normalize-clone-normalize_metadata c.job.metadata) refl

-- A candidate that is stored is read back as stored, under its key with or without white space
-- around it; no other candidate changes, and one with a blank key changes nothing.
pub get-upsert_candidate :
    (now : Time) (c : JobCandidate) (s : CandidateStore) (k : Text)
    → get_job_candidate k (upsert_candidate now c s) ≡ (
        if is_empty (trim_space c.key)
        then get_job_candidate k s
        else if trim_space c.key == trim_space k
        then some (stored_candidate c (get (trim_space c.key) s.candidates) now)
        else get_job_candidate k s)
unfolding get_job_candidate upsert_candidate
get-upsert_candidate now c s k = elim (Bool-cases (is_empty (trim_space c.key))) [
  | inl e ↦ rw e refl
  | inr e ↦ rw e (
      ground (
        arith,
        get-put (trim_space c.key) (trim_space k)
            (stored_candidate c (get (trim_space c.key) s.candidates) now) s.candidates,
        reread-stored c (get (trim_space c.key) s.candidates) now,
      ))
]

-- A stored candidate with a first sighting.
abbrev SeenAt : Text → Time → CandidateStore → Type 0
SeenAt k t s = (e : JobCandidate) × (get k s.candidates ≡ some e) × (e.first_seen ≡ t)

upsert_candidate-SeenAt :
    (now : Time) (c : JobCandidate) (s : CandidateStore) (k : Text) (t : Time)
    → c.first_seen ≡ 0
    → is_zero_time t ≡ false
    → SeenAt k t s
    → SeenAt k t (upsert_candidate now c s)
unfolding upsert_candidate stored_candidate first_seen_for
upsert_candidate-SeenAt now c s k t h nz (e, stored, seen) =
    elim (Bool-cases (is_empty (trim_space c.key))) [
      | inl blank ↦ rw blank (e, stored, seen)
      | inr full ↦ rw full (elim (Bool-cases (trim_space c.key == k)) [
        | inl same ↦ (
          stored_candidate c (some e) now,
          ground (
            arith,
            eq_iff (trim_space c.key) k,
            get-put (trim_space c.key) k
                (stored_candidate c (get (trim_space c.key) s.candidates) now) s.candidates,
          ),
          ground arith,
        )
        | inr other ↦ (
          e,
          ground (
            arith,
            get-put (trim_space c.key) k
                (stored_candidate c (get (trim_space c.key) s.candidates) now) s.candidates,
          ),
          seen,
        )
      ])
    ]

upsert_candidates_from-SeenAt :
    (clock : ℕ → Time) (i : ℕ) (cs : List JobCandidate) (s : CandidateStore) (k : Text) (t : Time)
    → All (λ c. c.first_seen ≡ 0) cs
    → is_zero_time t ≡ false
    → SeenAt k t s
    → SeenAt k t (upsert_candidates_from clock i cs s)
unfolding upsert_candidates_from
upsert_candidates_from-SeenAt clock i [] s k t h nz seen = seen
upsert_candidates_from-SeenAt clock i (c ∷ cs) s k t (h, hs) nz seen =
    upsert_candidates_from-SeenAt clock (suc i) cs (upsert_candidate (clock i) c s) k t hs nz
      (upsert_candidate-SeenAt (clock i) c s k t h nz seen)

-- A candidate that has been seen keeps the time of its first sighting through any number of upserts
-- that give none.
pub first_seen_stable :
    (clock : ℕ → Time) (cs : List JobCandidate) (s : CandidateStore) (k : Text) (e : JobCandidate)
    → All (λ c. c.first_seen ≡ 0) cs
    → get k s.candidates ≡ some e
    → is_zero_time e.first_seen ≡ false
    → (e' : JobCandidate) × (get k (upsert_job_candidates clock cs s).candidates ≡ some e')
      × (e'.first_seen ≡ e.first_seen)
unfolding upsert_job_candidates
first_seen_stable clock cs s k e h stored nz =
    upsert_candidates_from-SeenAt clock 0 cs s k e.first_seen h nz (e, stored, refl)

pub normalize_decision_key_idem :
    (key : JobCandidateDecisionKey)
    → normalize_decision_key (normalize_decision_key key) ≡ normalize_decision_key key
unfolding normalize_decision_key
normalize_decision_key_idem key = simp (trim_space-to_lower, trim_space_idem, to_lower_idem)

reread-stored_decision :
    (d : JobCandidateDecision) (now : Time)
    → reread_job (stored_decision d now).job ≡ (stored_decision d now).job
unfolding stored_decision
reread-stored_decision d now = rw (normalize-clone-normalize_metadata d.job.metadata) refl

unless_expired-stored :
    (later now : Time) (d : JobCandidateDecision)
    → unless_expired later (some (stored_decision d now))
      ≡ (if is_expired later d then none else some (stored_decision d now))
unfolding is_expired stored_decision
unless_expired-stored later now d = ground (arith, reread-stored_decision d now)

-- A decision that is complete is read back as stored under its normalised key, until it expires; an
-- incomplete one changes nothing, and no upsert changes another decision.
pub get-upsert_decision :
    (now later : Time) (d : JobCandidateDecision) (s : CandidateStore)
    (key : JobCandidateDecisionKey)
    → get_job_candidate_decision later key (upsert_decision now d s) ≡ (
        if decision_is_skipped d
        then get_job_candidate_decision later key s
        else if decision_key_beq (normalize_decision_key d.key) (normalize_decision_key key)
        then (if is_expired later d then none else some (stored_decision d now))
        else get_job_candidate_decision later key s)
unfolding get_job_candidate_decision upsert_decision
get-upsert_decision now later d s key = elim (Bool-cases (decision_is_skipped d)) [
  | inl e ↦ rw e refl
  | inr e ↦
      rw
        (
          e,
          get-put (normalize_decision_key d.key) (normalize_decision_key key)
              (stored_decision d now) s.decisions,
        )
        (elim (Bool-cases
          (decision_key_beq (normalize_decision_key d.key) (normalize_decision_key key))) [
            | inl same ↦ rw same (unless_expired-stored later now d)
            | inr other ↦ rw other refl
          ])
]

-- It does not matter whether a decision is asked for by its key as given or as stored.
pub get_decision-normalize_key :
    (now : Time) (key : JobCandidateDecisionKey) (s : CandidateStore)
    → get_job_candidate_decision now (normalize_decision_key key) s
      ≡ get_job_candidate_decision now key s
unfolding get_job_candidate_decision
get_decision-normalize_key now key s = rw normalize_decision_key_idem refl
