-- ===== src/Runtime/Stores/Candidates.antt =====
-- memoryCandidateStore: job candidates and the decisions on them. Each reading of the clock is an
-- argument; `clock i` is the reading for the candidate or decision at place `i`.
pub mod Decisions
pub mod Prune
use jobscout.Prelude.{
  ℕ, suc, ◌≡◌, refl, ap, Bool, true, false, not, ◌&&◌, ◌||◌, List, [], ◌∷◌, Option, none, some,
  is_some, arith, is_empty, ltb, if◌then◌else◌, ◌↔◌,
}
use jobscout.Text.{Text, ◌==◌, to_lower, trim_space}
use jobscout.Text.Equality.{eq_iff}
use jobscout.Text.Dict.{Eq, Dict, text_Eq, get, put, get-put}
use jobscout.Text.Dict.Unique.{remove_if}
use jobscout.Domain.Job.{Job}
use jobscout.Domain.Metadata.{normalize_metadata, clone_metadata}
use jobscout.Runtime.Stores.{Time, is_zero_time}

pub record JobCandidate : Type 0 where
  pub key : Text
  pub source : Text
  pub source_key : Text
  pub apply_url : Text
  pub canonical_apply_url : Text
  pub company : Text
  pub title : Text
  pub job : Job
  pub active : Bool
  pub first_seen : Time
  pub last_seen : Time

pub record JobCandidateDecisionKey : Type 0 where
  pub candidate_key : Text
  pub criteria_hash : Text
  pub stage : Text
  pub decision_version : Text
  pub llm_provider : Text
  pub llm_model : Text

pub record JobCandidateDecision : Type 0 where
  pub key : JobCandidateDecisionKey
  pub decision : Text
  pub reason : Text
  pub job : Job
  pub decided_at : Time
  pub expires_at : Time

-- `==` on the keys of the map of decisions
abbrev pub decision_key_beq : JobCandidateDecisionKey → JobCandidateDecisionKey → Bool
decision_key_beq a b =
    a.candidate_key == b.candidate_key
    && a.criteria_hash == b.criteria_hash
    && a.stage == b.stage
    && a.decision_version == b.decision_version
    && a.llm_provider == b.llm_provider
    && a.llm_model == b.llm_model

pub decision_key_beq_iff : (a b : JobCandidateDecisionKey) → (decision_key_beq a b ≡ true) ↔ (a ≡ b)
decision_key_beq_iff a b = ground (
  arith,
  eq_iff a.candidate_key b.candidate_key,
  eq_iff a.criteria_hash b.criteria_hash,
  eq_iff a.stage b.stage,
  eq_iff a.decision_version b.decision_version,
  eq_iff a.llm_provider b.llm_provider,
  eq_iff a.llm_model b.llm_model,
)

instance abbrev pub decision_key_Eq : Eq JobCandidateDecisionKey
decision_key_Eq = record { beq = decision_key_beq; beq_iff = decision_key_beq_iff }

pub record CandidateStore : Type 0 where
  pub candidates : Dict Text JobCandidate
  pub decisions : Dict JobCandidateDecisionKey JobCandidateDecision

abbrev pub empty_store : CandidateStore
empty_store = record { candidates = []; decisions = [] }

abbrev or_now : Time → Time → Time
or_now t now = if is_zero_time t then now else t

-- the first sighting that an upsert stores, from the given one, the stored one and the clock
unfoldable pub first_seen_for : Time → Option JobCandidate → Time → Time
first_seen_for given none now = or_now given now
first_seen_for given (some existing) now =
    if is_zero_time given then or_now existing.first_seen now else given

-- the candidate as it is stored
unfoldable pub stored_candidate : JobCandidate → Option JobCandidate → Time → JobCandidate
unfolding first_seen_for
stored_candidate candidate existing now = record candidate {
  key = trim_space candidate.key;
  first_seen = first_seen_for candidate.first_seen existing now;
  last_seen = or_now candidate.last_seen now;
  job = record candidate.job { metadata = normalize_metadata candidate.job.metadata };
}

unfoldable pub upsert_candidate : Time → JobCandidate → CandidateStore → CandidateStore
unfolding stored_candidate
upsert_candidate now candidate s =
    let key = trim_space candidate.key in
    if is_empty key then s else record s {
      candidates = put key (stored_candidate candidate (get key s.candidates) now) s.candidates;
    }

-- the loop of UpsertJobCandidates
unfoldable pub upsert_candidates_from :
    (ℕ → Time) → ℕ → List JobCandidate → CandidateStore → CandidateStore
unfolding upsert_candidate
upsert_candidates_from clock i [] s = s
upsert_candidates_from clock i (c ∷ cs) s =
    upsert_candidates_from clock (suc i) cs (upsert_candidate (clock i) c s)

unfoldable pub upsert_job_candidates :
    (ℕ → Time) → List JobCandidate → CandidateStore → CandidateStore
unfolding upsert_candidates_from
upsert_job_candidates clock candidates s = upsert_candidates_from clock 0 candidates s

abbrev reread_job : Job → Job
reread_job job = record job { metadata = normalize_metadata (clone_metadata job.metadata) }

unfoldable pub get_job_candidate : Text → CandidateStore → Option JobCandidate
get_job_candidate key s = elim (get (trim_space key) s.candidates) [
  | none ↦ none
  | some candidate ↦ some (record candidate { job = reread_job candidate.job })
]

unfoldable pub normalize_decision_key : JobCandidateDecisionKey → JobCandidateDecisionKey
normalize_decision_key key = record {
  candidate_key = trim_space key.candidate_key;
  criteria_hash = trim_space key.criteria_hash;
  stage = trim_space key.stage;
  decision_version = trim_space key.decision_version;
  llm_provider = to_lower (trim_space key.llm_provider);
  llm_model = trim_space key.llm_model;
}

-- the two tests after which an upsert skips a decision
unfoldable pub decision_is_skipped : JobCandidateDecision → Bool
unfolding normalize_decision_key
decision_is_skipped d =
    let key = normalize_decision_key d.key in
    is_empty key.candidate_key
    || is_empty key.criteria_hash
    || is_empty key.stage
    || is_empty key.decision_version
    || is_empty (trim_space d.decision)

unfoldable pub stored_decision : JobCandidateDecision → Time → JobCandidateDecision
stored_decision d now = record d {
  key = normalize_decision_key d.key;
  decided_at = or_now d.decided_at now;
  job = record d.job { metadata = normalize_metadata d.job.metadata };
}

unfoldable pub upsert_decision : Time → JobCandidateDecision → CandidateStore → CandidateStore
unfolding decision_is_skipped stored_decision
upsert_decision now d s = if decision_is_skipped d then s else record s {
  decisions = put (normalize_decision_key d.key) (stored_decision d now) s.decisions;
}

unfoldable pub upsert_decisions_from :
    (ℕ → Time) → ℕ → List JobCandidateDecision → CandidateStore → CandidateStore
unfolding upsert_decision
upsert_decisions_from clock i [] s = s
upsert_decisions_from clock i (d ∷ ds) s =
    upsert_decisions_from clock (suc i) ds (upsert_decision (clock i) d s)

-- `!ExpiresAt.IsZero() && ExpiresAt.Before(now)`
unfoldable pub is_expired : Time → JobCandidateDecision → Bool
is_expired now d = not (is_zero_time d.expires_at) && ltb d.expires_at now

abbrev unless_expired : Time → Option JobCandidateDecision → Option JobCandidateDecision
unless_expired now none = none
unless_expired now (some d) =
    if is_expired now d then none else some (record d { job = reread_job d.job })

unfoldable pub get_job_candidate_decision :
    Time → JobCandidateDecisionKey → CandidateStore → Option JobCandidateDecision
unfolding is_expired
get_job_candidate_decision now key s =
    unless_expired now (get (normalize_decision_key key) s.decisions)

-- PruneJobCandidateCache: the number of candidates that go, and the store after
unfoldable pub prune_job_candidate_cache : Time → CandidateStore → ℕ × CandidateStore
unfolding remove_if
prune_job_candidate_cache older_than s =
    if is_zero_time older_than
    then (0, s)
    else let (removed, candidates) = remove_if (λ _ c. ltb c.last_seen older_than) s.candidates in
      let (_, decisions) =
        remove_if (λ k _. not (is_some (get k.candidate_key candidates))) s.decisions in
      (removed, record { candidates = candidates; decisions = decisions })
