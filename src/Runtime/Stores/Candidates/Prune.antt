-- ===== src/Runtime/Stores/Candidates/Prune.antt =====
-- Pruning old candidates, and the well-formedness of the store.
use jobscout.Prelude.{ℕ, ◌+◌, ◌≡◌, false, not, is_some, length, is_empty, ltb, Bool-cases, inl, inr}
use jobscout.Text.{Text, trim_space}
use jobscout.Text.Dict.{text_Eq, get}
use jobscout.Text.Dict.Unique.{
  IsUnique, put-IsUnique, unless, get-remove_if, remove_if-IsUnique, length-remove_if,
}
use jobscout.Runtime.Stores.{Time, is_zero_time}
use jobscout.Runtime.Stores.Candidates.{
  JobCandidate, JobCandidateDecision, JobCandidateDecisionKey, CandidateStore, decision_key_Eq,
  empty_store, upsert_candidate, decision_is_skipped, upsert_decision, prune_job_candidate_cache,
}

-- Each map holds a key once.
pub record IsWellFormed (s : CandidateStore) : Type 0 where
  pub candidates : IsUnique s.candidates
  pub decisions : IsUnique s.decisions

upsert_candidate-IsWellFormed :
    (now : Time) (c : JobCandidate) (s : CandidateStore)
    → IsWellFormed s
    → IsWellFormed (upsert_candidate now c s)
unfolding upsert_candidate
upsert_candidate-IsWellFormed now c s h = elim (Bool-cases (is_empty (trim_space c.key))) [
  | inl e ↦ rw e h
  | inr e ↦
      rw e (record {
        candidates = put-IsUnique _ _ s.candidates h.candidates;
        decisions = h.decisions;
      })
]

upsert_decision-IsWellFormed :
    (now : Time) (d : JobCandidateDecision) (s : CandidateStore)
    → IsWellFormed s
    → IsWellFormed (upsert_decision now d s)
unfolding upsert_decision
upsert_decision-IsWellFormed now d s h = elim (Bool-cases (decision_is_skipped d)) [
  | inl e ↦ rw e h
  | inr e ↦
      rw e
        (record { candidates = h.candidates; decisions = put-IsUnique _ _ s.decisions h.decisions })
]

-- The operations of the store that write.
pub data Step : CandidateStore → CandidateStore → Type 0 where
  candidate :
      (now : Time) (c : JobCandidate) (s : CandidateStore) → Step s (upsert_candidate now c s)
  decision :
      (now : Time) (d : JobCandidateDecision) (s : CandidateStore)
      → Step s (upsert_decision now d s)
  prune :
      (older_than : Time) (s : CandidateStore) → Step s (prune_job_candidate_cache older_than s).1

-- What a client can bring about, whatever it calls, with whatever the clock says.
pub data Reachable : CandidateStore → Type 0 where
  start : Reachable empty_store
  next : {s t : CandidateStore} → Reachable s → Step s t → Reachable t

-- What a pruning does, read through the maps.
pub record IsPruned (older_than : Time) (s : CandidateStore) (n : ℕ) (t : CandidateStore)
    : Type 0 where
  -- a candidate stays exactly if it was seen since
  pub candidates :
      (k : Text)
      → get k t.candidates ≡ unless (λ _ c. ltb c.last_seen older_than) k (get k s.candidates)
  -- a decision stays exactly if its candidate stays
  pub decisions :
      (k : JobCandidateDecisionKey)
      → get k t.decisions
        ≡ unless (λ k' _. not (is_some (get k'.candidate_key t.candidates))) k (get k s.decisions)
  pub counted : n + length t.candidates ≡ length s.candidates

-- Pruning with a time removes exactly the candidates that were last seen before it, and the
-- decisions on candidates that are not there; it returns the number of candidates removed.
pub prune-IsPruned :
    (older_than : Time) (s : CandidateStore)
    → IsWellFormed s
    → is_zero_time older_than ≡ false
    → IsPruned older_than s
        (prune_job_candidate_cache older_than s).0
        (prune_job_candidate_cache older_than s).1
unfolding prune_job_candidate_cache
prune-IsPruned older_than s h set = rw set (record {
  candidates = get-remove_if _ s.candidates h.candidates;
  decisions = get-remove_if _ s.decisions h.decisions;
  counted = length-remove_if _ s.candidates;
})

prune-IsWellFormed :
    (older_than : Time) (s : CandidateStore)
    → IsWellFormed s
    → IsWellFormed (prune_job_candidate_cache older_than s).1
unfolding prune_job_candidate_cache
prune-IsWellFormed older_than s h = elim (Bool-cases (is_zero_time older_than)) [
  | inl e ↦ rw e h
  | inr e ↦ rw e (record {
    candidates = remove_if-IsUnique _ s.candidates h.candidates;
    decisions = remove_if-IsUnique _ s.decisions h.decisions;
  })
]

Step-IsWellFormed : {s t : CandidateStore} → Step s t → IsWellFormed s → IsWellFormed t
Step-IsWellFormed (candidate now c s) h = upsert_candidate-IsWellFormed now c s h
Step-IsWellFormed (decision now d s) h = upsert_decision-IsWellFormed now d s h
Step-IsWellFormed (prune older_than s) h = prune-IsWellFormed older_than s h

-- Whatever a client does to an empty store, each of its maps holds a key once.
pub Reachable-IsWellFormed : {s : CandidateStore} → Reachable s → IsWellFormed s
Reachable-IsWellFormed start = record { candidates = tt; decisions = tt }
Reachable-IsWellFormed (next r st) = Step-IsWellFormed st (Reachable-IsWellFormed r)
