-- ===== src/Fetcher/CandidateCache/Decided.antt =====
-- What the cache decides on a key after the filter by the LLM recorded its decisions.
use jobscout.Prelude.{
  ℕ, suc, ◌≡◌, refl, inl, inr, Bool, true, false, not, ◌||◌, List, [], ◌∷◌, some, arith, is_empty,
  if◌then◌else◌, Bool-cases,
}
use jobscout.Text.{Text, codes, ◌==◌, trim_space, to_lower}
use jobscout.Text.Equality.{eq_iff, eq_refl}
use jobscout.Text.Trim.{trim_space_idem}
use jobscout.Domain.Job.{Job}
use jobscout.Domain.Unique.{seen_in}
use jobscout.Runtime.Stores.{Time}
use jobscout.Runtime.Stores.Candidates.{
  JobCandidateDecision, CandidateStore, decision_key_beq, normalize_decision_key,
  decision_is_skipped, stored_decision, upsert_decision, upsert_decisions_from,
  get_job_candidate_decision, is_expired,
}
use jobscout.Runtime.Stores.Candidates.Decisions.{get-upsert_decision, normalize_decision_key_idem}
use jobscout.Fetcher.Urls.{UrlPackage}
use jobscout.Fetcher.JobKey.{fetched_job_dedupe_key}
use jobscout.Fetcher.CandidateCache.{
  accepted, rejected, no_time, Signature, for_candidate, llm_filtering_decision_key, candidate_key,
  keyed_candidate, job_candidate_from_job, is_rejected,
}
use jobscout.Fetcher.CandidateCache.Recorded.{
  decision_on, job_candidate_decision, keys_of, llm_decision, llm_decisions,
}

-- Two keys for the same signature are equal when their candidates are.
decision_key_beq-for_candidate :
    (j k : Text) (sig : Signature)
    → decision_key_beq
        (normalize_decision_key (for_candidate j sig))
        (normalize_decision_key (for_candidate k sig))
      ≡ (trim_space j == trim_space k)
unfolding normalize_decision_key
decision_key_beq-for_candidate j k sig = ground (
  arith,
  eq_refl (trim_space sig.criteria_hash),
  eq_refl (trim_space sig.stage),
  eq_refl (trim_space sig.decision_version),
  eq_refl (to_lower (trim_space sig.llm_provider)),
  eq_refl (trim_space sig.llm_model),
)

stage_is_filled : is_empty (trim_space (codes "llm_job_filtering")) ≡ false
unfolding trim_space
stage_is_filled = refl

version_is_filled : is_empty (trim_space (codes "llm_job_filtering:v1")) ≡ false
unfolding trim_space
version_is_filled = refl

-- what is decided on a job with this key
abbrev verdict : Text → List Text → Text
verdict key after = if seen_in key after then accepted else rejected

verdict_is_filled :
    (key : Text) (after : List Text) → is_empty (trim_space (verdict key after)) ≡ false
unfolding trim_space
verdict_is_filled key after = elim (Bool-cases (seen_in key after)) [
  | inl kept ↦ rw kept refl
  | inr dropped ↦ rw dropped refl
]

verdict_rejects :
    (key : Text) (after : List Text)
    → (trim_space (verdict key after) == rejected) ≡ not (seen_in key after)
unfolding trim_space ◌==◌
verdict_rejects key after = elim (Bool-cases (seen_in key after)) [
  | inl kept ↦ rw kept refl
  | inr dropped ↦ rw dropped refl
]

other_than_empty : (k a : Text) → is_empty k ≡ true → is_empty a ≡ false → (k == a) ≡ false
unfolding ◌==◌
other_than_empty [] (_ ∷ _) h f = refl
other_than_empty _ _ h f = cc

same_key :
    (key asked : Text) (after : List Text) (b r : Bool)
    → (if b
        then not (seen_in asked after)
        else (if key == asked then not (seen_in key after) else r))
      ≡ (if key == asked || b then not (seen_in asked after) else r)
same_key key asked after b r = ground (arith, eq_iff key asked)

module _ (urls : UrlPackage) (hash provider model : Text)
    (filled : is_empty (trim_space hash) ≡ false) where
  abbrev sig : Signature
  sig = llm_filtering_decision_key hash provider model

  -- the decision on the job, for a candidate's key
  abbrev made : Text → Time → Text → Text → Job → JobCandidateDecision
  made key now dec reason job = record {
    key = normalize_decision_key (for_candidate key sig);
    decision = trim_space dec;
    reason = trim_space reason;
    job = job;
    decided_at = now;
    expires_at = no_time;
  }

  decision_on-made :
      (key : Text) (now : Time) (dec reason : Text) (job : Job)
      → is_empty key ≡ false
      → trim_space key ≡ key
      → decision_on urls (keyed_candidate urls key job now true) now sig dec reason job
        ≡ some (made key now dec reason job)
  unfolding normalize_decision_key
  decision_on-made key now dec reason job keyed trimmed = rw (keyed, trimmed) refl

  made-is_kept :
      (key : Text) (now : Time) (dec reason : Text) (job : Job)
      → is_empty key ≡ false
      → trim_space key ≡ key
      → is_empty (trim_space dec) ≡ false
      → decision_is_skipped (made key now dec reason job) ≡ false
  unfolding decision_is_skipped normalize_decision_key llm_filtering_decision_key
  made-is_kept key now dec reason job keyed trimmed d =
      rw
        (
          trim_space_idem key,
          trimmed,
          keyed,
          trim_space_idem hash,
          filled,
          trim_space_idem dec,
          d,
          trim_space_idem (codes "llm_job_filtering"),
          trim_space_idem (codes "llm_job_filtering:v1"),
          stage_is_filled,
          version_is_filled,
        )
        refl

  -- whether the cache rejects a job with this key
  abbrev rejects : Time → Text → CandidateStore → Bool
  rejects later key s =
      is_rejected urls (get_job_candidate_decision later (for_candidate key sig) s)

  is_rejected-upsert_decision :
      (clock later now : Time) (key asked dec reason : Text) (job : Job) (s : CandidateStore)
      → is_empty key ≡ false
      → trim_space key ≡ key
      → trim_space asked ≡ asked
      → is_empty (trim_space dec) ≡ false
      → rejects later asked (upsert_decision clock (made key now dec reason job) s)
        ≡ (if key == asked then trim_space dec == rejected else rejects later asked s)
  unfolding is_expired stored_decision
  is_rejected-upsert_decision clock later now key asked dec reason job s keyed trimmed trimmed_asked
        d =
      rw
        (
          get-upsert_decision clock later (made key now dec reason job) s (for_candidate asked sig),
          made-is_kept key now dec reason job keyed trimmed d,
          normalize_decision_key_idem,
          decision_key_beq-for_candidate key asked sig,
          trimmed,
          trimmed_asked,
        )
        (elim (Bool-cases (key == asked)) [ inl same ↦ rw same refl | inr other ↦ rw other refl ])

  llm_decision-made :
      (now : Time) (after : List Text) (job : Job)
      → is_empty (candidate_key urls job) ≡ false
      → (reason : Text) × (llm_decision urls now sig after job
          ≡ some (
              made
                (candidate_key urls job)
                now
                (verdict (candidate_key urls job) after)
                reason
                job))
  unfolding job_candidate_decision job_candidate_from_job
  llm_decision-made now after job keyed =
      let trimmed = trim_space_idem (fetched_job_dedupe_key urls job) in
      elim (Bool-cases (seen_in (candidate_key urls job) after)) [
        | inl kept ↦ (
          [],
          rw kept (decision_on-made (candidate_key urls job) now accepted [] job keyed trimmed),
        )
        | inr dropped ↦ (
          codes "llm job filtering",
          rw dropped (
              decision_on-made (candidate_key urls job) now rejected (codes "llm job filtering") job
                keyed trimmed),
        )
      ]

  -- the decisions for the jobs `before`, one after the other
  pub is_rejected-llm_decisions :
      (clock : ℕ → Time) (i : ℕ) (later now : Time) (after : List Text) (asked : Text)
      (before : List Job) (s : CandidateStore)
      → trim_space asked ≡ asked
      → is_empty asked ≡ false
      → rejects later asked
          (upsert_decisions_from clock i (llm_decisions urls now sig after before) s)
        ≡ (if seen_in asked (keys_of urls before)
            then not (seen_in asked after)
            else rejects later asked s)
  unfolding upsert_decisions_from seen_in
  is_rejected-llm_decisions clock i later now after asked [] s trimmed filled_asked = refl
  is_rejected-llm_decisions clock i later now after asked (job ∷ before) s trimmed filled_asked =
      let key = candidate_key urls job in
      elim (Bool-cases (is_empty key)) [
        | inl unkeyed ↦
            rw (unkeyed, other_than_empty key asked unkeyed filled_asked)
              (is_rejected-llm_decisions clock i later now after asked before s trimmed
                filled_asked)
        | inr keyed ↦
            let (reason, decided) = llm_decision-made now after job keyed in
            let d = made key now (verdict key after) reason job in
            rw
              (
                keyed,
                decided,
                is_rejected-llm_decisions clock (suc i) later now after asked before
                    (upsert_decision (clock i) d s) trimmed filled_asked,
                is_rejected-upsert_decision (clock i) later now key asked (verdict key after) reason
                    job s keyed (trim_space_idem (fetched_job_dedupe_key urls job)) trimmed
                    (verdict_is_filled key after),
                verdict_rejects key after,
              )
              (same_key key asked after (seen_in asked (keys_of urls before))
                (rejects later asked s))
      ]
