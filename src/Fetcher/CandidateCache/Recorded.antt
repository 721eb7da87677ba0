-- ===== src/Fetcher/CandidateCache/Recorded.antt =====
-- internal/fetcher/candidate_cache.go: the decisions that a fetch records, by the criteria and by the filter
-- of the LLM. `urls` and `now` are those of Fetcher/CandidateCache.antt.
use jobscout.Prelude.{
  ℕ, true, not, ◌||◌, List, [], ◌∷◌, ◌++◌, Option, none, some, is_empty, map, if◌then◌else◌,
}
use jobscout.Text.{Text, codes, trim_space, to_lower}
use jobscout.Text.Dict.{Dict, text_Eq}
use jobscout.Domain.Job.{Job}
use jobscout.Domain.Unique.{seen_in}
use jobscout.Runtime.Stores.{Time}
use jobscout.Runtime.Stores.Candidates.{
  JobCandidate, JobCandidateDecision, CandidateStore, upsert_job_candidates, upsert_decisions_from,
}
use jobscout.Fetcher.Urls.{UrlPackage}
use jobscout.Fetcher.CandidateCache.{
  accepted, rejected, no_time, Signature, deterministic_candidate_decision_key, candidate_key,
  job_candidate_from_job, candidates_of,
}

-- deterministicCandidateDecisionReasons
abbrev deterministic_reasons : List Text
deterministic_reasons =
    codes "title excludes"
    ∷ codes "title requirements"
    ∷ codes "title includes"
    ∷ codes "industry excludes"
    ∷ codes "pay"
    ∷ codes "work setting"
    ∷ []

module _ (urls : UrlPackage) where
  abbrev pub decision_on :
      Option JobCandidate → Time → Signature → Text → Text → Job → Option JobCandidateDecision
  decision_on none now signature decision reason job = none
  decision_on (some candidate) now signature decision reason job = some (record {
    key = record {
      candidate_key = candidate.key;
      criteria_hash = trim_space signature.criteria_hash;
      stage = trim_space signature.stage;
      decision_version = trim_space signature.decision_version;
      llm_provider = to_lower (trim_space signature.llm_provider);
      llm_model = trim_space signature.llm_model;
    };
    decision = trim_space decision;
    reason = trim_space reason;
    job = job;
    decided_at = now;
    expires_at = no_time;
  })

  unfoldable pub job_candidate_decision :
      Time → Signature → Text → Text → Job → Option JobCandidateDecision
  job_candidate_decision now signature decision reason job =
      decision_on (job_candidate_from_job urls job now true) now signature decision reason job

  abbrev pub add_decision :
      Option JobCandidateDecision → List JobCandidateDecision → List JobCandidateDecision
  add_decision none ds = ds
  add_decision (some d) ds = d ∷ ds

  abbrev pub decisions_of : Time → Signature → Text → Text → List Job → List JobCandidateDecision
  decisions_of now signature decision reason [] = []
  decisions_of now signature decision reason (job ∷ jobs) =
      add_decision (job_candidate_decision now signature decision reason job)
        (decisions_of now signature decision reason jobs)

  -- upsertJobCandidateDecisions
  unfoldable pub upsert_candidate_decisions :
      (ℕ → Time) → Time → List JobCandidateDecision → CandidateStore → CandidateStore
  upsert_candidate_decisions clock now decisions s =
      if is_empty decisions
      then s
      else upsert_decisions_from clock 0 decisions
          (upsert_job_candidates clock (candidates_of urls now true (map (λ d. d.job) decisions)) s)

  -- the decisions on the filtered jobs, for the reasons that are deterministic
  abbrev rejections_of : Time → Signature → Dict Text (List Job) → List JobCandidateDecision
  rejections_of now signature [] = []
  rejections_of now signature ((reason, jobs) ∷ filtered) =
      let rest = rejections_of now signature filtered in
      if seen_in reason deterministic_reasons
      then decisions_of now signature rejected reason jobs ++ rest
      else rest

  -- recordDeterministicCandidateDecisions; `filtered` in the order in which the map is ranged over
  unfoldable pub record_deterministic :
      (ℕ → Time)
      → Time
      → Text
      → List Job
      → Dict Text (List Job)
      → Option CandidateStore
      → Option CandidateStore
  record_deterministic clock now criteria_hash accepted_jobs filtered none = none
  record_deterministic clock now criteria_hash accepted_jobs filtered (some s) =
      let signature = deterministic_candidate_decision_key criteria_hash in
      some (
        upsert_candidate_decisions clock now
          (decisions_of now signature accepted [] accepted_jobs
            ++ rejections_of now signature filtered)
          s)

  -- the keys of the map `afterKeys`
  abbrev pub keys_of : List Job → List Text
  keys_of jobs = map (candidate_key urls) jobs

  -- a job that was given is accepted if its key is one of those returned
  abbrev pub llm_decision : Time → Signature → List Text → Job → Option JobCandidateDecision
  llm_decision now signature after job =
      if seen_in (candidate_key urls job) after
      then job_candidate_decision now signature accepted [] job
      else job_candidate_decision now signature rejected (codes "llm job filtering") job

  abbrev pub llm_decisions : Time → Signature → List Text → List Job → List JobCandidateDecision
  llm_decisions now signature after [] = []
  llm_decisions now signature after (job ∷ jobs) =
      let rest = llm_decisions now signature after jobs in
      if is_empty (candidate_key urls job)
      then rest
      else add_decision (llm_decision now signature after job) rest

  -- RecordLLMFilterCandidateDecisions, for the signature of the configuration, if it has one
  unfoldable pub record_llm_filter :
      (ℕ → Time)
      → Time
      → Option Signature
      → List Job
      → List Job
      → List Text
      → Option CandidateStore
      → Option CandidateStore
  record_llm_filter clock now signature before after notices none = none
  record_llm_filter clock now none before after notices (some s) = some s
  record_llm_filter clock now (some signature) before after notices (some s) = some (
      if is_empty before || not (is_empty notices)
      then s
      else upsert_candidate_decisions clock now (llm_decisions now signature (keys_of after) before)
          s)
