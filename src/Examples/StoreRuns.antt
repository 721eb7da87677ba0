-- ===== src/Examples/StoreRuns.antt =====
-- The stores in memory.
use jobscout.Prelude.{◌≡◌, refl, Bool, true, false, [], ◌∷◌, Option, none, some, if◌then◌else◌}
use jobscout.Text.{
  Text, codes, ◌==◌, lower, to_lower, trim_space, has_prefix, trim_prefix, fields, join, contains,
}
use jobscout.Text.Dict.{text_Eq, get, put, delete}
use jobscout.Domain.Unique.{seen_in}
use jobscout.Runtime.Stores.{is_zero_time}
use jobscout.Runtime.Stores.Health.{Cache}
use jobscout.Runtime.Stores.Identity.{
  CompanyIdentity, normalize_memory_domain, company_identity_memory_keys, get_company_identity,
  upsert_company_identity, identity_keys, get-upsert_company_identity,
}
use jobscout.Runtime.Stores.Candidates.{
  JobCandidate, JobCandidateDecision, JobCandidateDecisionKey, CandidateStore, decision_key_Eq,
  empty_store, get_job_candidate_decision, decision_is_skipped, is_expired, decision_key_beq,
  normalize_decision_key, stored_candidate, upsert_candidate, stored_decision, upsert_decision,
  prune_job_candidate_cache,
}
use jobscout.Runtime.Stores.Candidates.Decisions.{get-upsert_decision}
use jobscout.Runtime.Stores.Candidates.Prune.{
  candidate, decision, Reachable, start, next, IsPruned, prune-IsPruned, Reachable-IsWellFormed,
}
use jobscout.Examples.{acme}

abbrev key_1 : Text
key_1 = codes "k1"

abbrev candidate_1 : JobCandidate
candidate_1 = record {
  key = codes " k1";
  source = codes "rss";
  source_key = [];
  apply_url = [];
  canonical_apply_url = [];
  company = codes "Acme";
  title = codes "Engineer";
  job = acme;
  active = true;
  first_seen = 0;
  last_seen = 0;
}

abbrev decision_key_1 : JobCandidateDecisionKey
decision_key_1 = record {
  candidate_key = codes "k1 ";
  criteria_hash = codes "h";
  stage = codes "fit";
  decision_version = codes "1";
  llm_provider = codes " OpenAI";
  llm_model = codes "m";
}

abbrev decision_1 : JobCandidateDecision
decision_1 = record {
  key = decision_key_1;
  decision = codes "accept";
  reason = [];
  job = acme;
  decided_at = 0;
  expires_at = 20;
}

abbrev one_seen : CandidateStore
one_seen = upsert_decision 5 decision_1 (upsert_candidate 5 candidate_1 empty_store)

one_seen-Reachable : Reachable one_seen
one_seen-Reachable =
    next (next start (candidate 5 candidate_1 empty_store))
      (decision 5 decision_1 (upsert_candidate 5 candidate_1 empty_store))

-- At time 7 the candidate, last seen at 5, is removed, and its decision with it.
pruned : prune_job_candidate_cache 7 one_seen ≡ (1, empty_store)
unfolding prune_job_candidate_cache upsert_decision upsert_candidate stored_decision
    stored_candidate ◌==◌ trim_space get put delete
pruned = refl

prune-IsPruned_example :
    IsPruned 7 one_seen
      (prune_job_candidate_cache 7 one_seen).0
      (prune_job_candidate_cache 7 one_seen).1
prune-IsPruned_example = prune-IsPruned 7 one_seen (Reachable-IsWellFormed one_seen-Reachable) refl

-- Read back at time 19, before it expires.
get-upsert_decision_example :
    get_job_candidate_decision 19 decision_key_1 (upsert_decision 5 decision_1 empty_store) ≡ (
      if decision_is_skipped decision_1
      then get_job_candidate_decision 19 decision_key_1 empty_store
      else if decision_key_beq
          (normalize_decision_key decision_key_1)
          (normalize_decision_key decision_key_1)
      then (if is_expired 19 decision_1 then none else some (stored_decision decision_1 5))
      else get_job_candidate_decision 19 decision_key_1 empty_store)
get-upsert_decision_example = get-upsert_decision 5 19 decision_1 empty_store decision_key_1

first_stored : get key_1 one_seen.candidates ≡ some (stored_candidate candidate_1 none 5)
unfolding upsert_decision upsert_candidate stored_candidate ◌==◌ trim_space get put delete
first_stored = refl

first_time : is_zero_time (stored_candidate candidate_1 none 5).first_seen ≡ false
unfolding stored_candidate
first_time = refl

abbrev no_health : Cache Bool
no_health = []

-- A host is what follows a scheme.
abbrev host_after : Text → Option Text
host_after raw = some (trim_prefix raw (codes "https://"))

abbrev acme_identity : CompanyIdentity
acme_identity = record {
  key = codes "acme";
  display_name = codes "Acme  Inc";
  website = codes "WWW.acme.example";
  summary = [];
  industry = [];
  identity_evidence = [];
  source_version = [];
  created_at = 1;
  updated_at = 1;
  name_aliases = codes "ACME" ∷ [];
  domain_aliases = codes "acme.test" ∷ [];
}

found_by_alias :
    get_company_identity host_after
      (codes " acme")
      []
      (upsert_company_identity host_after acme_identity [])
    ≡ some acme_identity
unfolding get_company_identity upsert_company_identity company_identity_memory_keys
    normalize_memory_domain ◌==◌ trim_space lower to_lower get put delete fields join trim_prefix
    has_prefix contains
found_by_alias = refl

get-upsert_company_identity_example :
    get (codes "name:acme") (upsert_company_identity host_after acme_identity []) ≡ (
      if seen_in (codes "name:acme") (identity_keys host_after acme_identity)
      then some acme_identity
      else get (codes "name:acme") [])
get-upsert_company_identity_example =
    get-upsert_company_identity host_after acme_identity [] (codes "name:acme")
