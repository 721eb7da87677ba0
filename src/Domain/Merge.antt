-- ===== src/Domain/Merge.antt =====
-- internal/domain/job_merge.go: merging fetched jobs into the stored ones. `parse_url` is the
-- parameter of Domain/Website.antt.
pub mod Fields
pub mod Keys
pub mod Lookup
pub mod Repair
use jobscout.Prelude.{
  ℕ, zero, suc, Bool, true, false, not, ◌&&◌, ◌||◌, List, [], ◌∷◌, ◌++◌, Option, none, some,
  is_empty, length, modify, if◌then◌else◌,
}
use jobscout.Text.{Text, codes, ◌==◌, to_lower, trim_space, equal_fold}
use jobscout.Text.Dict.{Dict, text_Eq, get, put}
use jobscout.Domain.Job.{Job, JobIdentityEvidence, JobIdentityMetadata, is_blank}
use jobscout.Domain.Metadata.{merge_metadata}
use jobscout.Domain.Website.{Url, website_missing_or_invalid}
use jobscout.Domain.Summary.{summary_missing_or_invalid, compensation_missing}

unfoldable pub job_merge_key : Job → Text
job_merge_key job = to_lower (trim_space job.company ++ (codes "|" ++ trim_space job.title))

-- A new job's status is never blank or "New".
unfoldable pub open_status : Job → Job
open_status job =
    if is_empty job.status || job.status == codes "New"
    then record job { status = codes "Unopened" }
    else job

module _ (parse_url : Text → Option Url) where
  unfoldable pub merge_website : Text → Text → Text
  merge_website old new =
      if website_missing_or_invalid parse_url old && not (website_missing_or_invalid parse_url new)
      then new
      else old

  -- MergeJobIdentityFields
  unfoldable pub merge_fields : Job → Job → Job
  unfolding merge_website
  merge_fields existing incoming = record existing {
    company_website = merge_website existing.company_website incoming.company_website;
    company_summary =
        if summary_missing_or_invalid existing.company_summary existing.company
          && not (summary_missing_or_invalid incoming.company_summary incoming.company)
        then incoming.company_summary
        else existing.company_summary;
    company_industry =
        if is_blank existing.company_industry && not (is_blank incoming.company_industry)
        then incoming.company_industry
        else existing.company_industry;
    compensation =
        if compensation_missing existing.compensation
          && not (compensation_missing incoming.compensation)
        then incoming.compensation
        else existing.compensation;
    description =
        if is_blank existing.description && not (is_blank incoming.description)
        then incoming.description
        else existing.description;
    metadata = merge_metadata existing.metadata incoming.metadata;
  }

  -- the loop over the new jobs; `final` is `finalJobs` and `index` is `existingMap`
  unfoldable pub merge_from : Dict Text ℕ → ℕ → List Job → List Job → ℕ × List Job
  merge_from index added final [] = (added, final)
  merge_from index added final (job ∷ jobs) = elim (get (job_merge_key job) index) [
    | some i ↦ merge_from index added (modify final i (λ e. merge_fields e job)) jobs
    | none ↦
        merge_from (put (job_merge_key job) (length final) index) (suc added)
          (final ++ open_status job ∷ []) jobs
  ]

-- the loop that fills `existingMap`
unfoldable pub index_from : ℕ → Dict Text ℕ → List Job → Dict Text ℕ
index_from i index [] = index
index_from i index (job ∷ jobs) = index_from (suc i) (put (job_merge_key job) i index) jobs

unfoldable pub merge_jobs : (Text → Option Url) → List Job → List Job → ℕ × List Job
unfolding merge_from index_from
merge_jobs parse_url existing new = merge_from parse_url (index_from 0 [] existing) 0 existing new

abbrev evidence_provisional : Option JobIdentityEvidence → Bool
evidence_provisional none = false
evidence_provisional (some e) = e.provisional

unfoldable pub has_provisional_evidence : Option JobIdentityMetadata → Bool
has_provisional_evidence none = false
has_provisional_evidence (some m) =
    evidence_provisional m.website
    || evidence_provisional m.summary
    || evidence_provisional m.industry

unfoldable pub needs_identity_repair : Job → Bool
unfolding has_provisional_evidence
needs_identity_repair job =
    if equal_fold (trim_space job.status) (codes "Expired")
    then false
    else is_blank job.company_website
      || is_blank job.company_summary
      || is_blank job.company_industry
      || compensation_missing job.compensation
      || has_provisional_evidence job.company_identity

-- the loop of IdentityRepairTargets from index `i`: the jobs, and where they stand
unfoldable pub repair_targets_from : ℕ → List Job → List Job × List ℕ
repair_targets_from i [] = ([], [])
repair_targets_from i (job ∷ jobs) =
    let (targets, indexes) = repair_targets_from (suc i) jobs in
    if needs_identity_repair job then (job ∷ targets, i ∷ indexes) else (targets, indexes)

unfoldable pub identity_repair_targets : List Job → List Job × List ℕ
unfolding repair_targets_from
identity_repair_targets jobs = repair_targets_from 0 jobs
