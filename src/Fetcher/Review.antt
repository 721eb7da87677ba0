-- ===== src/Fetcher/Review.antt =====
-- internal/fetcher/fetch_review.go and fetch_summary.go: the review of a fetch, that is the jobs that
-- it would add, and its summary. Values that are cloned are the same values here.
pub mod Plan
use jobscout.Prelude.{
  ℕ, ltb, ◌≡◌, Bool, true, false, not, ◌&&◌, ◌||◌, List, [], ◌∷◌, ◌++◌, Option, none, some,
  is_empty, map, length, if◌then◌else◌,
}
use jobscout.Text.{Text, codes}
use jobscout.Text.Dict.{Dict, text_Eq, get, put}
use jobscout.Domain.Job.{Job}
use jobscout.Domain.Merge.{job_merge_key, open_status}
use jobscout.Domain.Unique.{seen_in}

pub record FetchSummary : Type 0 where
  pub notices : List Text
  pub rejected : Dict Text (Dict Text (List Text))
  pub filtered : Dict Text (List Job)
  pub llm_filter_bypass : Dict Text (List Job)
  pub searches : Dict Text Text

pub record MergePlan : Type 0 where
  pub merged : List Job
  pub added_jobs : List Job
  pub duplicate_jobs : List Job

abbrev skip_duplicate : Job → MergePlan → MergePlan
skip_duplicate job plan = record plan { duplicate_jobs = job ∷ plan.duplicate_jobs }

abbrev add_job : Job → MergePlan → MergePlan
add_job job plan = record plan { merged = job ∷ plan.merged; added_jobs = job ∷ plan.added_jobs }

-- the loop over the new jobs, with the keys of the map `existingMap`: what it appends
unfoldable pub plan_from : List Text → List Job → MergePlan
plan_from seen [] = record { merged = []; added_jobs = []; duplicate_jobs = [] }
plan_from seen (job ∷ jobs) =
    let key = job_merge_key job in
    let duplicate = skip_duplicate job (plan_from seen jobs) in
    let new = add_job (open_status job) (plan_from (key ∷ seen) jobs) in
    if seen_in key seen then duplicate else new

unfoldable pub plan_job_merge : List Job → List Job → MergePlan
unfolding plan_from
plan_job_merge existing new =
    let plan = plan_from (map job_merge_key existing) new in
    record plan { merged = existing ++ plan.merged }

pub record ReviewSession : Type 0 where
  pub jobs : List Job
  pub summary : FetchSummary
  pub added_jobs : List Job
  pub fetched : ℕ
  pub added : ℕ

-- the entries of a key that is missing are none
module _ {A : Type 0} where
  abbrev pub entries_of : Option (List A) → List A
  entries_of none = []
  entries_of (some entries) = entries

  -- m[key] = append(m[key], entries...)
  unfoldable pub append_entries : Text → List A → Dict Text (List A) → Dict Text (List A)
  append_entries key entries m = put key (entries_of (get key m) ++ entries) m

unfoldable pub new_review_session : List Job → List Job → FetchSummary → ReviewSession
unfolding append_entries
new_review_session existing fetched_jobs summary =
    let plan = plan_job_merge existing fetched_jobs in
    record {
      jobs = fetched_jobs;
      summary = if is_empty plan.duplicate_jobs then summary else record summary {
        filtered = append_entries (codes "duplicate") plan.duplicate_jobs summary.filtered;
      };
      added_jobs = plan.added_jobs;
      fetched = length fetched_jobs;
      added = length plan.added_jobs;
    }

-- The methods on a session, of which `none` is nil.
unfoldable pub fetched_count : Option ReviewSession → ℕ
fetched_count none = 0
fetched_count (some r) = r.fetched

unfoldable pub added_count : Option ReviewSession → ℕ
added_count none = 0
added_count (some r) = r.added

unfoldable pub has_new_jobs : Option ReviewSession → Bool
has_new_jobs none = false
has_new_jobs (some r) = ltb 0 r.added

unfoldable pub session_added_jobs : Option ReviewSession → List Job
session_added_jobs none = []
session_added_jobs (some r) = r.added_jobs

unfoldable pub merge_into : Option ReviewSession → List Job → List Job × List Job
merge_into none existing = (existing, [])
merge_into (some r) existing =
    let plan = plan_job_merge existing r.jobs in (plan.merged, plan.added_jobs)
