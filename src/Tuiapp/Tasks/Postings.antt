-- ===== src/Tuiapp/Tasks/Postings.antt =====
-- internal/tuiapp/posting_validation.go: the postings that are checked, and what is done with the
-- result. `verify` is VerifyJobPosting, with the state of the context after it: it says whether the
-- posting is active, why not, and whether the time was used up. `urls`, `clock` and `now` are those of
-- Fetcher/CandidateCache.antt.
pub mod Checked
use jobscout.Prelude.{
  ℕ, ◌≡◌, Bool, true, false, not, ◌&&◌, ◌||◌, List, [], ◌∷◌, ◌++◌, Option, none, some, is_empty,
  map, length, eqb, if◌then◌else◌, String,
}
use jobscout.Prelude.Int.{ℤ, pos}
use jobscout.Text.{Text, codes, trim_space, equal_fold, join}
use jobscout.Text.Number.{itoa}
use jobscout.Text.Dict.{Dict, text_Eq, get, put}
use jobscout.Domain.Job.{Job}
use jobscout.Domain.Unique.{seen_in}
use jobscout.Runtime.Stores.{Time}
use jobscout.Fetcher.Urls.{UrlPackage}
use jobscout.Fetcher.CandidateCache.{record_inactive}
use jobscout.Tuiapp.Table.{apply_filter_and_sort}
use jobscout.Tuiapp.Tasks.{
  App, Command, no_command, background_job_key, selected_job_key, restore_cursor_to_job_key,
  is_current, ended,
}

pub record Target : Type 0 where
  pub key : Text
  pub job : Job

pub record PostingResult : Type 0 where
  pub key : Text
  pub active : Bool
  pub reason : Text

unfoldable pub posting_validation_status : Text → Bool
posting_validation_status status =
    let s = trim_space status in equal_fold s (codes "Unopened") || equal_fold s (codes "Viewed")

-- the loop of postingValidationTargets, with the keys of the map `seen`
unfoldable pub targets_from : List Text → List Job → List Target
targets_from seen [] = []
targets_from seen (job ∷ jobs) =
    let key = background_job_key job in
    let skip = targets_from seen jobs in
    let keep = record { key = key; job = job } ∷ targets_from (key ∷ seen) jobs in
    if not (posting_validation_status job.status)
    then skip
    else if is_empty key || seen_in key seen
    then skip
    else keep

unfoldable pub posting_validation_targets : List Job → List Target
unfolding targets_from
posting_validation_targets jobs = targets_from [] jobs

-- the results of validatePostingsCmd; a check that used up its time counts as active
unfoldable pub validate_postings : (Job → (Bool × Text) × Bool) → List Target → List PostingResult
validate_postings verify [] = []
validate_postings verify (t ∷ targets) =
    let ((active, reason), expired) = verify t.job in
    record { key = t.key; active = active || expired; reason = if expired then [] else reason }
    ∷ validate_postings verify targets

-- the map `inactive`
unfoldable pub inactive_from : Dict Text Text → List PostingResult → Dict Text Text
inactive_from inactive [] = inactive
inactive_from inactive (r ∷ results) =
    if r.active
    then inactive_from inactive results
    else inactive_from (put r.key r.reason inactive) results

abbrev pub gone : Job → Job
gone job = record job { status = codes "Expired" }

-- the body of the loop: the job is open or not, and the reason that the map has for its key
abbrev pub mark : Job → Bool → Option Text → List Job × List Job → List Job × List Job
mark job false reason (all, expired) = (job ∷ all, expired)
mark job true none (all, expired) = (job ∷ all, expired)
mark job true (some reason) (all, expired) = (gone job ∷ all, gone job ∷ expired)

-- the loop over the jobs: the changed ones among all, and alone
unfoldable pub expire_from : Dict Text Text → List Job → List Job × List Job
expire_from inactive [] = ([], [])
expire_from inactive (job ∷ jobs) =
    mark job (posting_validation_status job.status) (get (background_job_key job) inactive)
      (expire_from inactive jobs)

-- expireInactivePostings: the jobs afterwards, and the expired ones
unfoldable pub expire_inactive_postings : List PostingResult → List Job → List Job × List Job
unfolding inactive_from expire_from
expire_inactive_postings results jobs =
    let inactive = inactive_from [] results in
    if is_empty results || is_empty inactive then (jobs, []) else expire_from inactive jobs

abbrev pluralize : ℕ → String → String → Text
pluralize count singular plural = elim (eqb count 1) [
  | true ↦ codes singular
  | false ↦ codes plural
]

unfoldable pub posting_validation_summary : ℕ → ℕ → Option Text → Text
posting_validation_summary checked expired err =
    let lines =
      (codes "Checked "
        ++ (itoa (pos checked)
            ++ (codes " active " ++ (pluralize checked "posting" "postings" ++ codes "."))))
      ∷ (codes "Marked "
          ++ (itoa (pos expired)
              ++ (codes " " ++ (pluralize expired "posting" "postings" ++ codes " as Expired."))))
      ∷ [] in
    elim err [
      | none ↦ join (codes "\n") lines
      | some e ↦ join (codes "\n") (lines ++ ([] ∷ (codes "Stopped before finishing: " ++ e) ∷ []))
    ]

-- handlePostingValidationCompleteMsg
unfoldable pub handle_postings :
    UrlPackage
    → (ℕ → Time)
    → Time
    → (Job → ℤ)
    → (List Job → Option Text)
    → ℕ
    → ℕ
    → List PostingResult
    → Option Text
    → App
    → App × Command
handle_postings urls clock now score save_error task_id checked results err m =
    let (jobs, expired) = expire_inactive_postings results m.table.all_jobs in
    let kept = record m { table = record m.table { all_jobs = jobs }; task = ended m.task } in
    let finished = record kept {
      table =
          restore_cursor_to_job_key (selected_job_key m.table)
            (apply_filter_and_sort score (record m.table { all_jobs = jobs }));
      notice = some (
        elim err [ none ↦ codes "Posting Check Complete" | some e ↦ codes "Posting Check Stopped" ],
        posting_validation_summary checked (length expired) err,
      );
    } in
    if not (is_current task_id m.task)
    then (m, no_command)
    else if is_empty expired
    then (finished, no_command)
    else elim (save_error jobs) [
      | some message ↦
          (record kept { notice = some (codes "Posting Check Save Failed", message) }, no_command)
      | none ↦ (
        record finished {
          stored = jobs;
          candidates = record_inactive urls clock now expired m.candidates;
        },
        no_command,
      )
    ]
