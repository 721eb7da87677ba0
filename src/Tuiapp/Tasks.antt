-- ===== src/Tuiapp/Tasks.antt =====
-- The background tasks of internal/tuiapp: the state of the task (model_state.go), its pending fields
-- (background_task.go), the messages that it sends (update_fetch_msgs.go), and the keys that start one
-- (update_keys.go). Of the model it holds the fields that these functions read or write. `notice` is
-- what showNotice put in the overlay, `stored` are the saved jobs, and `candidates` is the runtime's
-- store of candidates. `parse_url` is the parameter of Domain/Website.antt, `score` that
-- of Tuiapp/Table.antt, and `save_error` the result of the store's SaveJobs.
pub mod Postings
pub mod Pending
pub mod Selection
use jobscout.Prelude.{
  ℕ, suc, String, ◌≡◌, Bool, true, false, not, ◌&&◌, ◌||◌, List, [], ◌∷◌, ◌++◌, Option, none, some,
  is_empty, eqb, get_elem?, modify, if◌then◌else◌,
}
use jobscout.Prelude.Int.{ℤ, pos, negsuc, ltb_ℤ, leb_ℤ, add_ℤ, sub_ℤ}
use jobscout.Text.{Text, codes, ◌==◌, to_lower, trim_space}
use jobscout.Text.Dict.{Dict, text_Eq, get, put, delete}
use jobscout.Domain.Job.{Job, is_blank}
use jobscout.Domain.Website.{Url, website_missing_or_invalid}
use jobscout.Domain.Summary.{summary_missing_or_invalid, compensation_missing}
use jobscout.Domain.Merge.{job_merge_key, merge_jobs}
use jobscout.Domain.Unique.{seen_in}
use jobscout.Runtime.Stores.Candidates.{CandidateStore}
use jobscout.Tuiapp.Table.{Table, apply_filter_and_sort}

-- the keys "company_website", "company_summary", "company_industry" and "compensation"
pub data Field : Type 0 where
  company_website company_summary company_industry compensation : Field

abbrev pub same_field : Field → Field → Bool
same_field company_website company_website = true
same_field company_summary company_summary = true
same_field company_industry company_industry = true
same_field compensation compensation = true
same_field _ _ = false

-- The keys of a map[string]bool whose values are all true.
abbrev pub has_field : Field → List Field → Bool
has_field f [] = false
has_field f (g ∷ fs) = same_field f g || has_field f fs

abbrev pub Pending : Type 0
Pending = Dict Text (List Field)

pub record Task : Type 0 where
  pub active : Bool
  pub expanded : Bool
  pub id : ℕ
  pub title : Text
  pub progress : Text
  pub pending_fields : Pending

pub record App : Type 0 where
  pub table : Table
  pub task : Task
  pub next_task : ℕ
  pub notice : Option (Text × Text)
  pub stored : List Job
  pub candidates : Option CandidateStore

-- A channel by its identity; `none` is nil.
abbrev pub ChannelId : Type 0
ChannelId = Option ℕ

pub data Command : Type 0 where
  no_command : Command
  wait_for_progress : ℕ → ChannelId → ChannelId → Command

-- waitForBackgroundTaskProgress gives no command for two nil channels.
abbrev pub wait_command : ℕ → ChannelId → ChannelId → Command
wait_command id none none = no_command
wait_command id ch job_ch = wait_for_progress id ch job_ch

unfoldable pub background_job_key : Job → Text
background_job_key job =
    let apply_url = trim_space job.apply_url in
    if is_empty apply_url
    then codes "merge:" ++ job_merge_key job
    else codes "url:" ++ to_lower apply_url

abbrev pub key_of : Option Job → Text
key_of none = []
key_of (some job) = background_job_key job

abbrev pub key_at : ℤ → List Job → Text
key_at (negsuc n) jobs = []
key_at (pos i) jobs = key_of (get_elem? jobs i)

-- the cursor's job, by its key; empty if there is none
unfoldable pub selected_job_key : Table → Text
selected_job_key t = key_at t.cursor t.filtered_jobs

-- the first row with the key, counted from row `i`
unfoldable pub row_of_key : ℕ → Text → List Job → Option ℕ
row_of_key i key [] = none
row_of_key i key (job ∷ jobs) =
    let rest = row_of_key (suc i) key jobs in if background_job_key job == key then some i else rest

-- the cursor on a row, and the window moved so that it shows it
abbrev pub place_cursor : ℤ → Table → Table
place_cursor row t =
    let above = if ltb_ℤ row t.y_offset then row else t.y_offset in
    let below =
      if ltb_ℤ (pos 0) t.table_height && leb_ℤ (add_ℤ above t.table_height) row
      then add_ℤ (sub_ℤ row t.table_height) (pos 1)
      else above in
    record t { cursor = row; y_offset = if ltb_ℤ below (pos 0) then pos 0 else below }

unfoldable pub restore_cursor_to_job_key : Text → Table → Table
unfolding row_of_key
restore_cursor_to_job_key key t =
    if is_empty key
    then t
    else elim (row_of_key 0 key t.filtered_jobs) [ none ↦ t | some i ↦ place_cursor (pos i) t ]

-- Only the task's own messages are handled.
abbrev pub is_current : ℕ → Task → Bool
is_current id task = task.active && eqb id task.id

-- the assignments with which a task ends
abbrev pub ended : Task → Task
ended task = record task { active = false; expanded = false; progress = []; pending_fields = [] }

abbrev pub replace_first : Text → Job → List Job → Option (List Job)
replace_first key new [] = none
replace_first key new (job ∷ jobs) =
    let rest = replace_first key new jobs in
    if job_merge_key job == key
    then some (new ∷ jobs)
    else elim rest [ none ↦ none | some changed ↦ some (job ∷ changed) ]

module _ (parse_url : Text → Option Url) where
  -- the test with which a field is pending, and stays so
  unfoldable pub field_missing : Field → Job → Bool
  field_missing company_website job = website_missing_or_invalid parse_url job.company_website
  field_missing company_summary job = summary_missing_or_invalid job.company_summary job.company
  field_missing company_industry job = is_blank job.company_industry
  field_missing compensation job = compensation_missing job.compensation

  abbrev pub fields_missing : Job → List Field → List Field
  fields_missing job [] = []
  fields_missing job (f ∷ fs) =
      let rest = fields_missing job fs in if field_missing f job then f ∷ rest else rest

  unfoldable pub pending_enrichment_fields : Job → List Field
  pending_enrichment_fields job =
      fields_missing job (company_website ∷ company_summary ∷ company_industry ∷ compensation ∷ [])

  -- the loop of pendingFieldsForJobs
  unfoldable pub pending_from : Pending → List Job → Pending
  pending_from pending [] = pending
  pending_from pending (job ∷ jobs) =
      let fields = pending_enrichment_fields job in
      if is_empty fields
      then pending_from pending jobs
      else pending_from (put (background_job_key job) fields pending) jobs

  unfoldable pub pending_fields_for_jobs : List Job → Pending
  unfolding pending_from
  pending_fields_for_jobs jobs = pending_from [] jobs

  -- the loop of jobsNeedingEnrichment, with the keys of the map `seen`
  unfoldable pub needing_from : List Text → List Job → List Job
  needing_from seen [] = []
  needing_from seen (job ∷ jobs) =
      let key = background_job_key job in
      let skip = needing_from seen jobs in
      let keep = job ∷ needing_from (key ∷ seen) jobs in
      if is_empty (pending_enrichment_fields job) || seen_in key seen then skip else keep

  unfoldable pub jobs_needing_enrichment : List Job → List Job
  unfolding needing_from
  jobs_needing_enrichment jobs = needing_from [] jobs

  -- updatePendingEnrichmentFields, with the fields that the map holds for the job's key
  unfoldable pub settle_pending : Job → Pending → Option (List Field) → Pending
  settle_pending job pending none = pending
  settle_pending job pending (some fields) =
      let left = fields_missing job fields in
      if is_empty fields
      then pending
      else if is_empty left
      then delete (background_job_key job) pending
      else put (background_job_key job) left pending

  unfoldable pub update_pending : Job → Pending → Pending
  unfolding settle_pending
  update_pending job pending = settle_pending job pending (get (background_job_key job) pending)

-- the fields of a key that is not in the map are none
abbrev pub fields_of : Option (List Field) → List Field
fields_of none = []
fields_of (some fields) = fields

-- pendingField
unfoldable pub pending_field : Task → Job → Field → Bool
pending_field task job f =
    task.active && has_field f (fields_of (get (background_job_key job) task.pending_fields))

module _ (parse_url : Text → Option Url) (score : Job → ℤ) where
  -- handleBackgroundTaskProgressMsg
  unfoldable pub handle_progress : ℕ → Text → ChannelId → ChannelId → Bool → App → App × Command
  handle_progress task_id text ch job_ch done m =
      let shown =
        if is_blank text then m else record m { task = record m.task { progress = text } } in
      if not (is_current task_id m.task) || done
      then (m, no_command)
      else (shown, wait_command task_id ch job_ch)

  abbrev pub replaced : Option (List Job) → Table → Table
  replaced none t = t
  replaced (some jobs) t = apply_filter_and_sort score (record t { all_jobs = jobs })

  -- handleBackgroundJobEnrichedMsg
  unfoldable pub handle_job_enriched : ℕ → Job → ChannelId → ChannelId → App → App × Command
  handle_job_enriched task_id job ch job_ch m =
      let updated = record m {
        table = replaced (replace_first (job_merge_key job) job m.table.all_jobs) m.table;
        task = record m.task {
          pending_fields = update_pending parse_url job m.task.pending_fields;
        };
      } in
      if not (is_current task_id m.task)
      then (m, no_command)
      else (updated, wait_command task_id ch job_ch)

  module _ (save_error : List Job → Option Text) where
    abbrev pub failed : String → Text → App → App
    failed title message m = record m { task = ended m.task; notice = some (codes title, message) }

    -- handleAcceptedFetchEnrichedMsg
    unfoldable pub handle_enriched : ℕ → List Job → Option Text → App → App × Command
    handle_enriched task_id jobs err m =
        if not (is_current task_id m.task) then (m, no_command) else elim err [
          | some message ↦ (failed "Background Task Failed" message m, no_command)
          | none ↦
              let (_, merged) = merge_jobs parse_url m.table.all_jobs jobs in
              elim (save_error merged) [
                | some message ↦ (failed "Background Save Failed" message m, no_command)
                | none ↦ (
                  record m {
                    table =
                        restore_cursor_to_job_key (selected_job_key m.table)
                          (apply_filter_and_sort score (record m.table { all_jobs = merged }));
                    task = ended m.task;
                    stored = merged;
                  },
                  no_command,
                )
              ]
        ]
