-- ===== src/Tuiapp/Edits.antt =====
-- The keys that mark and delete a job (internal/tuiapp/update_keys.go, job_editor.go) and the message
-- with an edited job (update_fetch_msgs.go). The keys act where the keys of the list are available.
-- `score` is the parameter of Tuiapp/Table.antt, and `save_error` the result of the store's SaveJobs.
pub mod Marked
pub mod Deleted
use jobscout.Prelude.{
  ℕ, zero, suc, Bool, true, false, not, ◌&&◌, ◌||◌, List, [], ◌∷◌, ◌++◌, Option, none, some,
  is_empty, length, ltb, leb, take, drop, modify, get_elem?, if◌then◌else◌, Result, ok, err,
}
use jobscout.Prelude.Int.{ℤ, pos, negsuc, ltb_ℤ, leb_ℤ, add_ℤ, sub_ℤ}
use jobscout.Text.{Text, codes, ◌==◌}
use jobscout.Domain.Job.{Job}
use jobscout.Tuiapp.Table.{Table, apply_filter_and_sort}

-- The table, the saved jobs and the message afterwards; an index out of range panics.
pub data Edited : Type 0 where
  panics : Edited
  edited : Table → List Job → Option Text → Edited

-- m.filteredJobs[m.cursor]
abbrev pub job_at : ℤ → List Job → Option Job
job_at (negsuc n) jobs = none
job_at (pos i) jobs = get_elem? jobs i

-- the first job, from position `i`, with the company and the title of the current one
unfoldable pub find_from : ℕ → Job → List Job → Option ℕ
find_from i current [] = none
find_from i current (j ∷ jobs) =
    let rest = find_from (suc i) current jobs in
    if j.company == current.company && j.title == current.title then some i else rest

abbrev pub saved_or : Option Text → List Job → List Job → List Job
saved_or none jobs stored = jobs
saved_or (some e) jobs stored = stored

-- What stands in an array after `source` was copied over its beginning.
unfoldable pub overwrite : List Job → List Job → List Job
overwrite [] jobs = jobs
overwrite (s ∷ source) [] = s ∷ source
overwrite (s ∷ source) (j ∷ jobs) = s ∷ overwrite source jobs

-- The jobs and the error that deleteJob returns, and what the slice that it was given holds
-- afterwards: append moves the jobs after the index within the array.
pub record Deletion : Type 0 where
  pub jobs : List Job
  pub error : Option Text
  pub given : List Job

-- the job that the key m marks
abbrev pub viewed : Job → Job
viewed job = record job { status = codes "Viewed" }

-- the cursor where it was, and one further unless that is the last row or beyond it
unfoldable pub advance : ℤ → Table → Table
advance old t =
    let next = add_ℤ old (pos 1) in
    if ltb_ℤ old (sub_ℤ (pos (length t.filtered_jobs)) (pos 1))
    then record t {
      cursor = next;
      y_offset =
          if leb_ℤ (add_ℤ t.y_offset t.table_height) next
          then add_ℤ (sub_ℤ next t.table_height) (pos 1)
          else t.y_offset;
    }
    else record t { cursor = old }

module _ (save_error : List Job → Option Text) where
  abbrev pub deleted_at : ℕ → List Job → Deletion
  deleted_at i jobs =
      let rest = take i jobs ++ drop (suc i) jobs in
      let moved = take i jobs ++ overwrite (drop (suc i) jobs) (drop i jobs) in
      record {
        jobs = saved_or (save_error rest) rest moved;
        error = save_error rest;
        given = moved;
      }

  unfoldable pub delete_job : List Job → ℤ → Deletion
  delete_job jobs (negsuc n) = record {
    jobs = jobs;
    error = some (codes "index out of bounds");
    given = jobs;
  }
  delete_job jobs (pos i) =
      if leb (length jobs) i
      then record { jobs = jobs; error = some (codes "index out of bounds"); given = jobs }
      else deleted_at i jobs

  module _ (score : Job → ℤ) where
    abbrev shown : Table → List Job → Table
    shown t jobs = apply_filter_and_sort score (record t { all_jobs = jobs })

    -- the key D
    abbrev after_delete : Table → List Job → Option Text → Deletion → Edited
    after_delete t stored none d = edited (shown t d.jobs) d.jobs none
    after_delete t stored (some e) d =
        edited (record t { all_jobs = d.given }) stored (some (codes "Delete failed: " ++ e))

    abbrev pub delete_found : Table → List Job → Option ℕ → Edited
    delete_found t stored none = edited t stored none
    delete_found t stored (some i) =
        let d = delete_job t.all_jobs (pos i) in after_delete t stored d.error d

    abbrev pub delete_current : Table → List Job → Option Job → Edited
    delete_current t stored none = panics
    delete_current t stored (some current) = delete_found t stored (find_from 0 current t.all_jobs)

    unfoldable pub key_delete : Table → List Job → Edited
    unfolding find_from
    key_delete t stored =
        if is_empty t.filtered_jobs
        then edited t stored none
        else delete_current t stored (job_at t.cursor t.filtered_jobs)

    -- the key m
    abbrev pub mark_found : Table → List Job → Option ℕ → Edited
    mark_found t stored none = edited t stored none
    mark_found t stored (some i) =
        let jobs = modify t.all_jobs i viewed in
        edited (advance t.cursor (shown t jobs)) (saved_or (save_error jobs) jobs stored) none

    abbrev pub mark_current : Table → List Job → Option Job → Edited
    mark_current t stored none = panics
    mark_current t stored (some current) = mark_found t stored (find_from 0 current t.all_jobs)

    unfoldable pub key_mark : Table → List Job → Edited
    unfolding find_from advance
    key_mark t stored =
        if is_empty t.filtered_jobs
        then edited t stored none
        else mark_current t stored (job_at t.cursor t.filtered_jobs)

    -- handleJobEditedMsg
    abbrev pub edit_found : Table → List Job → Job → Option ℕ → Edited
    edit_found t stored job none = edited t stored none
    edit_found t stored job (some i) =
        let jobs = modify t.all_jobs i (λ _. job) in
        edited (shown t jobs) (saved_or (save_error jobs) jobs stored) none

    abbrev pub edit_current : Table → List Job → Job → Option Job → Edited
    edit_current t stored job none = panics
    edit_current t stored job (some current) =
        edit_found t stored job (find_from 0 current t.all_jobs)

    unfoldable pub handle_job_edited : Job → Table → List Job → Edited
    unfolding find_from
    handle_job_edited job t stored =
        if is_empty t.filtered_jobs || leb_ℤ (pos (length t.filtered_jobs)) t.cursor
        then edited t stored none
        else edit_current t stored job (job_at t.cursor t.filtered_jobs)
