-- ===== src/Tuiapp/Tasks/Selection.antt =====
-- The selected job stays selected when a background task changes the jobs.
use jobscout.Prelude.{
  ℕ, suc, ◌+◌, ◌≡◌, refl, ap, ◌∙◌, inl, inr, Bool, true, false, ◌||◌, List, [], ◌∷◌, Option, none,
  some, arith, is_empty, get_elem?, Bool-cases,
}
use jobscout.Prelude.Int.{ℤ, pos, ltb_ℤ, leb_ℤ, add_ℤ}
use jobscout.Text.{Text, ◌==◌}
use jobscout.Text.Equality.{eq_iff}
use jobscout.Domain.Job.{Job}
use jobscout.Domain.Website.{Url}
use jobscout.Domain.Merge.{merge_jobs}
use jobscout.Tuiapp.Table.{Table, apply_filter_and_sort}
use jobscout.Tuiapp.Table.Cursor.{refilled}
use jobscout.Tuiapp.Tasks.{
  App, Task, background_job_key, key_of, selected_job_key, row_of_key, place_cursor,
  restore_cursor_to_job_key, is_current, no_command, handle_enriched,
}

-- A job with the key is in the list.
abbrev pub has_job : Text → List Job → Bool
has_job key [] = false
has_job key (job ∷ jobs) = background_job_key job == key || has_job key jobs

record IsRow (i : ℕ) (key : Text) (jobs : List Job) (r : ℕ) : Type 0 where
  offset : ℕ
  at_row : r ≡ offset + i
  job : Job
  found : get_elem? jobs offset ≡ some job
  same_key : background_job_key job ≡ key

row_of_key-IsRow :
    (i : ℕ) (key : Text) (jobs : List Job)
    → has_job key jobs ≡ true
    → (r : ℕ) × ((row_of_key i key jobs ≡ some r) × IsRow i key jobs r)
unfolding row_of_key
row_of_key-IsRow i key [] h = cc
row_of_key-IsRow i key (job ∷ jobs) h = elim (Bool-cases (background_job_key job == key)) [
  | inl e ↦ (
    i,
    (
      rw e refl,
      record {
        offset = 0;
        at_row = omega arith;
        job = job;
        found = refl;
        same_key = (eq_iff (background_job_key job) key).0 e;
      },
    ),
  )
  | inr e ↦
      let (r, (f, row)) = row_of_key-IsRow (suc i) key jobs (ground (arith, h, e)) in
      (
        r,
        (
          rw e f,
          record {
            offset = suc row.offset;
            at_row = omega (arith, row.at_row);
            job = row.job;
            found = row.found;
            same_key = row.same_key;
          },
        ),
      )
]

module _ (t : Table) (r h y : ℕ) (height : t.table_height ≡ pos (suc h))
    (top : t.y_offset ≡ pos y) where
  -- The window begins at or above the row and ends below it.
  shown-place_cursor :
      (leb_ℤ (place_cursor (pos r) t).y_offset (pos r) ≡ true)
      × (ltb_ℤ (pos r) (add_ℤ (place_cursor (pos r) t).y_offset t.table_height) ≡ true)
  shown-place_cursor = ground (arith, height, top)

-- The task when it has ended.
abbrev pub over : Task → Task
over task = record task { active = false; expanded = false; progress = []; pending_fields = [] }

-- The cursor is on a job with the key, and the window shows it.
pub record IsSelected (key : Text) (u : Table) : Type 0 where
  pub selected : selected_job_key u ≡ key
  pub from_top : leb_ℤ u.y_offset u.cursor ≡ true
  pub to_bottom : ltb_ℤ u.cursor (add_ℤ u.y_offset u.table_height) ≡ true

module _ (key : Text) (t : Table) where
  selected-place_cursor :
      (r : ℕ) → IsRow 0 key t.filtered_jobs r → selected_job_key (place_cursor (pos r) t) ≡ key
  unfolding selected_job_key
  selected-place_cursor r row =
      let e : r ≡ row.offset = omega (arith, row.at_row) in
      ap (λ i. key_of (get_elem? t.filtered_jobs i)) e ∙ (ap key_of row.found ∙ row.same_key)

  restore-IsSelected :
      (h y : ℕ)
      → t.table_height ≡ pos (suc h)
      → t.y_offset ≡ pos y
      → is_empty key ≡ false
      → has_job key t.filtered_jobs ≡ true
      → IsSelected key (restore_cursor_to_job_key key t)
  unfolding restore_cursor_to_job_key
  restore-IsSelected h y height top filled occurs =
      let (r, (f, row)) = row_of_key-IsRow 0 key t.filtered_jobs occurs in
      let shown = shown-place_cursor t r h y height top in
      let placed : IsSelected key (place_cursor (pos r) t) = record {
        selected = selected-place_cursor r row;
        from_top = shown.0;
        to_bottom = shown.1;
      } in
      rw (filled, f) placed

all_jobs-restore :
    (key : Text) (t : Table) → (restore_cursor_to_job_key key t).all_jobs ≡ t.all_jobs
unfolding restore_cursor_to_job_key
all_jobs-restore key t = ground arith

filtered_jobs-restore :
    (key : Text) (t : Table) → (restore_cursor_to_job_key key t).filtered_jobs ≡ t.filtered_jobs
unfolding restore_cursor_to_job_key
filtered_jobs-restore key t = ground arith

kept-refilled :
    (score : Job → ℤ) (jobs : List Job) (t : Table)
    → ((refilled score jobs t).all_jobs ≡ jobs)
      × (((refilled score jobs t).table_height ≡ t.table_height)
          × ((refilled score jobs t).y_offset ≡ t.y_offset))
unfolding apply_filter_and_sort
kept-refilled score jobs t = (refl, (refl, refl))

module _ (parse_url : Text → Option Url) (score : Job → ℤ) (save_error : List Job → Option Text)
    (task_id : ℕ) (jobs : List Job) (m : App) where
  -- the jobs after the merge, and the view of them
  abbrev pub merged_jobs : List Job
  merged_jobs = (merge_jobs parse_url m.table.all_jobs jobs).1

  -- When the running task's enriched jobs come in and are saved, the task has ended, with nothing in
  -- progress or pending, no command follows, the store and the table hold the merged jobs, and the
  -- table shows the new view of them. If moreover the new view still shows the job that was selected,
  -- and the window of the table has a row, it is still the selected one, in the window.
  pub handle_enriched-keeps_selection :
      is_current task_id m.task ≡ true
      → save_error merged_jobs ≡ none
      → let (after, command) = handle_enriched parse_url score save_error task_id jobs none m in
        let view = refilled score merged_jobs m.table in
        (((command ≡ no_command) × (after.task ≡ over m.task))
          × ((after.stored ≡ merged_jobs)
              × ((after.table.all_jobs ≡ merged_jobs)
                  × (after.table.filtered_jobs ≡ view.filtered_jobs))))
        × ((h y : ℕ)
            → m.table.table_height ≡ pos (suc h)
            → m.table.y_offset ≡ pos y
            → is_empty (selected_job_key m.table) ≡ false
            → has_job (selected_job_key m.table) view.filtered_jobs ≡ true
            → IsSelected (selected_job_key m.table) after.table)
  unfolding handle_enriched
  handle_enriched-keeps_selection current saved =
      let key = selected_job_key m.table in
      let view = refilled score merged_jobs m.table in
      let kept = kept-refilled score merged_jobs m.table in
      rw (current, saved)
        (
          (
            (refl, refl),
            (refl, (all_jobs-restore key view ∙ kept.0, filtered_jobs-restore key view)),
          ),
          λ h y height top filled occurs.
              restore-IsSelected key view h y (kept.1.0 ∙ height) (kept.1.1 ∙ top) filled occurs,
        )
