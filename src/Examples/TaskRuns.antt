-- ===== src/Examples/TaskRuns.antt =====
-- Background tasks: their channels, their messages and the check of postings.
use jobscout.Prelude.{
  ℕ, suc, ◌+◌, ◌≡◌, ◌≢◌, refl, inl, Bool, true, false, not, ◌&&◌, ◌||◌, List, [], ◌∷◌, ◌++◌, map,
  Option, none, some, length, is_empty,
}
use jobscout.Prelude.Int.{pos}
use jobscout.Prelude.Sorting.{select, sort_stable}
use jobscout.Text.{Text, codes, ◌==◌, to_lower, trim_space, lower}
use jobscout.Text.Order.{leb_text}
use jobscout.Text.Dict.{get, put}
use jobscout.Domain.Job.{Job}
use jobscout.Domain.Merge.{merge_jobs, job_merge_key, merge_fields}
use jobscout.Tuiapp.Channel.{Chan, nil, chan, out_of_fuel, wait_loop, wait_for, resume}
use jobscout.Tuiapp.Channel.Ends.{wait_for-Ends}
use jobscout.Tuiapp.Channel.Delivery.{
  Transfer, new_transfer, Reachable, start, next, send_job, close_texts, close_jobs, take_job,
  keep_waiting, take_done, Reachable-Delivers,
}
use jobscout.Tuiapp.Channel.Follows.{queue, is_over}
use jobscout.Tuiapp.Channel.Drained.{drain, messages, drain_closed}
use jobscout.Tuiapp.Table.{apply_filter_and_sort, has_active_filters}
use jobscout.Tuiapp.Table.Cursor.{refilled}
use jobscout.Tuiapp.Tasks.{
  App, no_command, compensation, handle_job_enriched, handle_enriched, pending_field,
  background_job_key, field_missing, pending_fields_for_jobs, selected_job_key,
}
use jobscout.Tuiapp.Tasks.Pending.{pending_field-handle_job_enriched}
use jobscout.Tuiapp.Tasks.Selection.{
  IsSelected, merged_jobs, has_job, handle_enriched-keeps_selection,
}
use jobscout.Tuiapp.Tasks.Postings.{
  expire_inactive_postings, validate_postings, posting_validation_targets, gone,
}
use jobscout.Tuiapp.Tasks.Postings.Checked.{marked, expires, refuted_key, check_postings-marked}
use jobscout.Examples.{acme, globex, host_only}
use jobscout.Examples.TableRuns.{no_score, shown}

abbrev texts : List ℕ
texts = 1 ∷ []

abbrev numbers : List ℕ
numbers = 7 ∷ 8 ∷ []

abbrev no_more : Chan ℕ
no_more = chan [] true

wait_for-Ends_example :
    (wait_for (chan texts true) no_more ≢ out_of_fuel)
    × ((job_first : Bool) → resume job_first (chan texts true) no_more ≢ out_of_fuel)
wait_for-Ends_example = wait_for-Ends (chan texts true) no_more

drain_closed_example :
    drain (length numbers + length texts + 1) (chan texts true) (chan numbers true)
    ≡ some (messages texts numbers)
drain_closed_example = drain_closed texts numbers

-- A task runs that waits for the salary of two jobs.
abbrev running : App
running = record {
  table = shown;
  task = record {
    active = true;
    expanded = false;
    id = 3;
    title = codes "Enriching";
    progress = [];
    pending_fields = pending_fields_for_jobs host_only (acme ∷ globex ∷ []);
  };
  next_task = 4;
  notice = none;
  stored = [];
  candidates = none;
}

abbrev always_saved : List Job → Option Text
always_saved jobs = none

abbrev pub clock : ℕ → ℕ
clock i = 100 + i

abbrev paid : Job
paid = record acme { compensation = codes "$100k" }

pending_field-handle_job_enriched_example :
    pending_field
      (handle_job_enriched host_only no_score 3 paid none none running).0.task
      acme
      compensation
    ≡ (pending_field running.task acme compensation
        && (not (background_job_key paid == background_job_key acme)
            || field_missing host_only compensation paid))
pending_field-handle_job_enriched_example =
    pending_field-handle_job_enriched host_only no_score 3 paid none none running refl acme
      compensation

-- The first open job's posting is found to be gone, and the check of the other one takes too long.
abbrev only_globex_gone : Job → (Bool × Text) × Bool
only_globex_gone job = ((false, codes "closed"), not (job.company == codes "Globex"))

check_postings-marked_example :
    expire_inactive_postings
      (validate_postings only_globex_gone (posting_validation_targets (globex ∷ acme ∷ [])))
      (globex ∷ acme ∷ [])
    ≡ (
      map (marked (refuted_key only_globex_gone (globex ∷ acme ∷ []))) (globex ∷ acme ∷ []),
      map gone (
          select
            (expires (refuted_key only_globex_gone (globex ∷ acme ∷ [])))
            (globex ∷ acme ∷ [])),
    )
check_postings-marked_example = check_postings-marked only_globex_gone (globex ∷ acme ∷ [])

-- The receiver finds the texts closed and waits for jobs alone; then a job is sent and seen, its
-- channel is closed, and the task is done.
abbrev over : Transfer ℕ ℕ
over = record new_transfer {
  ch = chan [] true;
  job_ch = chan [] true;
  hears_texts = false;
  sent_jobs = 7 ∷ [];
  seen_jobs = 7 ∷ [];
  done = true;
}

over-Reachable : Reachable over
unfolding wait_for wait_loop
over-Reachable =
    next
      (next
        (next
          (next
            (next (next start (close_texts [] refl))
              (keep_waiting nil (chan [] false) refl (inl refl)))
            (send_job [] 7 refl))
          (take_job 7 nil (chan [] false) refl (inl refl)))
        (close_jobs [] refl))
      (take_done refl (inl refl))

Reachable-Delivers_example :
    ((over.seen_jobs ++ queue over.job_ch ≡ over.sent_jobs)
      × (over.seen_texts ++ queue over.ch ≡ over.sent_texts))
    × (over.done ≡ true
        → ((over.seen_jobs ≡ over.sent_jobs) × (over.seen_texts ≡ over.sent_texts))
          × ((is_over over.ch ≡ true) × (is_over over.job_ch ≡ true)))
Reachable-Delivers_example = Reachable-Delivers over over-Reachable

-- The last of three jobs is selected.
abbrev selecting : App
selecting = record running { table = record shown { cursor = pos 1 } }

abbrev enriched : App
enriched = (handle_enriched host_only no_score always_saved 3 (paid ∷ []) none selecting).0

is_selecting : is_empty (selected_job_key selecting.table) ≡ false
unfolding selected_job_key background_job_key trim_space
is_selecting = refl

still_shown :
    has_job
      (selected_job_key selecting.table)
      (refilled no_score
        (merged_jobs host_only no_score always_saved 3 (paid ∷ []) selecting)
        selecting.table).filtered_jobs
    ≡ true
unfolding selected_job_key background_job_key trim_space to_lower lower ◌==◌ apply_filter_and_sort
    sort_stable has_active_filters leb_text merge_jobs get put job_merge_key merge_fields
still_shown = refl

handle_enriched-keeps_selection_example :
    let (after, command) =
      handle_enriched host_only no_score always_saved 3 (paid ∷ []) none selecting in
    let merged = merged_jobs host_only no_score always_saved 3 (paid ∷ []) selecting in
    let view = refilled no_score merged selecting.table in
    (((command ≡ no_command)
        × (after.task ≡ record selecting.task {
          active = false;
          expanded = false;
          progress = [];
          pending_fields = [];
        }))
      × ((after.stored ≡ merged)
          × ((after.table.all_jobs ≡ merged) × (after.table.filtered_jobs ≡ view.filtered_jobs))))
    × ((h y : ℕ)
        → selecting.table.table_height ≡ pos (suc h)
        → selecting.table.y_offset ≡ pos y
        → is_empty (selected_job_key selecting.table) ≡ false
        → has_job (selected_job_key selecting.table) view.filtered_jobs ≡ true
        → IsSelected (selected_job_key selecting.table) after.table)
handle_enriched-keeps_selection_example =
    handle_enriched-keeps_selection host_only no_score always_saved 3 (paid ∷ []) selecting refl
      refl

-- So the selected job stays selected.
enriched-IsSelected : IsSelected (selected_job_key selecting.table) enriched.table
enriched-IsSelected =
    (handle_enriched-keeps_selection host_only no_score always_saved 3 (paid ∷ []) selecting refl
        refl).1
      19 0 refl refl is_selecting still_shown
