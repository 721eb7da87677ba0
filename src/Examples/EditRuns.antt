-- ===== src/Examples/EditRuns.antt =====
-- Jobs that are marked, edited and deleted.
use jobscout.Prelude.{ℕ, ◌≡◌, refl, true, List, [], ◌∷◌, ◌++◌, Option, none, some, length, modify}
use jobscout.Prelude.Int.{pos}
use jobscout.Prelude.Sorting.{sort_stable}
use jobscout.Text.{Text, codes, ◌==◌, to_lower, lower, trim_space}
use jobscout.Text.Order.{leb_text}
use jobscout.Text.Dict.{get}
use jobscout.Domain.Job.{Job}
use jobscout.Tuiapp.Table.{Table, apply_filter_and_sort, has_active_filters, job_matches}
use jobscout.Tuiapp.Table.Cursor.{refilled}
use jobscout.Tuiapp.Edits.{
  Edited, edited, panics, saved_or, advance, overwrite, find_from, delete_job, key_mark,
}
use jobscout.Tuiapp.Edits.Marked.{IsRowWhen, IsFirst, as_viewed, key_mark-IsRowWhen}
use jobscout.Tuiapp.Edits.Deleted.{without, last_of, delete_job-outcome}
use jobscout.Examples.{acme, acme_again, globex}
use jobscout.Examples.TableRuns.{no_score, shown}

abbrev full_disk : List Job → Option Text
full_disk jobs = some (codes "disk full")

abbrev three : List Job
three = globex ∷ acme ∷ acme_again ∷ []

delete_job-outcome_example :
    (((delete_job full_disk three (pos 0)).error ≡ full_disk (without 0 three))
      × ((delete_job full_disk three (pos 0)).jobs
          ≡ saved_or
              (full_disk (without 0 three))
              (without 0 three)
              (delete_job full_disk three (pos 0)).given))
    × (((delete_job full_disk three (pos 0)).given ≡ without 0 three ++ last_of three)
        × (length (delete_job full_disk three (pos 0)).given ≡ length three))
delete_job-outcome_example = delete_job-outcome full_disk three 0 refl

-- The deletion that was not saved has lost a job and shows another one twice.
lost_and_doubled : (delete_job full_disk three (pos 0)).given ≡ acme ∷ acme_again ∷ acme_again ∷ []
unfolding delete_job overwrite
lost_and_doubled = refl

-- The new jobs are shown, and the last of them is selected.
abbrev only_new : Table
only_new = record shown {
  filtered_jobs = globex ∷ acme_again ∷ [];
  active_filters = (codes "New", true) ∷ [];
  cursor = pos 1;
}

abbrev fine : List Job → Option Text
fine jobs = none

key_mark-IsRowWhen_example :
    (i : ℕ) × (IsFirst acme_again three i
      × (let jobs = modify three i as_viewed in
          (after : Table) × ((key_mark fine no_score only_new [] ≡ edited after jobs none)
            × IsRowWhen 1 jobs (refilled no_score jobs only_new).filtered_jobs after)))
key_mark-IsRowWhen_example =
    key_mark-IsRowWhen fine no_score only_new [] 1 2 acme_again acme_again refl refl refl
      (refl, refl)

abbrev mark_again : Edited → Edited
mark_again panics = panics
mark_again (edited t stored message) = key_mark fine no_score t stored

-- Its status is filtered out, the cursor stays below the only row, and the same key panics.
marked_twice : mark_again (key_mark fine no_score only_new []) ≡ panics
unfolding key_mark find_from ◌==◌ advance apply_filter_and_sort job_matches sort_stable
    has_active_filters to_lower trim_space lower leb_text get
marked_twice = refl
