-- ===== src/Tuiapp/Table/Cursor.antt =====
-- Where the keys put the cursor when no job is shown.
use jobscout.Prelude.{◌≡◌, ◌∙◌, true, false, List, [], arith, is_empty}
use jobscout.Prelude.Int.{ℤ, pos, negsuc, leb_ℤ, add_ℤ}
use jobscout.Domain.Job.{Job}
use jobscout.Tuiapp.Table.{Table, apply_filter_and_sort}
use jobscout.Tuiapp.Table.Keys.{key_page_down, key_end}
use jobscout.Tuiapp.Table.View.{apply_filter_and_sort-IsView}

-- The table after new jobs came in.
abbrev pub refilled : (Job → ℤ) → List Job → Table → Table
refilled score jobs t = apply_filter_and_sort score (record t { all_jobs = jobs })

module _ (score : Job → ℤ) (jobs : List Job) (t : Table) where
  stays_before :
      t.cursor ≡ negsuc 0
      → is_empty (refilled score jobs t).filtered_jobs ≡ false
      → (refilled score jobs t).cursor ≡ negsuc 0
  stays_before h some_shown =
      (apply_filter_and_sort-IsView score (record t { all_jobs = jobs })).kept (rw h (ground arith))
        some_shown
      ∙ h

module _ (t : Table) (none_shown : t.filtered_jobs ≡ []) where
  cursor-key_end : (key_end t).cursor ≡ negsuc 0
  unfolding key_end
  cursor-key_end = rw none_shown (ground arith)

  cursor-key_page_down :
      leb_ℤ (pos 0) (add_ℤ t.cursor t.table_height) ≡ true → (key_page_down t).cursor ≡ negsuc 0
  unfolding key_page_down
  cursor-key_page_down h = rw none_shown (ground (arith, h))

  -- While no job is shown, the keys `end` and `pgdown` put the cursor on row -1, and there it stays
  -- when jobs come in and are shown.
  pub before_first_row :
      leb_ℤ (pos 0) (add_ℤ t.cursor t.table_height) ≡ true
      → (score : Job → ℤ) (jobs : List Job)
      → is_empty (refilled score jobs (key_end t)).filtered_jobs ≡ false
      → is_empty (refilled score jobs (key_page_down t)).filtered_jobs ≡ false
      → ((refilled score jobs (key_end t)).cursor ≡ negsuc 0)
        × ((refilled score jobs (key_page_down t)).cursor ≡ negsuc 0)
  before_first_row h score jobs e p = (
    stays_before score jobs (key_end t) cursor-key_end e,
    stays_before score jobs (key_page_down t) (cursor-key_page_down h) p,
  )
