-- ===== src/Examples/TableRuns.antt =====
-- The table of jobs.
use jobscout.Prelude.{◌≡◌, refl, true, List, [], ◌∷◌, map, arith}
use jobscout.Prelude.Int.{ℤ, pos, negsuc}
use jobscout.Prelude.Sorting.{sort_stable}
use jobscout.Text.{codes, ◌==◌, lower, to_lower, trim_space}
use jobscout.Text.Order.{leb_text}
use jobscout.Domain.Job.{Job}
use jobscout.Tuiapp.Table.{Table, has_active_filters, apply_filter_and_sort}
use jobscout.Tuiapp.Table.Keys.{
  key_up, key_down, key_page_up, key_home, move_cursor, key_end, key_page_down,
}
use jobscout.Tuiapp.Table.View.{IsView, apply_filter_and_sort-IsView}
use jobscout.Tuiapp.Table.Placed.{IsPlaced, placed, keys-IsPlaced}
use jobscout.Tuiapp.Table.Cursor.{refilled, before_first_row}
use jobscout.Examples.{acme, acme_again, globex}

abbrev pub no_score : Job → ℤ
no_score job = pos 0

abbrev three : List Job
three = globex ∷ acme ∷ acme_again ∷ []

abbrev by_title : Table
by_title = record {
  all_jobs = three;
  filtered_jobs = [];
  active_filters = [];
  search_query = [];
  sort_by = 2;
  sort_desc = true;
  cursor = pos 7;
  y_offset = pos 0;
  table_height = pos 20;
}

-- The two engineers tie, and keep their order.
titles :
    (map (λ j. j.title) (apply_filter_and_sort no_score by_title).filtered_jobs
      ≡ codes "Engineer" ∷ codes "engineer" ∷ codes "Analyst" ∷ [])
    × ((apply_filter_and_sort no_score by_title).cursor ≡ pos 2)
unfolding apply_filter_and_sort sort_stable has_active_filters to_lower trim_space lower leb_text
    ◌==◌
titles = (refl, refl)

apply_filter_and_sort-IsView_example :
    IsView no_score by_title (apply_filter_and_sort no_score by_title)
apply_filter_and_sort-IsView_example = apply_filter_and_sort-IsView no_score by_title

before_first_row_example :
    ((refilled no_score three (key_end by_title)).cursor ≡ negsuc 0)
    × ((refilled no_score three (key_page_down by_title)).cursor ≡ negsuc 0)
unfolding apply_filter_and_sort sort_stable has_active_filters key_end key_page_down to_lower
    trim_space lower leb_text ◌==◌
before_first_row_example = before_first_row by_title refl refl no_score three refl refl

abbrev pub shown : Table
shown = record by_title { filtered_jobs = three }

keys-IsPlaced_example :
    IsPlaced (key_up (placed shown 1 0 20))
    × IsPlaced (key_down (placed shown 1 0 20))
    × IsPlaced (key_page_up (placed shown 1 0 20))
    × IsPlaced (key_page_down (placed shown 1 0 20))
    × IsPlaced (key_home (placed shown 1 0 20))
    × IsPlaced (key_end (placed shown 1 0 20))
    × ((delta : ℤ) → IsPlaced (move_cursor delta (placed shown 1 0 20)))
keys-IsPlaced_example = keys-IsPlaced shown 1 0 20 (omega arith) (omega arith) (omega arith)
