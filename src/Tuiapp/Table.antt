-- ===== src/Tuiapp/Table.antt =====
-- The table of jobs: what it shows (internal/tuiapp/filters.go), and the keys that move its cursor
-- (update_keys.go, overlay_actions.go), which have a module of their own. Of the model it holds the
-- fields that these functions read or write. `score` is the health score of a job, 0 without a cached
-- one.
pub mod View
pub mod Keys
pub mod Placed
pub mod Cursor
use jobscout.Prelude.{
  ℕ, Bool, true, false, not, ◌&&◌, ◌||◌, List, [], ◌∷◌, ◌++◌, Option, none, some, is_empty, length,
  eqb, if◌then◌else◌,
}
use jobscout.Prelude.Int.{ℤ, pos, negsuc, ltb_ℤ, leb_ℤ, add_ℤ, sub_ℤ}
use jobscout.Prelude.Sorting.{select, sort_stable}
use jobscout.Text.{Text, ◌==◌, to_lower, trim_space, contains}
use jobscout.Text.Order.{leb_text}
use jobscout.Text.Dict.{Dict, text_Eq, get}
use jobscout.Domain.Job.{Job}
use jobscout.Runtime.Stores.{Time}
use jobscout.Runtime.Stores.Interface.{HealthCacheEntry}
use jobscout.Health.Cache.{CachedResult, cached_health_for_job}

pub record Table : Type 0 where
  pub all_jobs : List Job
  pub filtered_jobs : List Job
  pub active_filters : Dict Text Bool
  pub search_query : Text
  pub sort_by : ℕ
  pub sort_desc : Bool
  pub cursor : ℤ
  pub y_offset : ℤ
  pub table_height : ℤ

unfoldable pub calculate_table_height : ℤ → ℤ
calculate_table_height term_height =
    let height = sub_ℤ term_height (pos 10) in if ltb_ℤ height (pos 5) then pos 5 else height

-- hasActiveFilters
unfoldable pub has_active_filters : Dict Text Bool → Bool
has_active_filters [] = false
has_active_filters ((status, enabled) ∷ values) = enabled || has_active_filters values

abbrev is_true : Option Bool → Bool
is_true none = false
is_true (some b) = b

-- the test of the loop in applyFilterAndSort
unfoldable pub job_matches : Table → Job → Bool
unfolding has_active_filters
job_matches t job =
    let search = trim_space (to_lower t.search_query) in
    let searching = not (is_empty search) in
    (searching
      || not (has_active_filters t.active_filters)
      || is_true (get job.status t.active_filters))
    && (not searching
        || contains (to_lower job.company) search
        || contains (to_lower job.title) search)

-- `cmp` of the comparison, which is -1, 0 or 1
pub data Comparison : Type 0 where
  less same more : Comparison

unfoldable pub compare_int : ℤ → ℤ → Comparison
compare_int a b = if ltb_ℤ a b then less else if ltb_ℤ b a then more else same

-- strings.Compare
unfoldable pub compare_text : Text → Text → Comparison
compare_text a b = if a == b then same else if leb_text a b then less else more

abbrev pub is_less : Comparison → Bool
is_less less = true
is_less same = false
is_less more = false

abbrev pub is_more : Comparison → Bool
is_more less = false
is_more same = false
is_more more = true

-- the score in the comparison by health
abbrev score_or_zero : {Signal : Type 0} → Option (CachedResult Signal) → ℤ
score_or_zero none = pos 0
score_or_zero (some r) = r.score

unfoldable pub job_score :
    {Signal : Type 0}
    → (Text → Option Text)
    → Time
    → Dict Text (HealthCacheEntry (CachedResult Signal))
    → Job
    → ℤ
job_score hostname now cache job = score_or_zero (cached_health_for_job hostname now cache job)

-- the last row, or -1
abbrev pub last_row : List Job → ℤ
last_row jobs = sub_ℤ (pos (length jobs)) (pos 1)

abbrev reset_cursor : ℤ → List Job → ℤ
reset_cursor cursor jobs =
    if is_empty jobs
    then pos 0
    else if leb_ℤ (pos (length jobs)) cursor
    then last_row jobs
    else cursor

module _ (score : Job → ℤ) where
  -- the switch on sortBy
  unfoldable pub compare_jobs : ℕ → Job → Job → Comparison
  unfolding compare_int compare_text
  compare_jobs sort_by a b =
      if eqb sort_by 0
      then compare_int (score a) (score b)
      else if eqb sort_by 1
      then compare_text (to_lower a.company) (to_lower b.company)
      else if eqb sort_by 2
      then compare_text (to_lower a.title) (to_lower b.title)
      else if eqb sort_by 3
      then compare_text (to_lower a.status) (to_lower b.status)
      else if eqb sort_by 4
      then compare_int a.date_added b.date_added
      else same

  unfoldable pub job_less : Table → Job → Job → Bool
  unfolding compare_jobs
  job_less t a b =
      if t.sort_desc
      then is_more (compare_jobs t.sort_by a b)
      else is_less (compare_jobs t.sort_by a b)

  unfoldable pub apply_filter_and_sort : Table → Table
  unfolding job_matches job_less
  apply_filter_and_sort t =
      let jobs = sort_stable (job_less t) (select (job_matches t) t.all_jobs) in
      record t { filtered_jobs = jobs; cursor = reset_cursor t.cursor jobs }

  -- the keys 1 to 5
  unfoldable pub key_sort : ℕ → Table → Table
  unfolding apply_filter_and_sort
  key_sort new_sort t = apply_filter_and_sort (
      if eqb t.sort_by new_sort
      then record t { sort_desc = not t.sort_desc }
      else record t { sort_by = new_sort; sort_desc = eqb new_sort 0 || eqb new_sort 4 })
