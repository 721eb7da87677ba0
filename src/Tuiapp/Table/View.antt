-- ===== src/Tuiapp/Table/View.antt =====
-- What applyFilterAndSort shows.
use jobscout.Prelude.{
  ℕ, suc, ◌≡◌, refl, Bool, true, false, ◌||◌, List, [], ◌∷◌, arith, is_empty, length, if◌then◌else◌,
}
use mathlib.Core.List.{Perm}
use jobscout.Prelude.Int.{ℤ, pos, ltb_ℤ, leb_ℤ}
use jobscout.Prelude.Sorting.{
  select, sort_stable, sort_stable-Perm, sort_stable-IsSortedBy, select-sort_stable, IsSortedBy,
}
use jobscout.Text.{Text, to_lower}
use jobscout.Text.Equality.{eq_iff, eq_refl}
use jobscout.Text.Order.{leb_text_antisym, leb_text_total}
use jobscout.Domain.Job.{Job}
use jobscout.Tuiapp.Table.{
  Table, Comparison, less, same, more, compare_int, compare_text, compare_jobs, job_less,
  job_matches, apply_filter_and_sort, last_row,
}

abbrev flip : Comparison → Comparison
flip less = more
flip same = same
flip more = less

abbrev is_same : Comparison → Bool
is_same less = false
is_same same = true
is_same more = false

compare_int-flip : (a b : ℤ) → compare_int b a ≡ flip (compare_int a b)
unfolding compare_int
compare_int-flip a b = ground arith

compare_text-flip : (a b : Text) → compare_text b a ≡ flip (compare_text a b)
unfolding compare_text
compare_text-flip a b =
    ground (arith, eq_iff a b, eq_iff b a, leb_text_antisym a b, leb_text_total a b)

module _ (score : Job → ℤ) where
  compare_jobs-flip :
      (n : ℕ) (a b : Job) → compare_jobs score n b a ≡ flip (compare_jobs score n a b)
  unfolding compare_jobs
  compare_jobs-flip n a b = ground (
    arith,
    compare_int-flip (score a) (score b),
    compare_text-flip (to_lower a.company) (to_lower b.company),
    compare_text-flip (to_lower a.title) (to_lower b.title),
    compare_text-flip (to_lower a.status) (to_lower b.status),
    compare_int-flip a.date_added b.date_added,
  )

  job_less-asym :
      (t : Table) (a b : Job) → job_less score t a b ≡ true → job_less score t b a ≡ false
  unfolding job_less
  job_less-asym t a b h = ground (arith, compare_jobs-flip t.sort_by a b)

compare_int-ties :
    (c x y : ℤ)
    → is_same (compare_int c x) ≡ true
    → is_same (compare_int c y) ≡ true
    → compare_int x y ≡ same
unfolding compare_int
compare_int-ties c x y h k = ground arith

compare_text-ties :
    (c x y : Text)
    → is_same (compare_text c x) ≡ true
    → is_same (compare_text c y) ≡ true
    → compare_text x y ≡ same
unfolding compare_text
compare_text-ties c x y h k = ground (arith, eq_iff c x, eq_iff c y, eq_refl x)

module _ (score : Job → ℤ) where
  compare_jobs-ties :
      (n : ℕ) (c x y : Job)
      → is_same (compare_jobs score n c x) ≡ true
      → is_same (compare_jobs score n c y) ≡ true
      → compare_jobs score n x y ≡ same
  unfolding compare_jobs
  compare_jobs-ties n c x y h k = ground (
    arith,
    compare_int-ties (score c) (score x) (score y),
    compare_text-ties (to_lower c.company) (to_lower x.company) (to_lower y.company),
    compare_text-ties (to_lower c.title) (to_lower x.title) (to_lower y.title),
    compare_text-ties (to_lower c.status) (to_lower x.status) (to_lower y.status),
    compare_int-ties c.date_added x.date_added y.date_added,
  )

  -- The jobs that are neither less nor more than a job.
  abbrev pub tied : Table → Job → Job → Bool
  tied t c x = is_same (compare_jobs score t.sort_by c x)

  job_less-tied :
      (t : Table) (c x y : Job)
      → tied t c x ≡ true
      → tied t c y ≡ true
      → job_less score t x y ≡ false
  unfolding job_less
  job_less-tied t c x y h k = ground (arith, compare_jobs-ties t.sort_by c x y h k)

  -- What a table shows after the filter and the sort.
  pub record IsView (t s : Table) : Type 0 where
    -- exactly the jobs that match, each as often as it is there
    pub shown : Perm s.filtered_jobs (select (job_matches t) t.all_jobs)
    -- no job is less than the one above it
    pub sorted : IsSortedBy (job_less score t) s.filtered_jobs
    -- jobs that tie stand in the order of all jobs
    pub stable :
        (c : Job)
        → select (tied t c) s.filtered_jobs ≡ select (tied t c) (select (job_matches t) t.all_jobs)
    -- the cursor is not behind the last row, but on it if it was behind, and stays where it was
    -- otherwise
    pub within : ltb_ℤ s.cursor (pos (length s.filtered_jobs)) || is_empty s.filtered_jobs ≡ true
    pub pulled :
        ltb_ℤ t.cursor (pos (length s.filtered_jobs)) ≡ false
        → is_empty s.filtered_jobs ≡ false
        → (k : ℕ) × ((s.cursor ≡ pos k) × (suc k ≡ length s.filtered_jobs))
    pub kept :
        ltb_ℤ t.cursor (pos (length s.filtered_jobs)) ≡ true
        → is_empty s.filtered_jobs ≡ false
        → s.cursor ≡ t.cursor
    pub at_top : is_empty s.filtered_jobs ≡ true → s.cursor ≡ pos 0

  -- The table shows exactly the jobs that match the search, or without one the filters; they are
  -- sorted by the chosen column in the chosen direction, and jobs that tie keep their order. The
  -- cursor is moved to the last row if it was behind it, to the top if no job is shown, and is not
  -- moved otherwise.
  pub apply_filter_and_sort-IsView : (t : Table) → IsView t (apply_filter_and_sort score t)
  unfolding apply_filter_and_sort
  apply_filter_and_sort-IsView t =
      let chosen = select (job_matches t) t.all_jobs in
      record {
        shown = sort_stable-Perm (job_less score t) chosen;
        sorted = sort_stable-IsSortedBy (job_less score t) (job_less-asym score t) chosen;
        stable = λ c. select-sort_stable (job_less score t) (tied t c) (job_less-tied t c) chosen;
        within = cursor_within t.cursor (sort_stable (job_less score t) chosen);
        pulled = cursor_pulled t.cursor (sort_stable (job_less score t) chosen);
        kept = λ h k. ground arith;
        at_top = λ h. ground arith;
      }
    where
      cursor_within :
          (c : ℤ) (jobs : List Job)
          → ltb_ℤ
                (if is_empty jobs
                  then pos 0
                  else if leb_ℤ (pos (length jobs)) c
                  then last_row jobs
                  else c)
                (pos (length jobs))
              || is_empty jobs
            ≡ true
      cursor_within c [] = ground arith
      cursor_within c (j ∷ js) = ground arith

      cursor_pulled :
          (c : ℤ) (jobs : List Job)
          → ltb_ℤ c (pos (length jobs)) ≡ false
          → is_empty jobs ≡ false
          → (k : ℕ) × (((if is_empty jobs
                  then pos 0
                  else if leb_ℤ (pos (length jobs)) c
                  then last_row jobs
                  else c)
                ≡ pos k)
              × (suc k ≡ length jobs))
      cursor_pulled c [] h n = absurd (ground arith)
      cursor_pulled c (j ∷ js) h n = (length js, (ground arith, refl))
