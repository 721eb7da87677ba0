-- ===== src/Tuiapp/Edits/Marked.antt =====
-- Where the cursor stands after a job was marked as viewed.
use jobscout.Prelude.{
  is_some, if◌then◌else◌, ℕ, zero, suc, ◌+◌, ◌<◌, ◌≡◌, ◌↔◌, refl, sym, ap, ◌∙◌, subst, inl, inr,
  Bool, true, false, ◌&&◌, List, [], ◌∷◌, arith, Option, none, some, is_empty, length, modify,
  get_elem?, Bool-cases,
}
use jobscout.Prelude.Int.{ℤ, pos, ltb_ℤ, sub_ℤ}
use jobscout.Text.{Text, codes, ◌==◌}
use jobscout.Text.Equality.{eq_iff}
use jobscout.Domain.Job.{Job}
use jobscout.Tuiapp.Table.{Table, apply_filter_and_sort}
use jobscout.Tuiapp.Table.Cursor.{refilled}
use jobscout.Tuiapp.Edits.{edited, find_from, saved_or, advance, key_mark}

-- The jobs and their view afterwards, and the row after with whether there is one.
abbrev pub IsRowWhen : ℕ → List Job → List Job → Table → Type 0
IsRowWhen c jobs view t =
    ((t.all_jobs ≡ jobs) × (t.filtered_jobs ≡ view))
    × ((k : ℕ) × ((t.cursor ≡ pos k) × ((k < length view) ↔ (c < length view))))

advance-IsRowWhen : (c : ℕ) (t : Table) → IsRowWhen c t.all_jobs t.filtered_jobs (advance (pos c) t)
unfolding advance
advance-IsRowWhen c t =
    elim (Bool-cases (ltb_ℤ (pos c) (sub_ℤ (pos (length t.filtered_jobs)) (pos 1)))) [
      | inl h ↦ rw h ((refl, refl), (suc c, (ground arith, ground (arith, h))))
      | inr h ↦ rw h ((refl, refl), (c, (refl, ((λ k. k), (λ k. k)))))
    ]

-- The jobs are told apart by company and title.
abbrev pub IsSame : Job → Job → Type 0
IsSame current j = (j.company ≡ current.company) × (j.title ≡ current.title)

-- At the position is a job like the current one, and at no earlier one.
pub record IsFirst (current : Job) (jobs : List Job) (i : ℕ) : Type 0 where
  pub like : (j : Job) × ((get_elem? jobs i ≡ some j) × IsSame current j)
  pub earlier : (k : ℕ) (j : Job) → k < i → get_elem? jobs k ≡ some j → ¬ IsSame current j

abbrev is_like : Job → Job → Bool
is_like current j = j.company == current.company && j.title == current.title

is_like-IsSame : (current j : Job) → (is_like current j ≡ true) ↔ IsSame current j
is_like-IsSame current j = (
  λ h. (
    (eq_iff j.company current.company).0 (ground (arith, h)),
    (eq_iff j.title current.title).0 (ground (arith, h)),
  ),
  λ (c, t).
      ground (arith, (eq_iff j.company current.company).1 c, (eq_iff j.title current.title).1 t),
)

IsFirst-here :
    (current j : Job) (jobs : List Job) → is_like current j ≡ true → IsFirst current (j ∷ jobs) 0
IsFirst-here current j jobs h = record {
  like = (j, (refl, (is_like-IsSame current j).0 h));
  earlier = λ k e before at_k. absurd (omega arith);
}

IsFirst-there :
    (current j : Job) (jobs : List Job) (i : ℕ)
    → is_like current j ≡ false
    → IsFirst current jobs i
    → IsFirst current (j ∷ jobs) (suc i)
IsFirst-there current j jobs i h first = record { like = first.like; earlier = differs }
  where
    differs : (k : ℕ) (e : Job) → k < suc i → get_elem? (j ∷ jobs) k ≡ some e → ¬ IsSame current e
    differs zero e before at_k same =
        let like = (is_like-IsSame current e).1 same in
        let there : j ≡ e = cc in
        let unlike : is_like current e ≡ false = ap (is_like current) (sym there) ∙ h in
        absurd (ground (arith, like, unlike))
    differs (suc k) e before at_k same = first.earlier k e (omega arith) at_k same

find_from-IsFirst :
    (b n : ℕ) (current like : Job) (jobs : List Job)
    → get_elem? jobs n ≡ some like
    → IsSame current like
    → (i : ℕ) × ((find_from b current jobs ≡ some (i + b)) × IsFirst current jobs i)
unfolding find_from
find_from-IsFirst b n current like [] at_n same = absurd (ground arith)
find_from-IsFirst b zero current like (j ∷ jobs) at_n same =
    let no_shift : 0 + b ≡ b = omega arith in
    let there : j ≡ like = cc in
    let h : is_like current j ≡ true =
      ap (is_like current) there ∙ (is_like-IsSame current like).1 same in
    (0, (rw (h, no_shift) refl, IsFirst-here current j jobs h))
find_from-IsFirst b (suc n) current like (j ∷ jobs) at_n same =
    let no_shift : 0 + b ≡ b = omega arith in
    elim (Bool-cases (is_like current j)) [
      | inl h ↦ (0, (rw (h, no_shift) refl, IsFirst-here current j jobs h))
      | inr h ↦
          let (i, (found, first)) = find_from-IsFirst (suc b) n current like jobs at_n same in
          let moved : i + suc b ≡ suc i + b = omega arith in
          (suc i, (rw (h, found, moved) refl, IsFirst-there current j jobs i h first))
    ]

find_from_zero-IsFirst :
    (n : ℕ) (current like : Job) (jobs : List Job)
    → get_elem? jobs n ≡ some like
    → IsSame current like
    → (i : ℕ) × ((find_from 0 current jobs ≡ some i) × IsFirst current jobs i)
find_from_zero-IsFirst n current like jobs at_n same =
    let (i, (found, first)) = find_from-IsFirst 0 n current like jobs at_n same in
    let here : i + 0 ≡ i = omega arith in (i, (found ∙ ap (λ k. some k) here, first))

all_jobs-refilled :
    (score : Job → ℤ) (jobs : List Job) (t : Table) → (refilled score jobs t).all_jobs ≡ jobs
unfolding apply_filter_and_sort
all_jobs-refilled score jobs t = refl

has_elem : (jobs : List Job) (c : ℕ) (j : Job) → get_elem? jobs c ≡ some j → is_empty jobs ≡ false
has_elem [] c j h = cc
has_elem (k ∷ jobs) c j h = refl

-- the job with the status that marks it
abbrev pub as_viewed : Job → Job
as_viewed job = record job { status = codes "Viewed" }

saved_or-eq :
    (error : Option Text) (jobs stored : List Job)
    → saved_or error jobs stored ≡ (if is_some error then stored else jobs)
saved_or-eq none jobs stored = refl
saved_or-eq (some e) jobs stored = refl

module _ (save_error : List Job → Option Text) (score : Job → ℤ) (t : Table)
    (stored : List Job) where
  -- Marking the selected job, in row `c`, when all jobs have one with its company and title, marks
  -- the first such job as viewed, saves the jobs if that can be done, and shows the new view; and the
  -- cursor stands on a row of it just if the view still has a row `c`.
  pub key_mark-IsRowWhen :
      (c n : ℕ) (current like : Job)
      → t.cursor ≡ pos c
      → get_elem? t.filtered_jobs c ≡ some current
      → get_elem? t.all_jobs n ≡ some like
      → IsSame current like
      → (i : ℕ) × (IsFirst current t.all_jobs i
          × (let jobs = modify t.all_jobs i as_viewed in
              (after : Table) × ((key_mark save_error score t stored
                  ≡ edited after (if is_some (save_error jobs) then stored else jobs) none)
                × IsRowWhen c jobs (refilled score jobs t).filtered_jobs after)))
  unfolding key_mark
  key_mark-IsRowWhen c n current like at_row shown at_n same =
      let (i, (found, first)) = find_from_zero-IsFirst n current like t.all_jobs at_n same in
      let jobs = modify t.all_jobs i as_viewed in
      let view = refilled score jobs t in
      let marks : key_mark save_error score t stored
          ≡ edited (advance (pos c) view) (saved_or (save_error jobs) jobs stored) none =
        rw (has_elem t.filtered_jobs c current shown, at_row, shown, found) refl in
      (
        i,
        (
          first,
          (
            advance (pos c) view,
            (
              marks
                  ∙ ap (λ kept. edited (advance (pos c) view) kept none)
                      (saved_or-eq _ jobs stored),
              subst (λ all. IsRowWhen c all view.filtered_jobs (advance (pos c) view))
                  (all_jobs-refilled score jobs t) (advance-IsRowWhen c view),
            ),
          ),
        ),
      )
