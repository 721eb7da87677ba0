-- ===== src/Tuiapp/Edits/Deleted.antt =====
-- What is left of the list of jobs when one is deleted, and when that is not saved.
use jobscout.Prelude.{
  ℕ, zero, suc, ◌≡◌, refl, ap, false, List, [], ◌∷◌, ◌++◌, arith, Option, length, leb, take, drop,
}
use jobscout.Prelude.Int.{pos}
use jobscout.Text.{Text}
use jobscout.Domain.Job.{Job}
use jobscout.Tuiapp.Edits.{overwrite, saved_or, delete_job}

-- The list less the element at a position.
abbrev pub without : ℕ → List Job → List Job
without i [] = []
without zero (j ∷ jobs) = jobs
without (suc i) (j ∷ jobs) = j ∷ without i jobs

-- The last element alone.
abbrev pub last_of : List Job → List Job
last_of [] = []
last_of (j ∷ []) = j ∷ []
last_of (j ∷ k ∷ jobs) = last_of (k ∷ jobs)

take-drop : (i : ℕ) (jobs : List Job) → take i jobs ++ drop (suc i) jobs ≡ without i jobs
take-drop zero [] = refl
take-drop zero (j ∷ jobs) = refl
take-drop (suc i) [] = refl
take-drop (suc i) (j ∷ jobs) = ap (◌∷◌ j) (take-drop i jobs)

overwrite_one_down :
    (j : Job) (jobs : List Job) → overwrite jobs (j ∷ jobs) ≡ jobs ++ last_of (j ∷ jobs)
unfolding overwrite
overwrite_one_down j [] = refl
overwrite_one_down j (k ∷ jobs) = ap (◌∷◌ k) (overwrite_one_down k jobs)

moved :
    (i : ℕ) (jobs : List Job)
    → leb (length jobs) i ≡ false
    → take i jobs ++ overwrite (drop (suc i) jobs) (drop i jobs) ≡ without i jobs ++ last_of jobs
moved i [] h = absurd (ground (arith, h))
moved zero (j ∷ jobs) h = overwrite_one_down j jobs
moved (suc i) (j ∷ []) h = absurd (ground (arith, h))
moved (suc i) (j ∷ k ∷ jobs) h = ap (◌∷◌ j) (moved i (k ∷ jobs) (ground (arith, h)))

length-without :
    (i : ℕ) (jobs : List Job)
    → leb (length jobs) i ≡ false
    → length (without i jobs ++ last_of jobs) ≡ length jobs
length-without i [] h = absurd (ground (arith, h))
length-without zero (j ∷ []) h = refl
length-without zero (j ∷ k ∷ jobs) h = ap suc (length-without zero (k ∷ jobs) (ground arith))
length-without (suc i) (j ∷ []) h = absurd (ground (arith, h))
length-without (suc i) (j ∷ k ∷ jobs) h = ap suc (length-without i (k ∷ jobs) (ground (arith, h)))

module _ (save_error : List Job → Option Text) where
  -- The deletion of a job within the list saves the list without it, and returns that list when it is
  -- saved; but in any case the list that was given now holds the others with the last job once more at
  -- the end, in its old length, and when it is not saved, it is this list that is returned.
  pub delete_job-outcome :
      (jobs : List Job) (i : ℕ)
      → leb (length jobs) i ≡ false
      → let d = delete_job save_error jobs (pos i) in
        ((d.error ≡ save_error (without i jobs))
          × (d.jobs ≡ saved_or (save_error (without i jobs)) (without i jobs) d.given))
        × ((d.given ≡ without i jobs ++ last_of jobs) × (length d.given ≡ length jobs))
  unfolding delete_job
  delete_job-outcome jobs i h =
      rw (h, take-drop i jobs, moved i jobs h) ((refl, refl), (refl, length-without i jobs h))
