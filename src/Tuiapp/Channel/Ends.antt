-- ===== src/Tuiapp/Channel/Ends.antt =====
-- The loop that waits for a message ends: it returns, or a sender has to act.
use jobscout.Prelude.{ℕ, zero, suc, ◌<◌, ◌≢◌, Bool, true, false, [], ◌∷◌, arith}
use jobscout.Tuiapp.Channel.{
  Chan, nil, chan, out_of_fuel, wait_loop, turns, wait_for, select_job, select_text, resume,
}

module _ {T J : Type 0} where
  wait_loop-ne-out_of_fuel :
      (fuel : ℕ) (ch : Chan T) (job_ch : Chan J)
      → turns ch job_ch < fuel
      → wait_loop fuel ch job_ch ≢ out_of_fuel
  unfolding wait_loop
  wait_loop-ne-out_of_fuel zero ch job_ch h = absurd (omega arith)
  wait_loop-ne-out_of_fuel (suc fuel) nil nil h = ground arith
  wait_loop-ne-out_of_fuel (suc fuel) nil (chan [] true) h =
      ground (arith, wait_loop-ne-out_of_fuel fuel nil nil)
  wait_loop-ne-out_of_fuel (suc fuel) nil (chan [] false) h = ground arith
  wait_loop-ne-out_of_fuel (suc fuel) nil (chan (j ∷ js) c) h = ground arith
  wait_loop-ne-out_of_fuel (suc fuel) (chan [] true) nil h = ground arith
  wait_loop-ne-out_of_fuel (suc fuel) (chan [] false) nil h = ground arith
  wait_loop-ne-out_of_fuel (suc fuel) (chan (t ∷ ts) c) nil h = ground arith
  wait_loop-ne-out_of_fuel (suc fuel) (chan ts c) (chan [] true) h =
      ground (arith, wait_loop-ne-out_of_fuel fuel (chan ts c) nil)
  wait_loop-ne-out_of_fuel (suc fuel) (chan [] true) (chan [] false) h =
      ground (arith, wait_loop-ne-out_of_fuel fuel nil (chan [] false))
  wait_loop-ne-out_of_fuel (suc fuel) (chan [] false) (chan [] false) h = ground arith
  wait_loop-ne-out_of_fuel (suc fuel) (chan (t ∷ ts) c) (chan [] false) h = ground arith
  wait_loop-ne-out_of_fuel (suc fuel) (chan ts c) (chan (j ∷ js) d) h = ground arith

  select_job-ne-out_of_fuel : (ch : Chan T) (job_ch : Chan J) → select_job ch job_ch ≢ out_of_fuel
  unfolding wait_for
  select_job-ne-out_of_fuel ch nil = ground arith
  select_job-ne-out_of_fuel nil (chan [] true) = ground arith
  select_job-ne-out_of_fuel (chan ts c) (chan [] true) =
      wait_loop-ne-out_of_fuel 2 (chan ts c) nil (omega arith)
  select_job-ne-out_of_fuel ch (chan [] false) = ground arith
  select_job-ne-out_of_fuel ch (chan (j ∷ js) c) = ground arith

  select_text-ne-out_of_fuel : (ch : Chan T) (job_ch : Chan J) → select_text ch job_ch ≢ out_of_fuel
  unfolding wait_for
  select_text-ne-out_of_fuel nil job_ch = ground arith
  select_text-ne-out_of_fuel (chan [] true) nil = ground arith
  select_text-ne-out_of_fuel (chan [] true) (chan js c) =
      wait_loop-ne-out_of_fuel 2 nil (chan js c) (omega arith)
  select_text-ne-out_of_fuel (chan [] false) job_ch = ground arith
  select_text-ne-out_of_fuel (chan (t ∷ ts) c) job_ch = ground arith

  -- The wait for a message of a background task ends: after at most one turn of its loop for each
  -- channel that is not nil, and one more, it returns a message or blocks until a sender acts, and
  -- so it does after a sender has acted, whichever channel the `select` takes.
  pub wait_for-Ends :
      (ch : Chan T) (job_ch : Chan J)
      → (wait_for ch job_ch ≢ out_of_fuel)
        × ((job_first : Bool) → resume job_first ch job_ch ≢ out_of_fuel)
  unfolding wait_for resume
  wait_for-Ends ch job_ch = (
    wait_loop-ne-out_of_fuel (suc (turns ch job_ch)) ch job_ch (omega arith),
    λ job_first.
        ground (arith, select_job-ne-out_of_fuel ch job_ch, select_text-ne-out_of_fuel ch job_ch),
  )
