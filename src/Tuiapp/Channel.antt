-- ===== src/Tuiapp/Channel.antt =====
-- waitForBackgroundTaskProgress of internal/tuiapp/background_task.go: the next message from the two
-- channels of a background task, one for texts and one for jobs.
pub mod Ends
pub mod Follows
pub mod Delivery
pub mod Drained
use jobscout.Prelude.{ℕ, zero, suc, ◌+◌, Bool, true, false, List, [], ◌∷◌, if◌then◌else◌}

-- A channel: nil, or what it holds and whether it is closed.
pub data Chan (A : Type 0) : Type 0 where
  nil : Chan A
  chan : List A → Bool → Chan A

-- What a receive does: it takes a value, finds the channel closed and empty, or blocks. Of a nil
-- channel it always blocks.
pub data Received (A : Type 0) : Type 0 where
  value : A → Chan A → Received A
  finished : Received A
  blocked : Received A

module _ {A : Type 0} where
  abbrev pub is_nil : Chan A → Bool
  is_nil nil = true
  is_nil (chan queue closed) = false

  abbrev pub receive : Chan A → Received A
  receive nil = blocked
  receive (chan (a ∷ queue) closed) = value a (chan queue closed)
  receive (chan [] true) = finished
  receive (chan [] false) = blocked

  abbrev pub ready : Received A → Bool
  ready blocked = false
  ready _ = true

-- The message of the command: a job, a text, or that the task is done, with the channels to wait on
-- next; or the `select` without a default waits for a sender; or the fuel is used up.
pub data Outcome (T J : Type 0) : Type 0 where
  job_message : J → Chan T → Chan J → Outcome T J
  text_message : T → Chan T → Chan J → Outcome T J
  done_message : Outcome T J
  waits : Chan T → Chan J → Outcome T J
  out_of_fuel : Outcome T J

module _ {T J : Type 0} where
  -- the loop, from its beginning
  unfoldable pub wait_loop : ℕ → Chan T → Chan J → Outcome T J
  wait_loop zero ch job_ch = out_of_fuel
  wait_loop (suc fuel) ch job_ch =
      let without_jobs = wait_loop fuel ch nil in
      let without_texts = if is_nil job_ch then done_message else wait_loop fuel nil job_ch in
      elim (receive job_ch) [
        | value job rest ↦ job_message job ch rest
        | finished ↦ without_jobs
        | blocked ↦ elim (receive ch) [
          | value text rest ↦ text_message text rest job_ch
          | finished ↦ without_texts
          | blocked ↦
              if is_nil ch
              then (if is_nil job_ch then done_message else waits ch job_ch)
              else waits ch job_ch
        ]
      ]

  -- Each turn of the loop that does not return makes a channel nil.
  abbrev pub turns : Chan T → Chan J → ℕ
  turns ch job_ch = (if is_nil ch then 0 else 1) + (if is_nil job_ch then 0 else 1)

  unfoldable pub wait_for : Chan T → Chan J → Outcome T J
  unfolding wait_loop
  wait_for ch job_ch = wait_loop (suc (turns ch job_ch)) ch job_ch

  -- The blocking `select`, once a sender has acted; `job_first` is the choice when both channels are
  -- ready.
  abbrev select_job : Chan T → Chan J → Outcome T J
  select_job ch job_ch = elim (receive job_ch) [
    | value job rest ↦ job_message job ch rest
    | finished ↦ if is_nil ch then done_message else wait_for ch nil
    | blocked ↦ waits ch job_ch
  ]

  abbrev select_text : Chan T → Chan J → Outcome T J
  select_text ch job_ch = elim (receive ch) [
    | value text rest ↦ text_message text rest job_ch
    | finished ↦ if is_nil job_ch then done_message else wait_for nil job_ch
    | blocked ↦ waits ch job_ch
  ]

  unfoldable pub resume : Bool → Chan T → Chan J → Outcome T J
  unfolding wait_for
  resume job_first ch job_ch =
      if ready (receive job_ch)
      then (if ready (receive ch)
          then (if job_first then select_job ch job_ch else select_text ch job_ch)
          else select_job ch job_ch)
      else select_text ch job_ch
