-- ===== src/Tuiapp/Channel/Drained.antt =====
-- Once both senders of a background task have finished, its messages run out.
use jobscout.Prelude.{
  ℕ, zero, suc, ◌+◌, ◌≡◌, ap, ◌∙◌, refl, true, List, [], ◌∷◌, ◌++◌, arith, Option, none, some, map,
  length, length-map,
}
use jobscout.Tuiapp.Channel.{
  Chan, nil, chan, job_message, text_message, done_message, waits, out_of_fuel, wait_loop, wait_for,
}

pub data Delivered (T J : Type 0) : Type 0 where
  of_job : J → Delivered T J
  of_text : T → Delivered T J

module _ {T J : Type 0} where
  abbrev before : Delivered T J → Option (List (Delivered T J)) → Option (List (Delivered T J))
  before m none = none
  before m (some ms) = some (m ∷ ms)

  -- The messages of at most `n` commands, each waiting on the channels that the message before it
  -- named, up to the one that says that the task is done; `none` if that one is not reached.
  unfoldable pub drain : ℕ → Chan T → Chan J → Option (List (Delivered T J))
  drain zero ch job_ch = none
  drain (suc n) ch job_ch = elim (wait_for ch job_ch) [
    | job_message j c d ↦ before (of_job j) (drain n c d)
    | text_message t c d ↦ before (of_text t) (drain n c d)
    | done_message ↦ some []
    | waits c d ↦ none
    | out_of_fuel ↦ none
  ]

  drain_texts : (ts : List T) → drain (suc (length ts)) (chan ts true) nil ≡ some (map of_text ts)
  unfolding drain wait_for wait_loop
  drain_texts [] = refl
  drain_texts (t ∷ ts) = ap (before (of_text t)) (drain_texts ts)

  -- the first text after the last job
  drain_last :
      (ts : List T) → drain (suc (length ts)) (chan ts true) (chan [] true) ≡ some (map of_text ts)
  unfolding drain wait_for wait_loop
  drain_last [] = refl
  drain_last (t ∷ ts) = ap (before (of_text t)) (drain_texts ts)

  -- all the jobs, then all the texts
  abbrev pub messages : List T → List J → List (Delivered T J)
  messages ts js = map of_job js ++ map of_text ts

  length-messages : (ts : List T) (js : List J) → length (messages ts js) ≡ length js + length ts
  length-messages ts [] = omega (arith, length-map of_text ts)
  length-messages ts (j ∷ js) = omega (arith, length-messages ts js)

  drain_held :
      (ts : List T) (js : List J)
      → drain (suc (length (messages ts js))) (chan ts true) (chan js true) ≡ some (messages ts js)
  unfolding drain wait_for wait_loop
  drain_held ts [] =
      ap (λ n. drain (suc n) (chan ts true) (chan [] true)) (length-map of_text ts) ∙ drain_last ts
  drain_held ts (j ∷ js) = ap (before (of_job j)) (drain_held ts js)

  -- When both senders have closed their channels, one command for each job and each text that is held
  -- and one more suffice: they give all the jobs in order, then all the texts in order, and then that
  -- the task is done.
  pub drain_closed :
      (ts : List T) (js : List J)
      → drain (length js + length ts + 1) (chan ts true) (chan js true) ≡ some (messages ts js)
  drain_closed ts js =
      ap (λ n. drain n (chan ts true) (chan js true)) (omega (arith, length-messages ts js))
      ∙ drain_held ts js
