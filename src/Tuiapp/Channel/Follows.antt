-- ===== src/Tuiapp/Channel/Follows.antt =====
-- What a message of a background task says of its channels before and after it.
use jobscout.Prelude.{
  ℕ, zero, suc, ◌≡◌, not, sym, ap, ◌∙◌, refl, Bool, true, false, List, [], ◌∷◌, ◌++◌, append-nil,
  append_assoc, arith, if◌then◌else◌,
}
use jobscout.Tuiapp.Channel.{
  Chan, nil, chan, is_nil, Outcome, job_message, text_message, done_message, waits, out_of_fuel,
  wait_loop, turns, wait_for, select_job, select_text, ready, receive, resume,
}

module _ {A : Type 0} where
  -- what the channel holds
  abbrev pub queue : Chan A → List A
  queue nil = []
  queue (chan q closed) = q

  -- No more values can be sent.
  abbrev pub is_over : Chan A → Bool
  is_over nil = true
  is_over (chan q closed) = closed

  abbrev pub view : Chan A → List A × Bool
  view ch = (queue ch, is_over ch)

  -- The channel as a receiver sees it that has or has not made its own variable nil.
  abbrev pub heard : Bool → Chan A → Chan A
  heard true ch = ch
  heard false ch = nil

  -- The channel after a command whose variable for it is `after`: a nil variable says nothing of it.
  abbrev pub kept : Chan A → Chan A → Chan A
  kept nil before = before
  kept (chan q closed) before = chan q closed

  pub view-heard :
      (b : Bool) (ch : Chan A) → (b ≡ false → view ch ≡ ([], true)) → view (heard b ch) ≡ view ch
  view-heard true ch deaf = refl
  view-heard false ch deaf = sym (deaf refl)

  pub view-kept :
      (after before : Chan A) → view before ≡ view after → view (kept after before) ≡ view before
  view-kept nil before h = refl
  view-kept (chan q closed) before h = sym h

  pub view-kept_nil :
      (after before : Chan A)
      → view before ≡ view after
      → not (is_nil after) ≡ false
      → view (kept after before) ≡ ([], true)
  view-kept_nil nil before h n = h
  view-kept_nil (chan q closed) before h n = absurd (ground arith)

  pub view-kept_chan :
      (after before : Chan A) → is_nil after ≡ false → view (kept after before) ≡ view after
  view-kept_chan nil before h = absurd (ground arith)
  view-kept_chan (chan q closed) before h = refl

module _ {A : Type 0} where
  pub appended :
      (seen q sent : List A) (a : A) → seen ++ q ≡ sent → seen ++ (q ++ a ∷ []) ≡ sent ++ a ∷ []
  appended seen q sent a h = sym (append_assoc seen q (a ∷ [])) ∙ ap (λ t. t ++ a ∷ []) h

  pub shifted :
      (seen : List A) (a : A) (q sent : List A)
      → seen ++ a ∷ q ≡ sent
      → (seen ++ a ∷ []) ++ q ≡ sent
  shifted seen a q sent h = append_assoc seen (a ∷ []) q ∙ h

  pub emptied : (seen sent : List A) → seen ++ [] ≡ sent → seen ≡ sent
  emptied seen sent h = sym (append-nil seen) ∙ h

module _ {T J : Type 0} where
  -- What a message says of the channels before it, and of those after it: a value is taken from the
  -- front, and nothing else is lost, so a channel made nil held nothing and was closed.
  abbrev pub Follows : List T × Bool → List J × Bool → Outcome T J → Type 0
  Follows texts jobs (job_message j ch2 job_ch2) =
      ((jobs ≡ (j ∷ queue job_ch2, is_over job_ch2)) × (is_nil job_ch2 ≡ false))
      × (texts ≡ view ch2)
  Follows texts jobs (text_message t ch2 job_ch2) =
      ((texts ≡ (t ∷ queue ch2, is_over ch2)) × (is_nil ch2 ≡ false)) × (jobs ≡ view job_ch2)
  Follows texts jobs done_message = (texts ≡ ([], true)) × (jobs ≡ ([], true))
  Follows texts jobs (waits ch2 job_ch2) = (texts ≡ view ch2) × (jobs ≡ view job_ch2)
  Follows texts jobs out_of_fuel = Unit {0}

  Follows-wait_loop :
      (fuel : ℕ) (ch : Chan T) (job_ch : Chan J)
      → Follows (view ch) (view job_ch) (wait_loop fuel ch job_ch)
  unfolding wait_loop
  Follows-wait_loop zero ch job_ch = tt
  Follows-wait_loop (suc fuel) nil nil = (refl, refl)
  Follows-wait_loop (suc fuel) nil (chan [] true) = Follows-wait_loop fuel nil nil
  Follows-wait_loop (suc fuel) nil (chan [] false) = (refl, refl)
  Follows-wait_loop (suc fuel) nil (chan (j ∷ js) c) = ((refl, refl), refl)
  Follows-wait_loop (suc fuel) (chan [] true) nil = (refl, refl)
  Follows-wait_loop (suc fuel) (chan [] false) nil = (refl, refl)
  Follows-wait_loop (suc fuel) (chan (t ∷ ts) c) nil = ((refl, refl), refl)
  Follows-wait_loop (suc fuel) (chan ts c) (chan [] true) = Follows-wait_loop fuel (chan ts c) nil
  Follows-wait_loop (suc fuel) (chan [] true) (chan [] false) =
      Follows-wait_loop fuel nil (chan [] false)
  Follows-wait_loop (suc fuel) (chan [] false) (chan [] false) = (refl, refl)
  Follows-wait_loop (suc fuel) (chan (t ∷ ts) c) (chan [] false) = ((refl, refl), refl)
  Follows-wait_loop (suc fuel) (chan ts c) (chan (j ∷ js) d) = ((refl, refl), refl)

  pub Follows-wait_for :
      (ch : Chan T) (job_ch : Chan J) → Follows (view ch) (view job_ch) (wait_for ch job_ch)
  unfolding wait_for
  Follows-wait_for ch job_ch = Follows-wait_loop (suc (turns ch job_ch)) ch job_ch

  Follows-select_job :
      (ch : Chan T) (job_ch : Chan J) → Follows (view ch) (view job_ch) (select_job ch job_ch)
  Follows-select_job ch nil = (refl, refl)
  Follows-select_job nil (chan [] true) = (refl, refl)
  Follows-select_job (chan ts c) (chan [] true) = Follows-wait_for (chan ts c) nil
  Follows-select_job ch (chan [] false) = (refl, refl)
  Follows-select_job ch (chan (j ∷ js) c) = ((refl, refl), refl)

  Follows-select_text :
      (ch : Chan T) (job_ch : Chan J) → Follows (view ch) (view job_ch) (select_text ch job_ch)
  Follows-select_text nil job_ch = (refl, refl)
  Follows-select_text (chan [] true) nil = (refl, refl)
  Follows-select_text (chan [] true) (chan js c) = Follows-wait_for nil (chan js c)
  Follows-select_text (chan [] false) job_ch = (refl, refl)
  Follows-select_text (chan (t ∷ ts) c) job_ch = ((refl, refl), refl)

  Follows-if :
      (ch : Chan T) (job_ch : Chan J) (b : Bool) (o p : Outcome T J)
      → Follows (view ch) (view job_ch) o
      → Follows (view ch) (view job_ch) p
      → Follows (view ch) (view job_ch) (if b then o else p)
  Follows-if ch job_ch true o p h k = h
  Follows-if ch job_ch false o p h k = k

  pub Follows-resume :
      (job_first : Bool) (ch : Chan T) (job_ch : Chan J)
      → Follows (view ch) (view job_ch) (resume job_first ch job_ch)
  unfolding resume
  Follows-resume job_first ch job_ch =
      let j = Follows-select_job ch job_ch in
      let t = Follows-select_text ch job_ch in
      Follows-if ch job_ch (ready (receive job_ch)) _ _
        (Follows-if ch job_ch (ready (receive ch)) _ _ (Follows-if ch job_ch job_first _ _ j t) j) t
