-- ===== src/Tuiapp/Channel/Delivery.antt =====
-- What the senders of a background task send is seen, in order, once each, before the task is done.
use jobscout.Prelude.{
  ◌≡◌, sym, ap, subst, ◌⊎◌, inl, inr, refl, Bool, true, false, not, List, [], ◌∷◌, ◌++◌, arith,
}
use jobscout.Tuiapp.Channel.{
  Chan, chan, is_nil, Outcome, job_message, text_message, done_message, waits, wait_for, resume,
}
use jobscout.Tuiapp.Channel.Follows.{
  queue, is_over, view, heard, kept, view-heard, view-kept, view-kept_nil, view-kept_chan, appended,
  shifted, emptied, Follows, Follows-wait_for, Follows-resume,
}

-- A task's channels, as its senders hold them, with all that was sent and seen, whether the receiver
-- still listens to each channel or has made its own variable nil, and whether the message that the
-- task is done was seen.
pub record Transfer (T J : Type 0) : Type 0 where
  pub ch : Chan T
  pub job_ch : Chan J
  pub hears_texts : Bool
  pub hears_jobs : Bool
  pub sent_texts : List T
  pub sent_jobs : List J
  pub seen_texts : List T
  pub seen_jobs : List J
  pub done : Bool

-- An open channel is not a dropped one.
is_open :
    {A : Type 0} {X : Type 0} (ch : Chan A) (q : List A)
    → ch ≡ chan q false
    → view ch ≡ ([], true)
    → X
is_open ch q e v = let over = ap (λ w. w.1) v in absurd (ground (arith, over, e))

module _ {T J : Type 0} where
  -- The outcome of the command on the receiver's variables, at once or after it waited for a sender.
  abbrev pub IsOutcome : Transfer T J → Outcome T J → Type 0
  IsOutcome s o =
      (wait_for (heard s.hears_texts s.ch) (heard s.hears_jobs s.job_ch) ≡ o)
      ⊎ ((b : Bool) × (resume b (heard s.hears_texts s.ch) (heard s.hears_jobs s.job_ch) ≡ o))

  -- The receiver's variables after a command.
  abbrev pub listens : Transfer T J → Chan T → Chan J → Transfer T J
  listens s c d = record s {
    ch = kept c s.ch;
    job_ch = kept d s.job_ch;
    hears_texts = not (is_nil c);
    hears_jobs = not (is_nil d);
  }

  -- The senders append to an open channel and close it, whether or not the receiver still listens;
  -- the receiver takes what the command gives.
  pub data Moves (s : Transfer T J) : Transfer T J → Type 0 where
    send_text :
        (q : List T) (t : T)
        → s.ch ≡ chan q false
        → Moves s (record s { ch = chan (q ++ t ∷ []) false; sent_texts = s.sent_texts ++ t ∷ [] })
    send_job :
        (q : List J) (j : J)
        → s.job_ch ≡ chan q false
        → Moves s
            (record s { job_ch = chan (q ++ j ∷ []) false; sent_jobs = s.sent_jobs ++ j ∷ [] })
    close_texts : (q : List T) → s.ch ≡ chan q false → Moves s (record s { ch = chan q true })
    close_jobs :
        (q : List J) → s.job_ch ≡ chan q false → Moves s (record s { job_ch = chan q true })
    take_job :
        (j : J) (c : Chan T) (d : Chan J)
        → s.done ≡ false
        → IsOutcome s (job_message j c d)
        → Moves s (record (listens s c d) { seen_jobs = s.seen_jobs ++ j ∷ [] })
    take_text :
        (t : T) (c : Chan T) (d : Chan J)
        → s.done ≡ false
        → IsOutcome s (text_message t c d)
        → Moves s (record (listens s c d) { seen_texts = s.seen_texts ++ t ∷ [] })
    keep_waiting :
        (c : Chan T) (d : Chan J)
        → s.done ≡ false
        → IsOutcome s (waits c d)
        → Moves s (listens s c d)
    take_done : s.done ≡ false → IsOutcome s done_message → Moves s (record s { done = true })

  -- from two new channels
  abbrev pub new_transfer : Transfer T J
  new_transfer = record {
    ch = chan [] false;
    job_ch = chan [] false;
    hears_texts = true;
    hears_jobs = true;
    sent_texts = [];
    sent_jobs = [];
    seen_texts = [];
    seen_jobs = [];
    done = false;
  }

  pub data Reachable : Transfer T J → Type 0 where
    start : Reachable new_transfer
    next : {s u : Transfer T J} → Reachable s → Moves s u → Reachable u

  -- What was seen and what the channels hold is what was sent; a channel that the receiver no longer
  -- hears, and after the last message both, hold nothing and take nothing more.
  record IsDelivered (s : Transfer T J) : Type 0 where
    jobs : s.seen_jobs ++ queue s.job_ch ≡ s.sent_jobs
    texts : s.seen_texts ++ queue s.ch ≡ s.sent_texts
    deaf_texts : s.hears_texts ≡ false → view s.ch ≡ ([], true)
    deaf_jobs : s.hears_jobs ≡ false → view s.job_ch ≡ ([], true)
    closing : s.done ≡ true → (view s.ch ≡ ([], true)) × (view s.job_ch ≡ ([], true))

  outcome-Follows :
      (s : Transfer T J) (o : Outcome T J)
      → IsDelivered s
      → IsOutcome s o
      → Follows (view s.ch) (view s.job_ch) o
  outcome-Follows s o h e =
      subst (λ v. Follows v (view s.job_ch) o) (view-heard s.hears_texts s.ch h.deaf_texts)
        (subst (λ v. Follows (view (heard s.hears_texts s.ch)) v o)
          (view-heard s.hears_jobs s.job_ch h.deaf_jobs) (heard-Follows e))
    where
      heard-Follows :
          IsOutcome s o
          → Follows (view (heard s.hears_texts s.ch)) (view (heard s.hears_jobs s.job_ch)) o
      heard-Follows (inl e) = subst (Follows _ _) e (Follows-wait_for _ _)
      heard-Follows (inr (b, e)) = subst (Follows _ _) e (Follows-resume b _ _)

  Moves-IsDelivered : {s u : Transfer T J} → Moves s u → IsDelivered s → IsDelivered u
  Moves-IsDelivered {s} (send_text q t e) h = record {
    jobs = h.jobs;
    texts = appended s.seen_texts q s.sent_texts t (rw e at h.texts);
    deaf_texts = λ d. is_open s.ch q e (h.deaf_texts d);
    deaf_jobs = h.deaf_jobs;
    closing = λ d. is_open s.ch q e (h.closing d).0;
  }
  Moves-IsDelivered {s} (send_job q j e) h = record {
    jobs = appended s.seen_jobs q s.sent_jobs j (rw e at h.jobs);
    texts = h.texts;
    deaf_texts = h.deaf_texts;
    deaf_jobs = λ d. is_open s.job_ch q e (h.deaf_jobs d);
    closing = λ d. is_open s.job_ch q e (h.closing d).1;
  }
  Moves-IsDelivered {s} (close_texts q e) h = record {
    jobs = h.jobs;
    texts = rw e at h.texts;
    deaf_texts = λ d. is_open s.ch q e (h.deaf_texts d);
    deaf_jobs = h.deaf_jobs;
    closing = λ d. is_open s.ch q e (h.closing d).0;
  }
  Moves-IsDelivered {s} (close_jobs q e) h = record {
    jobs = rw e at h.jobs;
    texts = h.texts;
    deaf_texts = h.deaf_texts;
    deaf_jobs = λ d. is_open s.job_ch q e (h.deaf_jobs d);
    closing = λ d. is_open s.job_ch q e (h.closing d).1;
  }
  Moves-IsDelivered {s} (take_job j c d n o) h =
      let ((front, n_d), same) = outcome-Follows s _ h o in
      let now = ap (λ v. v.0) (view-kept_chan d s.job_ch n_d) in
      record {
        jobs = shifted s.seen_jobs j _ s.sent_jobs (
            subst (λ q. s.seen_jobs ++ j ∷ q ≡ s.sent_jobs) (sym now)
              (rw (ap (λ v. v.0) front) at h.jobs));
        texts = rw (ap (λ v. v.0) (view-kept c s.ch same)) h.texts;
        deaf_texts = view-kept_nil c s.ch same;
        deaf_jobs = λ y. absurd (ground (arith, n_d, y));
        closing = λ y. absurd (ground (arith, y, n));
      }
  Moves-IsDelivered {s} (take_text t c d n o) h =
      let ((front, n_c), same) = outcome-Follows s _ h o in
      let now = ap (λ v. v.0) (view-kept_chan c s.ch n_c) in
      record {
        jobs = rw (ap (λ v. v.0) (view-kept d s.job_ch same)) h.jobs;
        texts = shifted s.seen_texts t _ s.sent_texts (
            subst (λ q. s.seen_texts ++ t ∷ q ≡ s.sent_texts) (sym now)
              (rw (ap (λ v. v.0) front) at h.texts));
        deaf_texts = λ y. absurd (ground (arith, n_c, y));
        deaf_jobs = view-kept_nil d s.job_ch same;
        closing = λ y. absurd (ground (arith, y, n));
      }
  Moves-IsDelivered {s} (keep_waiting c d n o) h =
      let (same_texts, same_jobs) = outcome-Follows s _ h o in
      record {
        jobs = rw (ap (λ v. v.0) (view-kept d s.job_ch same_jobs)) h.jobs;
        texts = rw (ap (λ v. v.0) (view-kept c s.ch same_texts)) h.texts;
        deaf_texts = view-kept_nil c s.ch same_texts;
        deaf_jobs = view-kept_nil d s.job_ch same_jobs;
        closing = λ y. absurd (ground (arith, y, n));
      }
  Moves-IsDelivered {s} (take_done n o) h = record {
    jobs = h.jobs;
    texts = h.texts;
    deaf_texts = h.deaf_texts;
    deaf_jobs = h.deaf_jobs;
    closing = λ _. outcome-Follows s done_message h o;
  }

  Reachable-IsDelivered : {s : Transfer T J} → Reachable s → IsDelivered s
  Reachable-IsDelivered start = record {
    jobs = refl;
    texts = refl;
    deaf_texts = λ d. absurd (ground (arith, d));
    deaf_jobs = λ d. absurd (ground (arith, d));
    closing = λ d. absurd (ground (arith, d));
  }
  Reachable-IsDelivered (next r m) = Moves-IsDelivered m (Reachable-IsDelivered r)

  -- However the senders of a background task and the waiting interleave, where the senders keep their
  -- channels when the receiver stops listening to one: the jobs seen and those that the channel still
  -- holds are the jobs sent, in their order, and so for the texts; and once the message is seen that
  -- the task is done, everything sent has been seen and nothing can follow.
  pub Reachable-Delivers :
      (s : Transfer T J)
      → Reachable s
      → ((s.seen_jobs ++ queue s.job_ch ≡ s.sent_jobs)
          × (s.seen_texts ++ queue s.ch ≡ s.sent_texts))
        × (s.done ≡ true
            → ((s.seen_jobs ≡ s.sent_jobs) × (s.seen_texts ≡ s.sent_texts))
              × ((is_over s.ch ≡ true) × (is_over s.job_ch ≡ true)))
  Reachable-Delivers s r = (
    (h.jobs, h.texts),
    λ d.
        let (a, b) = h.closing d in
        (
          (
            emptied s.seen_jobs s.sent_jobs (rw (ap (λ v. v.0) b) at h.jobs),
            emptied s.seen_texts s.sent_texts (rw (ap (λ v. v.0) a) at h.texts),
          ),
          (ap (λ v. v.1) a, ap (λ v. v.1) b),
        ),
  )
    where
      h : IsDelivered s
      h = Reachable-IsDelivered r
