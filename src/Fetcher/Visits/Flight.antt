-- ===== src/Fetcher/Visits/Flight.antt =====
-- The single flight: whoever visits in whatever order, no URL is fetched twice at the same time.
use jobscout.Prelude.{
  ℕ, ◌≡◌, refl, sym, ◌∙◌, true, false, List, [], ◌∷◌, Option, none, some, arith, length,
  length-append, length-modify, get_elem?, modify, eqb, get_elem?-concat, get_elem?-append,
  get_elem?-last, get_elem?-modify_same, get_elem?-modify_other, Bool-cases, Option-cases, inl, inr,
}
use jobscout.Text.{Text, ◌==◌}
use jobscout.Text.Equality.{eq_iff}
use jobscout.Text.Dict.{text_Eq, get, get-put, get-delete}
use jobscout.Fetcher.Visits.{
  Outcome, Visit, Registry, new_registry, should_forget, begin_visit, finish_visit,
}

module _ {A : Type 0} where
  -- An outcome that may be served to later visits.
  abbrev pub IsRemembered : Option (Outcome A) → Type 0
  IsRemembered none = Unit {0}
  IsRemembered (some o) = should_forget o.error ≡ false

  -- The map points at entries of its keys, none of which ended by a cancellation; every entry that
  -- is still being fetched is the one that the map points at; each entry was counted as a fetch.
  pub record IsSingleFlight (r : Registry A) : Type 0 where
    pub pointed :
        (k : Text) (i : ℕ)
        → get k r.current ≡ some i
        → (v : Visit A) × (get_elem? r.entries i ≡ some v) × (v.key ≡ k) × IsRemembered v.outcome
    pub running :
        (i : ℕ) (v : Visit A)
        → get_elem? r.entries i ≡ some v
        → v.outcome ≡ none
        → get v.key r.current ≡ some i
    pub counted : r.fetches ≡ length r.entries

  -- A caller begins a visit, or the caller that fetches an entry stores the outcome.
  pub data Step : Registry A → Registry A → Type 0 where
    begin : (key : Text) (r : Registry A) → Step r (begin_visit key r).2
    finish :
        (i : ℕ) (v : Visit A) (o : Outcome A) (r : Registry A)
        → get_elem? r.entries i ≡ some v
        → v.outcome ≡ none
        → Step r (finish_visit i v.key o r)

  pub data Reachable : Registry A → Type 0 where
    start : Reachable new_registry
    next : {r s : Registry A} → Reachable r → Step r s → Reachable s

  begin-IsSingleFlight :
      (key : Text) (r : Registry A) → IsSingleFlight r → IsSingleFlight (begin_visit key r).2
  unfolding begin_visit
  begin-IsSingleFlight key r h = elim (Option-cases (get key r.current)) [
    | inr (i, hit) ↦
        rw (begin_visit, hit)
          (record { pointed = h.pointed; running = h.running; counted = h.counted })
    | inl miss ↦
        rw (begin_visit, miss)
          (record {
            pointed = λ k i e. elim (Bool-cases (key == k)) [
              | inl same ↦
                  let last : length r.entries ≡ i =
                    ground (arith, get-put key k (length r.entries) r.current) in
                  (
                    record { key = key; outcome = none },
                    rw (← last) (get_elem?-last r.entries _),
                    (eq_iff key k).0 same,
                    tt,
                  )
              | inr other ↦
                  let (v, there, same_key, kept) =
                    h.pointed k i (ground (arith, get-put key k (length r.entries) r.current)) in
                  (v, get_elem?-append r.entries _ i v there, same_key, kept)
            ];
            running = λ i v there live. elim (get_elem?-concat r.entries _ i v there) [
              | inl old ↦ ground (
                arith,
                h.running i v old,
                get-put key v.key (length r.entries) r.current,
                eq_iff key v.key,
              )
              | inr (last, new) ↦
                  ground (arith, get-put key v.key (length r.entries) r.current, eq_iff key v.key)
            ];
            counted = ground (
              arith,
              h.counted,
              length-append r.entries (record { key = key; outcome = none } ∷ []),
            );
          })
  ]

  module _ (i : ℕ) (v : Visit A) (o : Outcome A) (r : Registry A) where
    abbrev stored : List (Visit A)
    stored = modify r.entries i (λ e. record e { outcome = some o })

    forgotten-keeps :
        (k : Text) (j : ℕ)
        → get k (finish_visit i v.key o r).current ≡ some j
        → (get k r.current ≡ some j) × (v.key == k ≡ true → should_forget o.error ≡ false)
    unfolding finish_visit
    forgotten-keeps k j e = ground (arith, get-delete v.key k r.current)

    module _ (there : get_elem? r.entries i ≡ some v) (live : v.outcome ≡ none)
        (h : IsSingleFlight r) where
      pointed-finish :
          (k : Text) (j : ℕ)
          → get k (finish_visit i v.key o r).current ≡ some j
          → (w : Visit A) × (get_elem? stored j ≡ some w) × (w.key ≡ k) × IsRemembered w.outcome
      pointed-finish k j e =
          let (before, remembered) = forgotten-keeps k j e in
          let (w, at, same_key, kept) = h.pointed k j before in
          elim (Bool-cases (eqb i j)) [
            | inl same ↦
                let here : i ≡ j = ground arith in
                let is_v : v ≡ w = ground (arith, there, at) in
                (
                  record v { outcome = some o },
                  rw (← here) (get_elem?-modify_same r.entries i _ v there),
                  ground (arith, same_key),
                  remembered ((eq_iff v.key k).1 (ground (arith, same_key))),
                )
            | inr other ↦ (w, get_elem?-modify_other r.entries i j _ other ∙ at, same_key, kept)
          ]

      running-finish :
          (j : ℕ) (w : Visit A)
          → get_elem? stored j ≡ some w
          → w.outcome ≡ none
          → get w.key (finish_visit i v.key o r).current ≡ some j
      unfolding finish_visit
      running-finish j w at still = elim (Bool-cases (eqb i j)) [
        | inl same ↦
            let here : i ≡ j = ground arith in
            absurd (
              ground (
                arith,
                get_elem?-modify_same r.entries i (λ e. record e { outcome = some o }) v there,
              ))
        | inr other ↦
            let before : get w.key r.current ≡ some j =
              h.running j w (sym (get_elem?-modify_other r.entries i j _ other) ∙ at) still in
            ground (
              arith,
              h.running i v there live,
              get-delete v.key w.key r.current,
              eq_iff v.key w.key,
            )
      ]

      finish-IsSingleFlight : IsSingleFlight (finish_visit i v.key o r)
      unfolding finish_visit
      finish-IsSingleFlight = record {
        pointed = pointed-finish;
        running = running-finish;
        counted = h.counted ∙ sym (length-modify r.entries i _);
      }

  Step-IsSingleFlight : {r s : Registry A} → Step r s → IsSingleFlight r → IsSingleFlight s
  Step-IsSingleFlight (begin key r) h = begin-IsSingleFlight key r h
  Step-IsSingleFlight (finish i v o r there live) h = finish-IsSingleFlight i v o r there live h

  -- Whatever visits begin and finish, in whatever order: the map points at entries of its keys, none
  -- of which ended by a cancellation, every fetch that runs is the one that later visits of its key
  -- will join, and the count of fetches is the number of entries made.
  pub Reachable-IsSingleFlight : {r : Registry A} → Reachable r → IsSingleFlight r
  unfolding get
  Reachable-IsSingleFlight start = record {
    pointed = λ k i e. absurd (ground arith);
    running = λ i v there live. absurd (ground arith);
    counted = refl;
  }
  Reachable-IsSingleFlight (next r st) = Step-IsSingleFlight st (Reachable-IsSingleFlight r)

  -- Two fetches that run at the same time have different keys.
  pub running_once :
      {r : Registry A}
      → Reachable r
      → (i j : ℕ) (v w : Visit A) → get_elem? r.entries i ≡ some v
      → get_elem? r.entries j ≡ some w
      → v.outcome ≡ none
      → w.outcome ≡ none
      → v.key ≡ w.key
      → i ≡ j
  running_once reach i j v w vi wj open_v open_w same =
      let h = Reachable-IsSingleFlight reach in
      ground (arith, h.running i v vi open_v, h.running j w wj open_w)
