-- ===== src/Fetcher/Visits/Again.antt =====
-- A second visit of a key.
use jobscout.Prelude.{
  ℕ, suc, ◌+◌, ◌≡◌, refl, true, false, [], ◌∷◌, ◌++◌, none, some, arith, length, get_elem?,
  get_elem?-last, get_elem?-modify_same, Bool-cases, inl, inr, if◌then◌else◌,
}
use jobscout.Text.{Text}
use jobscout.Text.Equality.{eq_refl}
use jobscout.Text.Dict.{text_Eq, get, put, get-put, get-delete}
use jobscout.Fetcher.Visits.{
  Outcome, Registry, should_forget, begin_visit, finish_visit, await_visit, visit,
}

module _ {A : Type 0} (key : Text) (first second : Outcome A) (r : Registry A)
    (fresh : get key r.current ≡ none) where
  abbrev made : Registry A
  made = record r {
    entries = r.entries ++ record { key = key; outcome = none } ∷ [];
    current = put key (length r.entries) r.current;
    fetches = suc r.fetches;
  }

  begin_fresh : begin_visit key r ≡ (length r.entries, true, made)
  unfolding begin_visit
  begin_fresh = rw (begin_visit, fresh) refl

  visit_fresh :
      visit (some key) first r ≡ (some first, finish_visit (length r.entries) key first made)
  unfolding visit
  visit_fresh = rw (visit, begin_fresh) (rw begin_fresh refl)

  outcome_there :
      get_elem? (finish_visit (length r.entries) key first made).entries (length r.entries)
      ≡ some (record { key = key; outcome = some first })
  unfolding finish_visit
  outcome_there =
      get_elem?-modify_same made.entries (length r.entries) _ (record { key = key; outcome = none })
        (get_elem?-last r.entries _)

  current_after :
      get key (finish_visit (length r.entries) key first made).current
      ≡ (if should_forget first.error then none else some (length r.entries))
  unfolding finish_visit
  current_after = ground (
    arith,
    get-delete key key made.current,
    get-put key key (length r.entries) r.current,
    eq_refl key,
  )

  abbrev after_first : Registry A
  after_first = finish_visit (length r.entries) key first made

  abbrev Second : Outcome A → ℕ → ℕ → Type 0
  Second result fetches hits =
      ((visit (some key) second after_first).0 ≡ some result)
      × ((visit (some key) second after_first).1.fetches ≡ fetches)
      × ((visit (some key) second after_first).1.hits ≡ hits)

  again_forgotten : should_forget first.error ≡ true → Second second (r.fetches + 2) r.hits
  unfolding visit begin_visit finish_visit
  again_forgotten gone = ground (arith, current_after, gone)

  again_kept : should_forget first.error ≡ false → Second first (r.fetches + 1) (r.hits + 1)
  unfolding visit begin_visit finish_visit await_visit
  again_kept kept = ground (arith, current_after, kept, outcome_there)

  -- A page that was visited is not fetched again: the second visit gets the first outcome, as a hit.
  -- Only an outcome that is a cancellation is forgotten, and then the second visit fetches.
  pub visit_again :
      ((visit (some key) second (visit (some key) first r).1).0
        ≡ some (if should_forget first.error then second else first))
      × ((visit (some key) second (visit (some key) first r).1).1.fetches
          ≡ (if should_forget first.error then r.fetches + 2 else r.fetches + 1))
      × ((visit (some key) second (visit (some key) first r).1).1.hits
          ≡ (if should_forget first.error then r.hits else r.hits + 1))
  visit_again = elim (Bool-cases (should_forget first.error)) [
    | inl gone ↦ rw (visit_fresh, gone) (again_forgotten gone)
    | inr kept ↦ rw (visit_fresh, kept) (again_kept kept)
  ]
