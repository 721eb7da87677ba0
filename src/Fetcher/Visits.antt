-- ===== src/Fetcher/Visits.antt =====
-- internal/fetcher/url_visit_registry.go: one fetch per URL in a run. A visit is made in three
-- steps under the registry's mutex or outside it: the entry for the key is found or made, the page
-- is fetched, and the outcome is stored and announced. `done` of an entry is closed when its
-- outcome is there; whoever waits on it reads that outcome.
pub mod Key
pub mod Flight
pub mod Again
use jobscout.Prelude.{
  ℕ, suc, ◌+◌, Bool, true, false, List, [], ◌∷◌, ◌++◌, Option, none, some, length, get_elem?,
  modify, if◌then◌else◌,
}
use jobscout.Text.{Text}
use jobscout.Text.Dict.{Dict, text_Eq, get, put, delete}

-- The errors that are told apart.
pub data VisitError : Type 0 where
  canceled deadline_exceeded : VisitError
  other : Text → VisitError

-- shouldForgetURLVisitError
unfoldable pub should_forget : Option VisitError → Bool
should_forget none = false
should_forget (some canceled) = true
should_forget (some deadline_exceeded) = true
should_forget (some (other e)) = false

-- What a fetch returns, with its error.
pub record Outcome (A : Type 0) : Type 0 where
  pub value : A
  pub error : Option VisitError

-- urlHTMLVisit and urlProbeVisit: the outcome is there once `done` is closed. The key is kept with
-- the entry, as FetchApplyPage and ProbeURL keep it until they store the outcome.
pub record Visit (A : Type 0) : Type 0 where
  pub key : Text
  pub outcome : Option (Outcome A)

-- One of the two maps of the registry, with the entries that it points or pointed at, and the
-- counters.
pub record Registry (A : Type 0) : Type 0 where
  pub entries : List (Visit A)
  pub current : Dict Text ℕ
  pub fetches : ℕ
  pub hits : ℕ

module _ {A : Type 0} where
  abbrev pub new_registry : Registry A
  new_registry = record { entries = []; current = []; fetches = 0; hits = 0 }

  -- the first critical section: the entry, and whether this caller has to fetch
  unfoldable pub begin_visit : Text → Registry A → ℕ × Bool × Registry A
  begin_visit key r = elim (get key r.current) [
    | some i ↦ (i, false, record r { hits = suc r.hits })
    | none ↦ (
      length r.entries,
      true,
      record r {
        entries = r.entries ++ record { key = key; outcome = none } ∷ [];
        current = put key (length r.entries) r.current;
        fetches = suc r.fetches;
      },
    )
  ]

  -- the second one, by the caller that fetched entry `i`
  unfoldable pub finish_visit : ℕ → Text → Outcome A → Registry A → Registry A
  unfolding should_forget
  finish_visit i key outcome r = record r {
    entries = modify r.entries i (λ v. record v { outcome = some outcome });
    current = if should_forget outcome.error then delete key r.current else r.current;
  }

  -- `<-entry.done` and the reading of the entry: none as long as `done` is open
  unfoldable pub await_visit : ℕ → Registry A → Option (Outcome A)
  await_visit i r = elim (get_elem? r.entries i) [ none ↦ none | some v ↦ v.outcome ]

  -- FetchApplyPage and ProbeURL, when no other visit comes between: what the caller gets, and the
  -- registry after it. `fetched` is what a fetch of its own returns.
  unfoldable pub visit : Option Text → Outcome A → Registry A → Option (Outcome A) × Registry A
  unfolding begin_visit finish_visit await_visit
  visit none fetched r = (some fetched, r)
  visit (some key) fetched r =
      let (i, owner, s) = begin_visit key r in
      elim owner [
        | true ↦ (some fetched, finish_visit i key fetched s)
        | false ↦ (await_visit i s, s)
      ]

  -- Stats, of one of the maps
  unfoldable pub stats : Registry A → ℕ × ℕ × ℕ
  stats r = (r.fetches, r.hits, length r.current)
