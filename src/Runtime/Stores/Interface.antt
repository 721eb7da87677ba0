-- ===== src/Runtime/Stores/Interface.antt =====
-- The interface HealthStore of internal/storage/store.go, with what a client relies on, and what
-- follows for every store that keeps it.
use jobscout.Prelude.{◌≡◌, refl, ◌∙◌, Option, none, some, if◌then◌else◌}
use jobscout.Text.{Text, ◌==◌}
use jobscout.Text.Dict.{Dict, text_Eq, get}
use jobscout.Text.Equality.{eq_refl}
use jobscout.Runtime.Stores.{Time}

-- storage.HealthCacheEntry; `R` stands for the health result, of which a store knows nothing.
pub record HealthCacheEntry (R : Type 0) : Type 0 where
  pub result : Option R
  pub timestamp : Time

pub record HealthStore (R : Type 0) : Type 1 where
  pub State : Type 0
  pub get_health : State → Text → Option (HealthCacheEntry R)
  pub set_health : Text → Option R → Time → State → State
  pub delete_health : Text → State → State
  pub clear_health_cache : State → State
  pub save_health_cache : Dict Text (HealthCacheEntry R) → State → State
  -- the other key under which a deletion looks
  pub fold_key : Text → Text
  pub get-set :
      (s : State) (k j : Text) (r : Option R) (t : Time)
      → get_health (set_health k r t s) j
        ≡ (if k == j then some (record { result = r; timestamp = t }) else get_health s j)
  pub get-delete :
      (s : State) (k j : Text)
      → get_health (delete_health k s) j
        ≡ (if k == j then none else if fold_key k == j then none else get_health s j)
  pub get-clear : (s : State) (j : Text) → get_health (clear_health_cache s) j ≡ none
  pub get-save :
      (s : State) (c : Dict Text (HealthCacheEntry R)) (j : Text)
      → get_health (save_health_cache c s) j ≡ get j c

module _ {R : Type 0} (store : HealthStore R) where
  open store use {State, get_health, set_health, delete_health, get-set, get-delete}

  -- A health result that was set and deleted is gone, whatever was there before, and a later one
  -- is found.
  pub set-delete-set :
      (s : State) (k : Text) (r r' : Option R) (t t' : Time)
      → (get_health (delete_health k (set_health k r t s)) k ≡ none)
        × (get_health (set_health k r' t' (delete_health k (set_health k r t s))) k
            ≡ some (record { result = r'; timestamp = t' }))
  set-delete-set s k r r' t t' = (
    get-delete (set_health k r t s) k k ∙ rw (eq_refl k) refl,
    get-set (delete_health k (set_health k r t s)) k k r' t' ∙ rw (eq_refl k) refl,
  )
