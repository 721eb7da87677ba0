-- ===== src/Runtime/Stores/Health.antt =====
-- memoryHealthStore: the health cache, as an implementation of the interface.
use jobscout.Prelude.{◌≡◌, refl, ◌∙◌, [], ◌∷◌, Option, none, some, arith, if◌then◌else◌}
use jobscout.Text.{Text, ◌==◌, to_lower, trim_space}
use jobscout.Text.Dict.{Dict, text_Eq, get, delete, put, get-nil, get-put, get-delete}
use jobscout.Runtime.Stores.{Time}
use jobscout.Runtime.Stores.Interface.{HealthCacheEntry, HealthStore}

-- storage.HealthCache
abbrev pub Cache : Type 0 → Type 0
Cache R = Dict Text (HealthCacheEntry R)

module _ {R : Type 0} where
  -- the loop of cloneHealthCache, over the entries in some order
  unfoldable pub clone_health_cache : Cache R → Cache R
  clone_health_cache [] = []
  clone_health_cache ((company, entry) ∷ cache) = put company entry (clone_health_cache cache)

  unfoldable pub load_health_cache : Cache R → Cache R
  load_health_cache s = clone_health_cache s

  unfoldable pub save_health_cache : Cache R → Cache R → Cache R
  unfolding clone_health_cache
  save_health_cache cache s = clone_health_cache cache

  -- a missing entry is `nil` and the zero time
  unfoldable pub get_health : Cache R → Text → Option R × Time
  get_health s company = elim (get company s) [
    | none ↦ (none, 0)
    | some entry ↦ (entry.result, entry.timestamp)
  ]

  unfoldable pub set_health : Text → Option R → Time → Cache R → Cache R
  set_health company result fetched_at s =
      put company (record { result = result; timestamp = fetched_at }) s

  unfoldable pub delete_health : Text → Cache R → Cache R
  delete_health company s = delete (to_lower (trim_space company)) (delete company s)

  unfoldable pub clear_health_cache : Cache R → Cache R
  clear_health_cache s = []

  get-clone : (cache : Cache R) (k : Text) → get k (clone_health_cache cache) ≡ get k cache
  unfolding clone_health_cache get
  get-clone [] k = refl
  get-clone ((j, e) ∷ cache) k =
      ground (arith, get-put j k e (clone_health_cache cache), get-clone cache k)

  get-delete_health :
      (s : Cache R) (k j : Text)
      → get j (delete_health k s)
        ≡ (if k == j then none else if to_lower (trim_space k) == j then none else get j s)
  unfolding delete_health
  get-delete_health s k j =
      ground (arith, get-delete (to_lower (trim_space k)) j (delete k s), get-delete k j s)

  get-set_health :
      (s : Cache R) (k j : Text) (r : Option R) (t : Time)
      → get j (set_health k r t s)
        ≡ (if k == j then some (record { result = r; timestamp = t }) else get j s)
  unfolding set_health
  get-set_health s k j r t = get-put k j (record { result = r; timestamp = t }) s

  get-clear : (s : Cache R) (j : Text) → get j (clear_health_cache s) ≡ none
  unfolding clear_health_cache
  get-clear s j = get-nil j

  get-save : (s c : Cache R) (j : Text) → get j (save_health_cache c s) ≡ get j c
  unfolding save_health_cache
  get-save s c j = get-clone c j

  -- The store in memory keeps the interface's laws.
  pub memory_health_store : HealthStore R
  memory_health_store = record {
    State = Cache R;
    get_health = λ s k. get k s;
    set_health = set_health;
    delete_health = delete_health;
    clear_health_cache = clear_health_cache;
    save_health_cache = save_health_cache;
    fold_key = λ k. to_lower (trim_space k);
    get-set = get-set_health;
    get-delete = get-delete_health;
    get-clear = get-clear;
    get-save = get-save;
  }

  -- What was set is returned, with its time, until the company is set again or deleted, directly or
  -- under its folded name; other companies are not affected; and a cache that is saved is returned
  -- by loading, entry by entry.
  pub memory_health_laws :
      (s cache : Cache R) (k j : Text) (r : Option R) (t : Time)
      → (get_health (set_health k r t s) j ≡ (if k == j then (r, t) else get_health s j))
        × (get_health (delete_health k s) j ≡ (
            if k == j
            then (none, 0)
            else if to_lower (trim_space k) == j
            then (none, 0)
            else get_health s j))
        × (get j (load_health_cache (save_health_cache cache s)) ≡ get j cache)
  unfolding get_health set_health load_health_cache save_health_cache
  memory_health_laws s cache k j r t = (
    ground (arith, get-put k j (record { result = r; timestamp = t }) s),
    ground (arith, get-delete_health s k j),
    get-clone (clone_health_cache cache) j ∙ get-clone cache j,
  )
