-- ===== src/Text/Dict/Unique.antt =====
-- Maps that hold each key once, as every map that the operations build does, and the deletion of
-- all entries that pass a test.
use jobscout.Prelude.{
  ℕ, suc, ◌+◌, ◌≡◌, refl, Bool, [], ◌∷◌, Option, none, some, arith, length, if◌then◌else◌,
}
use jobscout.Text.Dict.{Eq, Dict, get, delete, put, get-delete}

module _ {K V : Type 0} ⦃e : Eq K⦄ where
  abbrev pub IsUnique : Dict K V → Type 0
  IsUnique [] = Unit {0}
  IsUnique ((k, v) ∷ m) = (get k m ≡ none) × IsUnique m

  pub delete-IsUnique : (k : K) (m : Dict K V) → IsUnique m → IsUnique (delete k m)
  unfolding delete
  delete-IsUnique k [] h = tt
  delete-IsUnique k ((j, v) ∷ m) (new, h) = ground (arith, delete-IsUnique k m h, get-delete k j m)

  pub put-IsUnique : (k : K) (v : V) (m : Dict K V) → IsUnique m → IsUnique (put k v m)
  unfolding put
  put-IsUnique k v m h = (ground (arith, get-delete k k m, e.beq_iff k k), delete-IsUnique k m h)

  -- `for k, v := range m { if drop(k, v) { delete(m, k); removed++ } }`
  unfoldable pub remove_if : (K → V → Bool) → Dict K V → ℕ × Dict K V
  remove_if drop [] = (0, [])
  remove_if drop ((k, v) ∷ m) =
      let (n, rest) = remove_if drop m in if drop k v then (suc n, rest) else (n, (k, v) ∷ rest)

  abbrev pub unless : (K → V → Bool) → K → Option V → Option V
  unless drop k none = none
  unless drop k (some v) = if drop k v then none else some v

  pub get-remove_if :
      (drop : K → V → Bool) (m : Dict K V)
      → IsUnique m
      → (k : K) → get k (remove_if drop m).1 ≡ unless drop k (get k m)
  unfolding get remove_if
  get-remove_if drop [] h k = refl
  get-remove_if drop ((j, v) ∷ m) (new, h) k =
      ground (arith, get-remove_if drop m h k, e.beq_iff j k)

  pub remove_if-IsUnique :
      (drop : K → V → Bool) (m : Dict K V) → IsUnique m → IsUnique (remove_if drop m).1
  unfolding remove_if
  remove_if-IsUnique drop [] h = tt
  remove_if-IsUnique drop ((j, v) ∷ m) (new, h) =
      ground (arith, remove_if-IsUnique drop m h, get-remove_if drop m h j)

  pub length-remove_if :
      (drop : K → V → Bool) (m : Dict K V)
      → (remove_if drop m).0 + length (remove_if drop m).1 ≡ length m
  unfolding remove_if
  length-remove_if drop [] = omega arith
  length-remove_if drop ((k, v) ∷ m) = ground (arith, length-remove_if drop m)
