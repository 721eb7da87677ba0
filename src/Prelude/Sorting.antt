-- ===== src/Prelude/Sorting.antt =====
-- sort.SliceStable by a Boolean `less`, as a stable insertion sort, and the selection of elements.
use mathlib.Core.Path.{◌≡◌, refl}
use mathlib.Core.Bool.{Bool, true, false}
use mathlib.Core.List.{List, [], ◌∷◌, Perm}
use mathlib.Core.List.Perm
use native.Mathlib.Omega.{arith}
use mathlib.Core.Logic.{inl, inr}
use jobscout.Prelude.Tests.{if◌then◌else◌, Bool-cases}

module _ {ℓ} {A : Type ℓ} where
  -- The elements that pass a test.
  abbrev pub select : (A → Bool) → List A → List A
  select p [] = []
  select p (x ∷ xs) = let rest = select p xs in if p x then x ∷ rest else rest

module _ {ℓ} {A : Type ℓ} (less : A → A → Bool) where
  -- before the first element that is not less
  unfoldable pub insert_stable : A → List A → List A
  insert_stable x [] = x ∷ []
  insert_stable x (y ∷ ys) =
      let rest = insert_stable x ys in if less y x then y ∷ rest else x ∷ y ∷ ys

  unfoldable pub sort_stable : List A → List A
  unfolding insert_stable
  sort_stable [] = []
  sort_stable (x ∷ xs) = insert_stable x (sort_stable xs)

  insert_stable-Perm : (x : A) (ys : List A) → Perm (insert_stable x ys) (x ∷ ys)
  unfolding insert_stable
  insert_stable-Perm x [] = Perm.rfl
  insert_stable-Perm x (y ∷ ys) = elim (Bool-cases (less y x)) [
    | inl e ↦ rw e (Perm.trans (Perm.cons y (insert_stable-Perm x ys)) (Perm.swap x y ys))
    | inr e ↦ rw e Perm.rfl
  ]

  pub sort_stable-Perm : (xs : List A) → Perm (sort_stable xs) xs
  unfolding sort_stable
  sort_stable-Perm [] = Perm.rfl
  sort_stable-Perm (x ∷ xs) =
      Perm.trans (insert_stable-Perm x (sort_stable xs)) (Perm.cons x (sort_stable-Perm xs))

  -- No element is less than the one before it.
  abbrev pub IsSortedBy : List A → Type 0
  IsSortedBy [] = Unit {0}
  IsSortedBy (x ∷ []) = Unit {0}
  IsSortedBy (x ∷ y ∷ ys) = (less y x ≡ false) × IsSortedBy (y ∷ ys)

  module _ (asym : (x y : A) → less x y ≡ true → less y x ≡ false) where
    insert_stable-IsSortedBy :
        (x : A) (ys : List A) → IsSortedBy ys → IsSortedBy (insert_stable x ys)
    unfolding insert_stable
    insert_stable-IsSortedBy x [] h = tt
    insert_stable-IsSortedBy x (y ∷ []) h = ground (arith, asym y x)
    insert_stable-IsSortedBy x (y ∷ z ∷ zs) (p, h) =
        ground (arith, asym y x, p, insert_stable-IsSortedBy x (z ∷ zs) h)

    pub sort_stable-IsSortedBy : (xs : List A) → IsSortedBy (sort_stable xs)
    unfolding sort_stable
    sort_stable-IsSortedBy [] = tt
    sort_stable-IsSortedBy (x ∷ xs) =
        insert_stable-IsSortedBy x (sort_stable xs) (sort_stable-IsSortedBy xs)

  -- Elements of which none is less than another keep their order.
  module _ (p : A → Bool) (ties : (x y : A) → p x ≡ true → p y ≡ true → less x y ≡ false) where
    select-insert_stable : (x : A) (ys : List A) → select p (insert_stable x ys) ≡ select p (x ∷ ys)
    unfolding insert_stable
    select-insert_stable x [] = refl
    select-insert_stable x (y ∷ ys) = ground (arith, ties y x, select-insert_stable x ys)

    pub select-sort_stable : (xs : List A) → select p (sort_stable xs) ≡ select p xs
    unfolding sort_stable
    select-sort_stable [] = refl
    select-sort_stable (x ∷ xs) =
        ground (arith, select-insert_stable x (sort_stable xs), select-sort_stable xs)
