-- ===== src/Text/Trim.antt =====
-- What `trim_space` leaves: nothing to trim, and the same when done twice.
use jobscout.Prelude.{
  ℕ, ◌≡◌, refl, subst, ◌⊎◌, inl, inr, Bool, true, false, [], ◌∷◌, arith, is_empty, Bool-cases,
}
use jobscout.Text.{Text, is_space, trim_left, trim_right, trim_space}

module _ (p : ℕ → Bool) where
  abbrev Starts : Text → Type 0
  Starts [] = Unit {0}
  Starts (c ∷ s) = p c ≡ false

  -- The last code point does not pass the test.
  abbrev Ends : Text → Type 0
  Ends [] = Unit {0}
  Ends (c ∷ s) = ((is_empty s ≡ true) × (p c ≡ false)) ⊎ ((is_empty s ≡ false) × Ends s)

  trim_left-Starts : (s : Text) → Starts (trim_left p s)
  unfolding trim_left
  trim_left-Starts [] = tt
  trim_left-Starts (c ∷ s) = elim (Bool-cases (p c)) [
    | inl e ↦ rw e (trim_left-Starts s)
    | inr e ↦ rw e e
  ]

  trim_left_of_Starts : (s : Text) → Starts s → trim_left p s ≡ s
  unfolding trim_left
  trim_left_of_Starts [] h = refl
  trim_left_of_Starts (c ∷ s) h = rw h

  trim_right-Ends : (s : Text) → Ends (trim_right p s)
  unfolding trim_right
  trim_right-Ends [] = tt
  trim_right-Ends (c ∷ s) = ground (arith, trim_right-Ends s)

  trim_right_of_Ends : (s : Text) → Ends s → trim_right p s ≡ s
  unfolding trim_right
  trim_right_of_Ends [] h = refl
  trim_right_of_Ends (c ∷ []) h = ground arith
  trim_right_of_Ends (c ∷ d ∷ s) (inl h) = ground arith
  trim_right_of_Ends (c ∷ d ∷ s) (inr (_, h)) = rw (trim_right_of_Ends (d ∷ s) h) (ground arith)

  trim_right-Starts : (s : Text) → Starts s → Starts (trim_right p s)
  unfolding trim_right
  trim_right-Starts [] h = tt
  trim_right-Starts (c ∷ s) h = rw h h

-- A text that begins and ends with no white space.
pub record IsTrimmed (s : Text) : Type 0 where
  starts : Starts is_space s
  ends : Ends is_space s

pub trim_space-IsTrimmed : (s : Text) → IsTrimmed (trim_space s)
unfolding trim_space
trim_space-IsTrimmed s = record {
  starts = trim_right-Starts is_space (trim_left is_space s) (trim_left-Starts is_space s);
  ends = trim_right-Ends is_space (trim_left is_space s);
}

pub trim_space_of_IsTrimmed : (s : Text) → IsTrimmed s → trim_space s ≡ s
unfolding trim_space
trim_space_of_IsTrimmed s h =
    rw (trim_left_of_Starts is_space s h.starts) (trim_right_of_Ends is_space s h.ends)

pub trim_space_idem : (s : Text) → trim_space (trim_space s) ≡ trim_space s
trim_space_idem s = trim_space_of_IsTrimmed (trim_space s) (trim_space-IsTrimmed s)

pub trim_space-nil : trim_space [] ≡ []
unfolding trim_space
trim_space-nil = refl

-- A trimmed text does not begin with white space.
pub starts_of_trim_space : (c : ℕ) (s : Text) → trim_space (c ∷ s) ≡ c ∷ s → is_space c ≡ false
starts_of_trim_space c s h = (subst IsTrimmed h (trim_space-IsTrimmed (c ∷ s))).starts

pub filled-trim_space :
    (c : ℕ) (s : Text) → is_space c ≡ false → is_empty (trim_space (c ∷ s)) ≡ false
unfolding trim_space trim_left trim_right
filled-trim_space c s h = rw h (rw h refl)
