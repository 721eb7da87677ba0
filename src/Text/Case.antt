-- ===== src/Text/Case.antt =====
-- Lower and upper case: done twice it is done once, and white space is not affected.
use jobscout.Prelude.{ℕ, ◌≡◌, refl, [], ◌∷◌, arith, map, Bool}
use jobscout.Text.{
  Text, is_space, lower, upper, to_lower, to_upper, trim_left, trim_right, trim_space,
}

lower_idem : (c : ℕ) → lower (lower c) ≡ lower c
unfolding lower
lower_idem c = ground arith

upper_idem : (c : ℕ) → upper (upper c) ≡ upper c
unfolding upper
upper_idem c = ground arith

is_space-lower : (c : ℕ) → is_space (lower c) ≡ is_space c
unfolding lower is_space
is_space-lower c = ground arith

is_space-upper : (c : ℕ) → is_space (upper c) ≡ is_space c
unfolding upper is_space
is_space-upper c = ground arith

pub to_lower_idem : (s : Text) → to_lower (to_lower s) ≡ to_lower s
unfolding to_lower
to_lower_idem [] = refl
to_lower_idem (c ∷ s) = cc (lower_idem c, to_lower_idem s)

pub to_upper_idem : (s : Text) → to_upper (to_upper s) ≡ to_upper s
unfolding to_upper
to_upper_idem [] = refl
to_upper_idem (c ∷ s) = cc (upper_idem c, to_upper_idem s)

-- A map that keeps the test `p` commutes with trimming by `p`.
module _ (p : ℕ → Bool) (f : ℕ → ℕ) (keeps : (c : ℕ) → p (f c) ≡ p c) where
  trim_left-map : (s : Text) → trim_left p (map f s) ≡ map f (trim_left p s)
  unfolding trim_left
  trim_left-map [] = refl
  trim_left-map (c ∷ s) = ground (arith, keeps c, trim_left-map s)

  trim_right-map : (s : Text) → trim_right p (map f s) ≡ map f (trim_right p s)
  unfolding trim_right
  trim_right-map [] = refl
  trim_right-map (c ∷ s) = ground (arith, keeps c, trim_right-map s)

pub trim_space-to_lower : (s : Text) → trim_space (to_lower s) ≡ to_lower (trim_space s)
unfolding trim_space to_lower
trim_space-to_lower s =
    rw (trim_left-map is_space lower is_space-lower s)
      (trim_right-map is_space lower is_space-lower (trim_left is_space s))

pub trim_space-to_upper : (s : Text) → trim_space (to_upper s) ≡ to_upper (trim_space s)
unfolding trim_space to_upper
trim_space-to_upper s =
    rw (trim_left-map is_space upper is_space-upper s)
      (trim_right-map is_space upper is_space-upper (trim_left is_space s))
