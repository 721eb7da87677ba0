-- ===== src/Text/Parts.antt =====
-- strings.Split of a text put together from parts.
use jobscout.Prelude.{
  ℕ, ◌≡◌, refl, ◌∙◌, ap, false, [], ◌∷◌, ◌++◌, append_assoc, append-nil, eqb, All, arith,
}
use jobscout.Text.{Text, split_from}

-- What holds no separator goes into the part being read.
pub split_from-append :
    (sep : ℕ) (cur s rest : Text)
    → All (λ c. eqb c sep ≡ false) s
    → split_from sep cur (s ++ rest) ≡ split_from sep (cur ++ s) rest
unfolding split_from
split_from-append sep cur [] rest h = rw (append-nil cur) refl
split_from-append sep cur (c ∷ s) rest (h, k) = rw h (
    split_from-append sep (cur ++ c ∷ []) s rest k
    ∙ ap (λ t. split_from sep t rest) (append_assoc cur (c ∷ []) s))

pub split_from-cut :
    (sep : ℕ) (cur s : Text) → split_from sep cur (sep ∷ s) ≡ cur ∷ split_from sep [] s
unfolding split_from
split_from-cut sep cur s = ground arith

pub split_from-nil : (sep : ℕ) (cur : Text) → split_from sep cur [] ≡ cur ∷ []
unfolding split_from
split_from-nil sep cur = refl
