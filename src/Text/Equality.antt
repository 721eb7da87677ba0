-- ===== src/Text/Equality.antt =====
-- The Boolean test on texts decides equality.
use jobscout.Prelude.{◌≡◌, refl, ◌↔◌, true, [], ◌∷◌, arith}
use jobscout.Text.{Text, ◌==◌}

==_refl : (a : Text) → (a == a) ≡ true
unfolding ◌==◌
==_refl [] = refl
==_refl (x ∷ a) = ground (arith, ==_refl a)

eq_of_== : (a b : Text) → (a == b) ≡ true → a ≡ b
unfolding ◌==◌
eq_of_== [] [] h = refl
eq_of_== (x ∷ a) (y ∷ b) h = ground (arith, eq_of_== a b)
eq_of_== _ _ h = cc

pub eq_iff : (a b : Text) → ((a == b) ≡ true) ↔ (a ≡ b)
eq_iff a b = (eq_of_== a b, λ e. rw e (==_refl b))

pub eq_refl : (a : Text) → (a == a) ≡ true
eq_refl a = ==_refl a
