-- ===== src/Domain/Unique/Distinct.antt =====
-- Lists of different texts.
use jobscout.Prelude.{◌≡◌, refl, false, ◌||◌, List, [], ◌∷◌, ◌++◌, append-nil, append_assoc, arith}
use jobscout.Text.{Text}
use jobscout.Domain.Unique.{seen_in}

pub seen_in-append :
    (k : Text) (xs ys : List Text) → seen_in k (xs ++ ys) ≡ (seen_in k xs || seen_in k ys)
unfolding seen_in
seen_in-append k [] ys = refl
seen_in-append k (x ∷ xs) ys = ground (arith, seen_in-append k xs ys)

-- Each key differs from those before it.
abbrev pub Distinct : List Text → List Text → Type 0
Distinct before [] = Unit {0}
Distinct before (k ∷ ks) = (seen_in k before ≡ false) × Distinct (before ++ k ∷ []) ks

pub Distinct-append :
    (before xs ys : List Text)
    → Distinct before xs
    → Distinct (before ++ xs) ys
    → Distinct before (xs ++ ys)
Distinct-append before [] ys _ h = rw (append-nil before) at h
Distinct-append before (x ∷ xs) ys (n, d) h =
    (n, Distinct-append (before ++ x ∷ []) xs ys d (rw (append_assoc) h))
