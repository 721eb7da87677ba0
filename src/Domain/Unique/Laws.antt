-- ===== src/Domain/Unique/Laws.antt =====
-- What a list of unique texts satisfies, that making it again changes nothing, and that nothing
-- is lost on the way.
use jobscout.Prelude.{
  ◌≡◌, refl, sym, ap, ◌∙◌, Bool, true, false, ◌||◌, List, [], ◌∷◌, ◌++◌, append-nil, arith,
  is_empty, Bool-cases, inl, inr, map, In,
}
use jobscout.Text.{Text, to_lower, trim_space}
use jobscout.Text.Equality.{eq_refl}
use jobscout.Text.Trim.{IsTrimmed, trim_space-IsTrimmed, trim_space_of_IsTrimmed}
use jobscout.Domain.Unique.{seen_in, unique_from, append_unique, compact_unique}

-- Every text is trimmed and not empty, and equals up to case none before it and none of `seen`.
abbrev pub Fresh : List Text → List Text → Type 0
Fresh seen [] = Unit {0}
Fresh seen (v ∷ vs) =
    IsTrimmed v
    × (is_empty v ≡ false)
    × (seen_in (to_lower v) seen ≡ false)
    × Fresh (to_lower v ∷ seen) vs

unique_from-Fresh : (seen vs : List Text) → Fresh seen (unique_from seen vs)
unfolding unique_from
unique_from-Fresh seen [] = tt
unique_from-Fresh seen (v ∷ vs) = elim (Bool-cases (is_empty (trim_space v))) [
  | inl blank ↦ rw blank (unique_from-Fresh seen vs)
  | inr full ↦ elim (Bool-cases (seen_in (to_lower (trim_space v)) seen)) [
    | inl old ↦ rw (full, old) (unique_from-Fresh seen vs)
    | inr new ↦
        rw (full, new)
          (trim_space-IsTrimmed v, full, new, unique_from-Fresh (to_lower (trim_space v) ∷ seen) vs)
  ]
]

-- The keys that are in `seen` after the texts `vs`.
abbrev pub seen_after : List Text → List Text → List Text
seen_after seen [] = seen
seen_after seen (v ∷ vs) = seen_after (to_lower v ∷ seen) vs

unique_from_of_Fresh :
    (seen vs ws : List Text)
    → Fresh seen vs
    → unique_from seen (vs ++ ws) ≡ vs ++ unique_from (seen_after seen vs) ws
unfolding unique_from
unique_from_of_Fresh seen [] ws h = refl
unique_from_of_Fresh seen (v ∷ vs) ws (trimmed, full, new, h) =
    rw (trim_space_of_IsTrimmed v trimmed, full, new)
      (ap (◌∷◌ v) (unique_from_of_Fresh (to_lower v ∷ seen) vs ws h))

pub append_unique-Fresh : (values more : List Text) → Fresh [] (append_unique values more)
unfolding append_unique
append_unique-Fresh values more = unique_from-Fresh [] (values ++ more)

pub compact_unique-Fresh : (values : List Text) → Fresh [] (compact_unique values)
unfolding compact_unique
compact_unique-Fresh values = unique_from-Fresh [] values

-- Texts that are unique already stay in front, in their order.
pub append_unique_of_Fresh :
    (values more : List Text)
    → Fresh [] values
    → append_unique values more ≡ values ++ unique_from (seen_after [] values) more
unfolding append_unique
append_unique_of_Fresh values more h = unique_from_of_Fresh [] values more h

pub compact_unique_of_Fresh :
    (values : List Text) → Fresh [] values → compact_unique values ≡ values
unfolding compact_unique
compact_unique_of_Fresh values h =
    ap (unique_from []) (sym (append-nil values))
    ∙ unique_from_of_Fresh [] values [] h
    ∙ unfold unique_from in append-nil values

pub compact_unique_idem :
    (values : List Text) → compact_unique (compact_unique values) ≡ compact_unique values
compact_unique_idem values =
    compact_unique_of_Fresh (compact_unique values) (compact_unique-Fresh values)

pub compact-append_unique :
    (values more : List Text)
    → compact_unique (append_unique values more) ≡ append_unique values more
compact-append_unique values more =
    compact_unique_of_Fresh (append_unique values more) (append_unique-Fresh values more)

-- Some text of the list equals `v` up to case.
abbrev pub listed : Text → List Text → Bool
listed v ws = seen_in (to_lower v) (map to_lower ws)

unique_from-covers :
    (seen vs : List Text) (v : Text)
    → In v vs
    → is_empty (trim_space v) ≡ false
    → (seen_in (to_lower (trim_space v)) seen || listed (trim_space v) (unique_from seen vs)) ≡ true
unfolding unique_from seen_in
unique_from-covers seen [] v h full = absurd h
unique_from-covers seen (x ∷ vs) v (inl here) full = rw here (
    ground
      (arith, eq_refl (to_lower (trim_space x)), ap (λ (y : Text). is_empty (trim_space y)) here))
unique_from-covers seen (x ∷ vs) v (inr there) full = ground (
  arith,
  unique_from-covers seen vs v there full,
  unique_from-covers (to_lower (trim_space x) ∷ seen) vs v there full,
)

-- No text that is not blank is lost: up to case it is in the result.
pub append_unique-covers :
    (values more : List Text) (v : Text)
    → In v (values ++ more)
    → is_empty (trim_space v) ≡ false
    → listed (trim_space v) (append_unique values more) ≡ true
unfolding append_unique seen_in
append_unique-covers values more v h full = unique_from-covers [] (values ++ more) v h full
