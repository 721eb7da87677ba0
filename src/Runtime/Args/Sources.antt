-- ===== src/Runtime/Args/Sources.antt =====
-- What `--sources` selects.
use jobscout.Prelude.{
  ◌≡◌, refl, subst, true, false, List, [], ◌∷◌, ◌++◌, Option, none, some, arith, Result, ok, err,
  ◌>>=◌, is_empty, All, All-append, In, Bool-cases, inl, inr,
}
use jobscout.Text.{Text, trim_space, split}
use jobscout.Text.Equality.{eq_refl}
use jobscout.Domain.Unique.{seen_in}
use jobscout.Domain.Unique.Distinct.{seen_in-append, Distinct, Distinct-append}
use jobscout.Runtime.Args.{
  ArgError, normalize_source_name, is_valid_source_name, select_from, parse_source_selection,
  selected,
}

abbrev pub IsSelection : List Text → Type 0
IsSelection sources = All (λ s. is_valid_source_name s ≡ true) sources × Distinct [] sources

IsSelection-append :
    (sources : List Text) (source : Text)
    → IsSelection sources
    → is_valid_source_name source ≡ true
    → seen_in source sources ≡ false
    → IsSelection (sources ++ source ∷ [])
IsSelection-append sources source (valid, distinct) v new = (
  All-append _ sources (source ∷ []) valid (v, tt),
  Distinct-append [] sources (source ∷ []) distinct (new, tt),
)

select_from-IsSelection :
    (sources parts : List Text) (found : List Text)
    → IsSelection sources
    → select_from sources parts ≡ ok (some found)
    → IsSelection found
unfolding select_from
select_from-IsSelection sources [] found h e = ground arith
select_from-IsSelection sources (part ∷ parts) found h e = ground (
  arith,
  select_from-IsSelection sources parts found h,
  select_from-IsSelection (sources ++ normalize_source_name part ∷ []) parts found,
  IsSelection-append sources (normalize_source_name part) h,
)

-- What was selected stays selected.
select_from-keeps :
    (sources parts found : List Text) (k : Text)
    → select_from sources parts ≡ ok (some found)
    → seen_in k sources ≡ true
    → seen_in k found ≡ true
unfolding select_from
select_from-keeps sources [] found k e h = ground arith
select_from-keeps sources (part ∷ parts) found k e h = ground (
  arith,
  select_from-keeps sources parts found k,
  select_from-keeps (sources ++ normalize_source_name part ∷ []) parts found k,
  seen_in-append k sources (normalize_source_name part ∷ []),
)

seen_in-concat : (k : Text) (xs : List Text) → seen_in k (xs ++ k ∷ []) ≡ true
unfolding seen_in
seen_in-concat k xs = ground (arith, seen_in-append k xs (k ∷ []), eq_refl k)

select_from-covers :
    (sources parts found : List Text) (part : Text)
    → select_from sources parts ≡ ok (some found)
    → In part parts
    → is_empty (normalize_source_name part) ≡ false
    → seen_in (normalize_source_name part) found ≡ true
unfolding select_from
select_from-covers sources [] found part e h full = absurd h
select_from-covers sources (q ∷ parts) found part e (inl here) full = rw here (
    ground (
      arith,
      select_from-keeps sources parts found (normalize_source_name q),
      select_from-keeps (sources ++ normalize_source_name q ∷ []) parts found
          (normalize_source_name q),
      seen_in-concat (normalize_source_name q) sources,
      rw here at full,
    ))
select_from-covers sources (q ∷ parts) found part e (inr there) full = ground (
  arith,
  select_from-covers sources parts found part,
  select_from-covers (sources ++ normalize_source_name q ∷ []) parts found part,
  there,
)

abbrev pub Covers : List Text → List Text → Type 0
Covers parts sources =
    is_empty sources ≡ false
    → (part : Text) → In part parts
    → is_empty (normalize_source_name part) ≡ false
    → seen_in (normalize_source_name part) sources ≡ true

selected-IsSelection :
    (parts : List Text) (r : Result ArgError (Option (List Text))) (sources : List Text)
    → select_from [] parts ≡ r
    → (r >>= selected) ≡ ok sources
    → IsSelection sources × Covers parts sources
selected-IsSelection parts (err x) sources e h = cc
selected-IsSelection parts (ok none) [] e h = ((tt, tt), λ k. cc)
selected-IsSelection parts (ok none) (s ∷ ss) e h = cc
selected-IsSelection parts (ok (some [])) sources e h = cc
selected-IsSelection parts (ok (some (s ∷ ss))) sources e h =
    let same : s ∷ ss ≡ sources = ground arith in
    subst (λ found. IsSelection found × Covers parts found) same
      (
        select_from-IsSelection [] parts (s ∷ ss) (tt, tt) e,
        λ k part. select_from-covers [] parts (s ∷ ss) part e,
      )

-- A selection that is accepted holds supported names only, each once; and unless it is empty, which
-- stands for all sources, it holds the name of every part of the list that is not empty.
pub parse_source_selection-IsSelection :
    (value : Text) (sources : List Text)
    → parse_source_selection value ≡ ok sources
    → IsSelection sources × Covers (split (trim_space value) b',') sources
unfolding parse_source_selection
parse_source_selection-IsSelection value sources e =
    elim (Bool-cases (is_empty (trim_space value))) [
      | inl blank ↦ absurd (ground arith)
      | inr full ↦
          selected-IsSelection (split (trim_space value) b',') _ sources refl (rw full at e)
    ]
