-- ===== src/Domain/Location/Codes.antt =====
-- Codes of countries and states: what is normalized stays as it is.
use jobscout.Prelude.{
  ◌≡◌, refl, sym, ap, ◌⊎◌, ◌∙◌, inl, inr, Bool, true, false, not, ◌&&◌, ◌||◌, Option, none, some,
  [], ◌∷◌, arith, is_empty, is_some, eqb, if◌then◌else◌, Bool-cases, Option-cases,
}
use jobscout.Text.{Text, codes, ◌==◌, upper, trim_space, to_upper}
use jobscout.Text.Equality.{eq_iff}
use jobscout.Text.Trim.{trim_space_idem}
use jobscout.Text.Case.{to_upper_idem, trim_space-to_upper}
use jobscout.Text.Dict.{Dict, get, text_Eq}
use jobscout.Domain.Criteria.{Criteria}
use jobscout.Domain.Location.{
  us_state_abbreviations, byte_length, country_of, normalize_country_code, normalize_state_region,
  normalize_criteria_location,
}

-- strings.ToUpper(strings.TrimSpace(s))
abbrev cleaned : Text → Text
cleaned s = to_upper (trim_space s)

cleaned_idem : (s : Text) → cleaned (cleaned s) ≡ cleaned s
cleaned_idem s =
    rw (trim_space-to_upper (trim_space s), trim_space_idem s) (to_upper_idem (trim_space s))

country_of-cases :
    (v : Text)
    → (country_of v ≡ v)
      ⊎ ((country_of v ≡ codes "US") ⊎ ((country_of v ≡ codes "AU") ⊎ (country_of v ≡ codes "SG")))
unfolding country_of
country_of-cases v = ground arith

country_of-cleaned-country_of :
    (v : Text) → cleaned v ≡ v → country_of (cleaned (country_of v)) ≡ country_of v
unfolding country_of trim_space to_upper ◌==◌ upper
country_of-cleaned-country_of v clean = elim (country_of-cases v) [
  | inl e ↦ ap country_of (ap cleaned e ∙ clean)
  | inr (inl e) ↦ ap (λ c. country_of (cleaned c)) e ∙ sym e
  | inr (inr (inl e)) ↦ ap (λ c. country_of (cleaned c)) e ∙ sym e
  | inr (inr (inr e)) ↦ ap (λ c. country_of (cleaned c)) e ∙ sym e
]

-- A normalized country code stays as it is.
pub normalize_country_code_idem :
    (c : Text) → normalize_country_code (normalize_country_code c) ≡ normalize_country_code c
unfolding normalize_country_code
normalize_country_code_idem c = country_of-cleaned-country_of (cleaned c) (cleaned_idem c)

-- Every value of a map passes a test.
all_values : (Text → Bool) → Dict Text Text → Bool
all_values p [] = true
all_values p ((k, a) ∷ m) = p a && all_values p m

get_all :
    (p : Text → Bool) (m : Dict Text Text) (k a : Text)
    → all_values p m ≡ true
    → get k m ≡ some a
    → p a ≡ true
unfolding all_values get
get_all p [] k a h e = cc
get_all p ((j, b) ∷ m) k a h e = ground (arith, get_all p m k a)

-- An abbreviation is clean, and no name of a state.
abbrev is_final : Text → Bool
is_final a = trim_space a == a && (to_upper a == a) && not (is_some (get a us_state_abbreviations))

abbreviations_final : all_values is_final us_state_abbreviations ≡ true
unfolding all_values get ◌==◌ trim_space to_upper upper
abbreviations_final = refl

-- The table of abbreviations is used for this country.
abbrev uses_table : Text → Bool
uses_table c = is_empty (normalize_country_code c) || normalize_country_code c == codes "US"

normalize_state_region_stable :
    (s c : Text)
    → trim_space s ≡ s
    → to_upper s ≡ s
    → ((get s us_state_abbreviations ≡ none) ⊎ (uses_table c ≡ false))
    → normalize_state_region s c ≡ s
unfolding normalize_state_region
normalize_state_region_stable s c t u h = elim (Bool-cases (is_empty s)) [
  | inl e ↦ rw (t, e) (ground arith)
  | inr e ↦ elim h [ inl n ↦ rw (t, u, e, n) (ground (arith, t, u)) | inr n ↦ rw (t, u, e, n) refl ]
]

-- What the normalization returns is trimmed and in upper case, and the table, where it is used, has
-- no entry for it.
record IsStable (s c : Text) : Type 0 where
  trimmed : trim_space s ≡ s
  in_upper : to_upper s ≡ s
  final : (get s us_state_abbreviations ≡ none) ⊎ (uses_table c ≡ false)

upper-trimmed : (v : Text) → trim_space (to_upper (trim_space v)) ≡ to_upper (trim_space v)
upper-trimmed v = rw (trim_space-to_upper (trim_space v), trim_space_idem v) refl

abbreviation-IsStable : (k a c : Text) → get k us_state_abbreviations ≡ some a → IsStable a c
abbreviation-IsStable k a c e = record {
  trimmed = (eq_iff (trim_space a) a).0 (ground (arith, passed));
  in_upper = (eq_iff (to_upper a) a).0 (ground (arith, passed));
  final = inl (ground (arith, passed));
}
  where
    passed : is_final a ≡ true
    passed = get_all is_final us_state_abbreviations k a abbreviations_final e

nil-IsStable : (c : Text) → IsStable [] c
unfolding trim_space to_upper get ◌==◌
nil-IsStable c = record { trimmed = refl; in_upper = refl; final = inl refl }

if_same : {A : Type 0} (b : Bool) (x : A) → (if b then x else x) ≡ x
if_same true x = refl
if_same false x = refl

normalize_state_region-IsStable : (v c : Text) → IsStable (normalize_state_region v c) c
unfolding normalize_state_region
normalize_state_region-IsStable v c = elim (Bool-cases (is_empty (trim_space v))) [
  | inl e ↦ rw e (nil-IsStable c)
  | inr e ↦ elim (Bool-cases (uses_table c)) [
    | inl y ↦ elim (Option-cases (get (to_upper (trim_space v)) us_state_abbreviations)) [
      | inl n ↦
          rw (e, y, n, if_same (eqb (byte_length (to_upper (trim_space v))) 2))
            (record {
              trimmed = upper-trimmed v;
              in_upper = to_upper_idem (trim_space v);
              final = inl n;
            })
      | inr (a, n) ↦ rw (e, y, n) (abbreviation-IsStable _ a c n)
    ]
    | inr n ↦
        rw (e, n)
          (record {
            trimmed = upper-trimmed v;
            in_upper = to_upper_idem (trim_space v);
            final = inr n;
          })
  ]
]

-- A normalized state stays as it is, in the same country.
pub normalize_state_region_idem :
    (v c : Text)
    → normalize_state_region (normalize_state_region v c) c ≡ normalize_state_region v c
normalize_state_region_idem v c =
    let h = normalize_state_region-IsStable v c in
    normalize_state_region_stable (normalize_state_region v c) c h.trimmed h.in_upper h.final

-- Normalizing the location of the criteria twice is normalizing it once.
pub normalize_criteria_location_idem :
    (cfg : Option Criteria)
    → normalize_criteria_location (normalize_criteria_location cfg)
      ≡ normalize_criteria_location cfg
unfolding normalize_criteria_location
normalize_criteria_location_idem none = refl
normalize_criteria_location_idem (some cfg) =
    let c = cfg.candidate.country_code in
    rw
      (
        normalize_country_code_idem c,
        normalize_state_region_idem cfg.candidate.state (normalize_country_code c),
      )
      refl
