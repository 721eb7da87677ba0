-- ===== src/Domain/Criteria.antt =====
-- CriteriaConfig of internal/domain/criteria.go, and CriteriaHash of internal/domain/job_candidate.go
-- with the normalization of its lists.
pub mod Increasing
pub mod Slices
use jobscout.Prelude.{
  ◌≡◌, Bool, true, false, Option, none, some, List, [], ◌∷◌, is_empty, if◌then◌else◌,
}
use jobscout.Prelude.Int.{ℤ}
use jobscout.Text.{Text, codes, fields, join, to_lower}
use jobscout.Text.Order.{sort_texts}
use jobscout.Domain.Unique.{seen_in}

-- A slice; `none` is nil, which JSON tells from an empty one.
abbrev pub Slice : Type 0
Slice = Option (List Text)

pub record WorkSettings : Type 0 where
  pub remote : Bool
  pub hybrid : Bool
  pub onsite : Bool

pub record CandidateProfile : Type 0 where
  pub city : Text
  pub state : Text
  pub country_code : Text
  pub years_of_experience : ℤ

pub record CriteriaFilters : Type 0 where
  pub title_requires : Slice
  pub title_includes : Slice
  pub title_excludes : Slice
  pub work_settings : WorkSettings
  pub max_distance_miles : ℤ
  pub min_base_usd : ℤ
  pub industry_includes : Slice
  pub industry_excludes : Slice

pub record Criteria : Type 0 where
  pub candidate : CandidateProfile
  pub filters : CriteriaFilters
  pub role_families : Slice
  pub resolved_source_ids : Slice
  pub priority_signals : Slice

-- strings.ToLower(strings.Join(strings.Fields(value), " "))
abbrev pub normal_value : Text → Text
normal_value value = to_lower (join (codes " ") (fields value))

-- The loop of the two functions below over the values that `f` gives, with the keys of the map `seen`.
unfoldable pub distinct_by : (Text → Text) → List Text → List Text → List Text
distinct_by f seen [] = []
distinct_by f seen (v ∷ vs) =
    let skip = distinct_by f seen vs in
    let keep = f v ∷ distinct_by f (f v ∷ seen) vs in
    if is_empty (f v) then skip else if seen_in (f v) seen then skip else keep

abbrev normalized : (Text → Text) → List Text → List Text
normalized f [] = []
normalized f (v ∷ vs) = sort_texts (distinct_by f [] (v ∷ vs))

unfoldable pub normalize_string_slice : Slice → Slice
unfolding distinct_by
normalize_string_slice none = none
normalize_string_slice (some values) = some (normalized normal_value values)

unfoldable pub normalize_role_family_slice : Slice → Slice
unfolding distinct_by
normalize_role_family_slice none = none
normalize_role_family_slice (some values) = some (normalized (λ v. v) values)

-- the copy that is hashed
unfoldable pub normalize_criteria : Criteria → Criteria
normalize_criteria c = record c {
  filters = record c.filters {
    title_requires = normalize_string_slice c.filters.title_requires;
    title_includes = normalize_string_slice c.filters.title_includes;
    title_excludes = normalize_string_slice c.filters.title_excludes;
    industry_includes = normalize_string_slice c.filters.industry_includes;
    industry_excludes = normalize_string_slice c.filters.industry_excludes;
  };
  role_families = normalize_role_family_slice c.role_families;
  resolved_source_ids = normalize_string_slice c.resolved_source_ids;
  priority_signals = normalize_string_slice c.priority_signals;
}

-- `digest` is json.Marshal, SHA-256 and the hexadecimal digits of the first 16 bytes; `none` is the
-- error of Marshal.
unfoldable pub criteria_hash : (Criteria → Option Text) → Option Criteria → Text
unfolding normalize_criteria
criteria_hash digest none = codes "none"
criteria_hash digest (some criteria) = elim (digest (normalize_criteria criteria)) [
  | none ↦ codes "invalid"
  | some sum ↦ sum
]
