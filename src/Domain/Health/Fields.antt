-- ===== src/Domain/Health/Fields.antt =====
-- The assessed fields of a result: internal/domain/company_health_types.go, and the ranks, conflicts
-- and look-up of company_health_facts.go. Of CompanyHealthResult it holds the fields that the
-- functions of that file read or write.
use jobscout.Prelude.{
  ℕ, ◌+◌, ◌*◌, ◌/◌, Bool, false, not, ◌&&◌, ◌||◌, List, [], Option, none, some, leb, ltb, eqb,
  if◌then◌else◌,
}
use jobscout.Prelude.Int.{ℤ, pos, negsuc, leb_ℤ, sub_ℤ, max_ℤ, min_ℤ, distance}
use jobscout.Text.{Text, codes, ◌==◌}
use jobscout.Text.Dict.{Dict, text_Eq, get, put}

pub record Evidence : Type 0 where
  pub value : Text
  pub source : Text
  pub url : Text
  pub confidence : Text
  pub accepted : Bool
  pub reason : Text

pub record Assessment : Type 0 where
  pub status : Text
  pub confidence : Text
  pub source : Text
  pub url : Text
  pub notes : List Text
  pub evidence : List Evidence

pub record HealthResult : Type 0 where
  pub founded_year : Option ℤ
  pub age_years : Option ℤ
  pub estimated_employees : Option ℤ
  pub field_assessments : Dict Text Assessment

-- the arguments that both observations take after the value
pub record Observation : Type 0 where
  pub source : Text
  pub source_url : Text
  pub confidence : Text
  pub reason : Text

abbrev pub field_status_gap : Text
field_status_gap = codes "gap"

abbrev pub field_status_conflict : Text
field_status_conflict = codes "conflict"

unfoldable pub confidence_rank : Text → ℕ
confidence_rank confidence =
    if confidence == codes "high"
    then 3
    else if confidence == codes "medium"
    then 2
    else if confidence == codes "low"
    then 1
    else 0

unfoldable pub field_status_for_confidence : Text → Text
unfolding confidence_rank
field_status_for_confidence confidence =
    if leb (confidence_rank (codes "high")) (confidence_rank confidence)
    then codes "confirmed"
    else codes "estimated"

unfoldable pub founded_year_conflicts : ℤ → ℤ → Bool
founded_year_conflicts current candidate = ltb 2 (distance current candidate)

abbrev is_zero : ℤ → Bool
is_zero (pos n) = eqb n 0
is_zero (negsuc n) = false

-- int(float64(low) * 1.5), rounded towards zero; exact below 2^52
unfoldable pub half_more : ℤ → ℤ
half_more (pos n) = pos (n * 3 / 2)
half_more (negsuc n) = sub_ℤ (pos 0) (pos ((n + 1) * 3 / 2))

unfoldable pub employee_count_conflicts : ℤ → ℤ → Bool
unfolding half_more
employee_count_conflicts current candidate =
    let high = max_ℤ current candidate in
    let low = min_ℤ current candidate in
    if is_zero high || is_zero low
    then not (is_zero high && is_zero low)
    else leb_ℤ (half_more low) high && leb 200 (distance high low)

unfoldable pub gap_assessment : Assessment
gap_assessment = record {
  status = field_status_gap;
  confidence = [];
  source = [];
  url = [];
  notes = [];
  evidence = [];
}

-- ensureCompanyHealthField: the assessment, a gap where there is none
abbrev or_gap : Option Assessment → Assessment
or_gap none = gap_assessment
or_gap (some a) = a

unfoldable pub assessment_of : Text → HealthResult → Assessment
assessment_of field r = or_gap (get field r.field_assessments)

abbrev pub write_field : Text → Assessment → HealthResult → HealthResult
write_field field a r = record r { field_assessments = put field a r.field_assessments }

unfoldable pub ensure_company_health_field : Text → HealthResult → HealthResult
unfolding assessment_of
ensure_company_health_field field r = write_field field (assessment_of field r) r

abbrev pub founded_field : Text
founded_field = codes "founded_year"

abbrev pub employees_field : Text
employees_field = codes "estimated_employees"

unfoldable pub init_company_health_assessments : HealthResult → HealthResult
unfolding ensure_company_health_field
init_company_health_assessments r =
    ensure_company_health_field employees_field (ensure_company_health_field founded_field r)
