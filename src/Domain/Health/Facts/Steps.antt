-- ===== src/Domain/Health/Facts/Steps.antt =====
-- The operations on a result as steps, and what it means that a result is backed.
use jobscout.Prelude.{
  ◌≡◌, refl, true, false, Option, none, some, arith, [], if◌then◌else◌, inl, inr, Bool-cases,
}
use jobscout.Prelude.Int.{ℤ, sub_ℤ}
use jobscout.Text.{Text, ◌==◌}
use jobscout.Text.Dict.{text_Eq, get-put}
use jobscout.Text.Equality.{eq_iff}
use jobscout.Domain.Metadata.{plausible_employee_count}
use jobscout.Domain.Health.Facts.{
  observe_founded_year, observe_employee_count, note_field_gap, finalize_company_health_assessments,
}
use jobscout.Domain.Health.Fields.{
  Assessment, HealthResult, Observation, assessment_of, write_field, ensure_company_health_field,
  founded_field, employees_field, init_company_health_assessments,
}
use jobscout.Domain.Health.Facts.Backed.{IsSound, IsSound-same}

pub assessment_of-write_field :
    (j k : Text) (a : Assessment) (r : HealthResult)
    → assessment_of k (write_field j a r) ≡ (if j == k then a else assessment_of k r)
unfolding assessment_of
assessment_of-write_field j k a r = ground (arith, get-put j k a r.field_assessments)

pub founded-ne-employees : founded_field == employees_field ≡ false
unfolding ◌==◌
founded-ne-employees = refl

pub employees-ne-founded : employees_field == founded_field ≡ false
unfolding ◌==◌
employees-ne-founded = refl

abbrev pub empty_result : HealthResult
empty_result = record {
  founded_year = none;
  age_years = none;
  estimated_employees = none;
  field_assessments = [];
}

abbrev age_of : ℤ → Option ℤ → Option ℤ
age_of this_year none = none
age_of this_year (some year) = some (sub_ℤ this_year year)

abbrev Plausible : Option ℤ → Type 0
Plausible none = Unit {0}
Plausible (some n) = plausible_employee_count n ≡ true

-- What the result says is backed by the evidence, the age is that of the founding year, and the
-- number of employees is plausible.
pub record IsBackedResult (this_year : ℤ) (r : HealthResult) : Type 0 where
  pub founded : IsSound r.founded_year (assessment_of founded_field r)
  pub employees : IsSound r.estimated_employees (assessment_of employees_field r)
  pub aged : r.age_years ≡ age_of this_year r.founded_year
  pub plausible : Plausible r.estimated_employees

-- The operations on a result, within one year.
pub data Step (this_year : ℤ) : HealthResult → HealthResult → Type 0 where
  init : (r : HealthResult) → Step this_year r (init_company_health_assessments r)
  founded :
      (year : ℤ) (o : Observation) (r : HealthResult)
      → Step this_year r (observe_founded_year this_year year o r).1
  employees :
      (count : ℤ) (o : Observation) (r : HealthResult)
      → Step this_year r (observe_employee_count count o r).1
  gap : (field text : Text) (r : HealthResult) → Step this_year r (note_field_gap field text r)
  finish : (r : HealthResult) → Step this_year r (finalize_company_health_assessments r)

pub data Reachable (this_year : ℤ) : HealthResult → Type 0 where
  start : Reachable this_year empty_result
  next : {r s : HealthResult} → Reachable this_year r → Step this_year r s → Reachable this_year s

module _ (this_year : ℤ) where
  -- Writing a field whose assessment is sound for the value that the result has.
  pub write-IsBackedResult :
      (k : Text) (a : Assessment) (r : HealthResult)
      → IsBackedResult this_year r
      → ((k == founded_field) ≡ true → IsSound r.founded_year a)
      → ((k == employees_field) ≡ true → IsSound r.estimated_employees a)
      → IsBackedResult this_year (write_field k a r)
  write-IsBackedResult k a r h f e = record {
    founded =
        rw (assessment_of-write_field k founded_field a r) (elim (Bool-cases (k == founded_field)) [
          | inl same ↦ rw same (f same)
          | inr other ↦ rw other h.founded
        ]);
    employees =
        rw (assessment_of-write_field k employees_field a r)
          (elim (Bool-cases (k == employees_field)) [
            | inl same ↦ rw same (e same)
            | inr other ↦ rw other h.employees
          ]);
    aged = h.aged;
    plausible = h.plausible;
  }

  -- Rewriting a field, where only its status and its notes change.
  pub rewrite-IsBackedResult :
      (k : Text) (a : Assessment) (r : HealthResult)
      → a.evidence ≡ (assessment_of k r).evidence
      → a.confidence ≡ (assessment_of k r).confidence
      → a.source ≡ (assessment_of k r).source
      → a.url ≡ (assessment_of k r).url
      → IsBackedResult this_year r
      → IsBackedResult this_year (write_field k a r)
  rewrite-IsBackedResult k a r e c s u h =
      write-IsBackedResult k a r h
        (λ same.
          IsSound-same r.founded_year (assessment_of k r) a e c s u
            (rw ((eq_iff k founded_field).0 same) h.founded))
        (λ same.
          IsSound-same r.estimated_employees (assessment_of k r) a e c s u
            (rw ((eq_iff k employees_field).0 same) h.employees))

  pub ensure-IsBackedResult :
      (k : Text) (r : HealthResult)
      → IsBackedResult this_year r
      → IsBackedResult this_year (ensure_company_health_field k r)
  unfolding ensure_company_health_field
  ensure-IsBackedResult k r h = rewrite-IsBackedResult k (assessment_of k r) r refl refl refl refl h
