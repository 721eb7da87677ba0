-- ===== src/Domain/Health/Facts/Reachable.antt =====
-- Every result that the observations bring about is backed by its evidence.
use jobscout.Prelude.{
  ◌≡◌, refl, Bool, true, false, Option, some, arith, is_empty, if◌then◌else◌, inl, inr, Bool-cases,
}
use jobscout.Prelude.Int.{ℤ, sub_ℤ}
use jobscout.Text.{Text}
use jobscout.Text.Dict.{text_Eq, get}
use jobscout.Text.Equality.{eq_refl}
use jobscout.Domain.Metadata.{plausible_employee_count}
use jobscout.Domain.Health.Facts.{
  founded_words, employee_words, note, observe_field, with_evidence, observe_founded_year,
  observe_employee_count, note_field_gap, finalize_field, finalize_company_health_assessments,
}
use jobscout.Domain.Health.Fields.{
  Assessment, HealthResult, Observation, gap_assessment, assessment_of, write_field, founded_field,
  employees_field, founded_year_conflicts, employee_count_conflicts,
  init_company_health_assessments,
}
use jobscout.Domain.Health.Facts.Backed.{IsSound, IsSound-refused, observe_field-IsSound}
use jobscout.Domain.Health.Facts.Steps.{
  IsBackedResult, Reachable, Step, assessment_of-write_field, employees, employees-ne-founded,
  ensure-IsBackedResult, finish, founded, founded-ne-employees, gap, init, next,
  rewrite-IsBackedResult, start, write-IsBackedResult,
}

module _ (this_year : ℤ) where
  founded-IsBackedResult :
      (year : ℤ) (o : Observation) (r : HealthResult)
      → IsBackedResult this_year r
      → IsBackedResult this_year (observe_founded_year this_year year o r).1
  unfolding observe_founded_year
  founded-IsBackedResult year o r h =
      go
        (observe_field founded_year_conflicts founded_words r.founded_year year o
          (assessment_of founded_field r)).0
        (observe_field founded_year_conflicts founded_words r.founded_year year o
          (assessment_of founded_field r)).1
        (observe_field-IsSound founded_year_conflicts founded_words r.founded_year year o
          (assessment_of founded_field r) h.founded)
    where
      go :
          (taken : Bool) (a : Assessment)
          → IsSound
              (if taken then some year else r.founded_year)
              (with_evidence year o taken o.reason a)
          → IsBackedResult this_year (
              write_field founded_field (with_evidence year o taken o.reason a) (
                if taken
                then record r { founded_year = some year; age_years = some (sub_ℤ this_year year) }
                else r))
      go true a s = record {
        founded =
            rw
              (
                assessment_of-write_field founded_field founded_field
                    (with_evidence year o true o.reason a) r,
                eq_refl founded_field,
              )
              s;
        employees =
            rw
              (
                assessment_of-write_field founded_field employees_field
                    (with_evidence year o true o.reason a) r,
                founded-ne-employees,
              )
              h.employees;
        aged = refl;
        plausible = h.plausible;
      }
      go false a s =
          write-IsBackedResult this_year founded_field (with_evidence year o false o.reason a) r h
            (λ k. s) (λ k. cc founded-ne-employees)

  employees-IsBackedResult :
      (count : ℤ) (o : Observation) (r : HealthResult)
      → IsBackedResult this_year r
      → IsBackedResult this_year (observe_employee_count count o r).1
  unfolding observe_employee_count
  employees-IsBackedResult count o r h = elim (Bool-cases (plausible_employee_count count)) [
    | inl p ↦ rw p (
        go p
          (observe_field employee_count_conflicts employee_words r.estimated_employees count o
            (assessment_of employees_field r)).0
          (observe_field employee_count_conflicts employee_words r.estimated_employees count o
            (assessment_of employees_field r)).1
          (observe_field-IsSound employee_count_conflicts employee_words r.estimated_employees count
            o (assessment_of employees_field r) h.employees))
    | inr low ↦ rw low (
        write-IsBackedResult this_year employees_field _ r h (λ k. cc employees-ne-founded)
          (λ k.
            IsSound-refused count o _ r.estimated_employees (assessment_of employees_field r)
              h.employees))
  ]
    where
      go :
          plausible_employee_count count ≡ true
          → (taken : Bool) (a : Assessment)
          → IsSound
              (if taken then some count else r.estimated_employees)
              (with_evidence count o taken o.reason a)
          → IsBackedResult this_year (
              write_field employees_field
                (with_evidence count o taken o.reason a)
                (if taken then record r { estimated_employees = some count } else r))
      go p true a s = record {
        founded =
            rw
              (
                assessment_of-write_field employees_field founded_field
                    (with_evidence count o true o.reason a) r,
                employees-ne-founded,
              )
              h.founded;
        employees =
            rw
              (
                assessment_of-write_field employees_field employees_field
                    (with_evidence count o true o.reason a) r,
                eq_refl employees_field,
              )
              s;
        aged = h.aged;
        plausible = p;
      }
      go p false a s =
          write-IsBackedResult this_year employees_field (with_evidence count o false o.reason a) r
            h (λ k. cc employees-ne-founded) (λ k. s)

  gap-IsBackedResult :
      (k text : Text) (r : HealthResult)
      → IsBackedResult this_year r
      → IsBackedResult this_year (note_field_gap k text r)
  unfolding note_field_gap
  gap-IsBackedResult k text r h = elim (Bool-cases (is_empty text)) [
    | inl e ↦ rw e (ensure-IsBackedResult this_year k r h)
    | inr e ↦
        rw e (
          rewrite-IsBackedResult this_year k (note text (assessment_of k r)) r refl refl refl refl
            h)
  ]

  finalize_field-IsBackedResult :
      (value : Option ℤ) (k text : Text) (r : HealthResult)
      → IsBackedResult this_year r
      → IsBackedResult this_year (write_field k (finalize_field value text (assessment_of k r)) r)
  unfolding finalize_field
  finalize_field-IsBackedResult value k text r h =
      rewrite-IsBackedResult this_year k _ r (ground arith) (ground arith) (ground arith)
        (ground arith) h

  Step-IsBackedResult :
      {r s : HealthResult}
      → Step this_year r s
      → IsBackedResult this_year r
      → IsBackedResult this_year s
  unfolding init_company_health_assessments finalize_company_health_assessments
  Step-IsBackedResult (init r) h =
      ensure-IsBackedResult this_year employees_field _
        (ensure-IsBackedResult this_year founded_field r h)
  Step-IsBackedResult (founded year o r) h = founded-IsBackedResult year o r h
  Step-IsBackedResult (employees count o r) h = employees-IsBackedResult count o r h
  Step-IsBackedResult (gap k text r) h = gap-IsBackedResult k text r h
  Step-IsBackedResult (finish r) h =
      finalize_field-IsBackedResult _ employees_field _ _
        (finalize_field-IsBackedResult _ founded_field _ r h)

-- Whatever is observed, noted and finalised of a company, in whatever order: a founding year or a
-- number of employees that the result states has an accepted entry of evidence with the stated
-- confidence and source, and no accepted entry is of a higher rank; without a value no entry is
-- accepted; the age is that of the founding year; and the number of employees is plausible.
pub Reachable-IsBackedResult :
    {this_year : ℤ} {r : HealthResult} → Reachable this_year r → IsBackedResult this_year r
unfolding assessment_of gap_assessment get
Reachable-IsBackedResult start = record {
  founded = record { backed = tt; dominated = tt };
  employees = record { backed = tt; dominated = tt };
  aged = refl;
  plausible = tt;
}
Reachable-IsBackedResult (next r st) = Step-IsBackedResult _ st (Reachable-IsBackedResult r)
