-- ===== src/Domain/Health/Facts.antt =====
-- internal/domain/company_health_facts.go: observing the founding year and the number of employees
-- of a company, each with an assessment that keeps the evidence.
pub mod Steps
pub mod Accepted
pub mod Backed
pub mod Reachable
use jobscout.Prelude.{
  ℕ, ◌+◌, ◌*◌, ◌/◌, Bool, true, false, not, ◌&&◌, ◌||◌, List, [], ◌∷◌, ◌++◌, Option, none, some,
  is_some, is_empty, leb, ltb, eqb, if◌then◌else◌,
}
use jobscout.Prelude.Int.{ℤ, pos, negsuc, leb_ℤ, ltb_ℤ, sub_ℤ, max_ℤ, min_ℤ, distance}
use jobscout.Text.{Text, codes, ◌==◌}
use jobscout.Text.Dict.{Dict, text_Eq, get, put}
use jobscout.Text.Number.{itoa}
use jobscout.Domain.Metadata.{plausible_employee_count}
use jobscout.Domain.Health.Fields.{
  Assessment, Evidence, HealthResult, Observation, assessment_of, confidence_rank,
  employee_count_conflicts, employees_field, ensure_company_health_field, field_status_conflict,
  field_status_for_confidence, field_status_gap, founded_field, founded_year_conflicts,
  gap_assessment, half_more, init_company_health_assessments, write_field,
}

-- setAcceptedFieldState
unfoldable pub accept : Observation → Assessment → Assessment
accept o a = record a {
  status = field_status_for_confidence o.confidence;
  confidence = o.confidence;
  source = o.source;
  url = o.source_url;
}

-- append(assessment.Notes, note)
abbrev pub note : Text → Assessment → Assessment
note text a = record a { notes = a.notes ++ text ∷ [] }

-- the words in which the notes of the two observations differ
pub record Words : Type 0 where
  pub candidate : Text
  pub accepted : Text

unfoldable pub conflict_note : Words → Text → ℤ → ℤ → Text
conflict_note w source value current =
    codes "Conflicting "
    ++ (w.candidate
        ++ (codes " candidate from "
            ++ (source
                ++ (codes ": "
                    ++ (itoa value
                        ++ (codes "; current accepted value is "
                            ++ (itoa current ++ codes ".")))))))

abbrev note_reason : Text → Assessment → Assessment
note_reason reason a = if is_empty reason then a else note reason a

-- The three cases of an observation: whether the value is accepted, and the assessment after it.
unfoldable pub observe_field :
    (ℤ → ℤ → Bool) → Words → Option ℤ → ℤ → Observation → Assessment → Bool × Assessment
unfolding accept conflict_note
observe_field conflicts w none value o a = (true, note_reason o.reason (accept o a))
observe_field conflicts w (some current) value o a =
    let higher = ltb (confidence_rank a.confidence) (confidence_rank o.confidence) in
    let noted =
      note (conflict_note w o.source value current) (record a { status = field_status_conflict }) in
    if conflicts current value
    then (if higher && leb (confidence_rank (codes "medium")) (confidence_rank o.confidence)
        then (true, note w.accepted (accept o noted))
        else (false, noted))
    else if higher
    then (true, accept o a)
    else (false, a)

unfoldable pub with_evidence : ℤ → Observation → Bool → Text → Assessment → Assessment
with_evidence value o accepted reason a = record a {
  evidence =
      a.evidence
      ++ record {
        value = itoa value;
        source = o.source;
        url = o.source_url;
        confidence = o.confidence;
        accepted = accepted;
        reason = reason;
      }
        ∷ [];
}

abbrev pub founded_words : Words
founded_words = record {
  candidate = codes "founded year";
  accepted = codes "Accepted the higher-confidence founded year candidate.";
}

abbrev pub employee_words : Words
employee_words = record {
  candidate = codes "employee-count";
  accepted = codes "Accepted the higher-confidence employee-count candidate.";
}

-- `this_year` is `time.Now().Year()`
unfoldable pub observe_founded_year : ℤ → ℤ → Observation → HealthResult → Bool × HealthResult
unfolding assessment_of observe_field with_evidence founded_year_conflicts
observe_founded_year this_year year o r =
    let (accepted, a) =
      observe_field founded_year_conflicts founded_words r.founded_year year o
        (assessment_of founded_field r) in
    let after = with_evidence year o accepted o.reason a in
    (
      accepted,
      write_field founded_field after (
          if accepted
          then record r { founded_year = some year; age_years = some (sub_ℤ this_year year) }
          else r),
    )

unfoldable pub observe_employee_count : ℤ → Observation → HealthResult → Bool × HealthResult
unfolding assessment_of observe_field with_evidence employee_count_conflicts
    plausible_employee_count
observe_employee_count count o r =
    let before = assessment_of employees_field r in
    let (accepted, a) =
      observe_field employee_count_conflicts employee_words r.estimated_employees count o before in
    let ignored =
      with_evidence count o false (codes "ignored implausibly low employee-count estimate")
        before in
    let after = with_evidence count o accepted o.reason a in
    if plausible_employee_count count
    then (
      accepted,
      write_field employees_field after
          (if accepted then record r { estimated_employees = some count } else r),
    )
    else (false, write_field employees_field ignored r)

unfoldable pub note_field_gap : Text → Text → HealthResult → HealthResult
unfolding ensure_company_health_field assessment_of
note_field_gap field text r =
    if is_empty text
    then ensure_company_health_field field r
    else write_field field (note text (assessment_of field r)) r

-- what finalizeCompanyHealthAssessments does to one field
unfoldable pub finalize_field : Option ℤ → Text → Assessment → Assessment
finalize_field value text a =
    let gap = record a { status = field_status_gap } in
    if not (is_some value) && not (a.status == field_status_conflict)
    then (if is_empty a.notes then note text gap else gap)
    else a

unfoldable pub finalize_company_health_assessments : HealthResult → HealthResult
unfolding finalize_field assessment_of
finalize_company_health_assessments r =
    let founded =
      finalize_field r.founded_year (codes "No trustworthy founded-year evidence was found.")
        (assessment_of founded_field r) in
    let s = write_field founded_field founded r in
    let employees =
      finalize_field s.estimated_employees
        (codes "No trustworthy employee-count evidence was found.")
        (assessment_of employees_field s) in
    write_field employees_field employees s
