-- ===== src/Domain/Health/Facts/Accepted.antt =====
-- When an observation replaces the value of a field.
use jobscout.Prelude.{
  ◌≡◌, [], ◌∷◌, ◌++◌, refl, ap, ◌∙◌, Bool, true, false, not, ◌&&◌, ◌||◌, Option, none, some, arith,
  is_some, leb, ltb, inl, inr, Bool-cases, if◌then◌else◌,
}
use jobscout.Prelude.Int.{ℤ}
use jobscout.Text.{Text, codes, ◌==◌}
use jobscout.Text.Dict.{text_Eq, get-put}
use jobscout.Text.Equality.{eq_refl}
use jobscout.Text.Number.{itoa}
use jobscout.Domain.Metadata.{plausible_employee_count}
use jobscout.Domain.Health.Facts.{
  Words, founded_words, employee_words, accept, observe_field, with_evidence, observe_founded_year,
  observe_employee_count,
}
use jobscout.Domain.Health.Fields.{
  Assessment, Evidence, HealthResult, Observation, confidence_rank, assessment_of, write_field,
  founded_field, employees_field, founded_year_conflicts, employee_count_conflicts,
}

abbrev agrees : (ℤ → ℤ → Bool) → Option ℤ → ℤ → Bool
agrees conflicts none value = true
agrees conflicts (some current) value = not (conflicts current value)

-- A first value is accepted; a later one only on higher confidence, which has to be at least medium
-- where the values conflict.
abbrev pub accepts : (ℤ → ℤ → Bool) → Option ℤ → ℤ → Text → Text → Bool
accepts conflicts current value old new =
    not (is_some current)
    || ltb (confidence_rank old) (confidence_rank new)
      && (agrees conflicts current value || leb 2 (confidence_rank new))

rank_of_medium : confidence_rank (codes "medium") ≡ 2
unfolding confidence_rank ◌==◌
rank_of_medium = refl

observe_field-accepts :
    (conflicts : ℤ → ℤ → Bool) (w : Words) (current : Option ℤ) (value : ℤ) (o : Observation)
    (a : Assessment)
    → (observe_field conflicts w current value o a).0
      ≡ accepts conflicts current value a.confidence o.confidence
unfolding observe_field
observe_field-accepts conflicts w none value o a = refl
observe_field-accepts conflicts w (some c) value o a = ground (arith, rank_of_medium)

-- The entry of the evidence for an observation.
abbrev pub entry_of : ℤ → Observation → Text → Bool → Evidence
entry_of value o reason accepted = record {
  value = itoa value;
  source = o.source;
  url = o.source_url;
  confidence = o.confidence;
  accepted = accepted;
  reason = reason;
}

-- What an observation of a field did, with its outcome and the field's value before and after.
pub record IsObserved (field : Text) (value : ℤ) (o : Observation) (reason : Text)
    (expected accepted : Bool) (before after : Option ℤ) (r s : HealthResult) : Type 0 where
  pub decided : accepted ≡ expected
  pub value_after : after ≡ (if accepted then some value else before)
  pub recorded :
      (assessment_of field s).evidence
      ≡ (assessment_of field r).evidence ++ entry_of value o reason accepted ∷ []

module _ (r : HealthResult) (o : Observation) where
  evidence-observe_field :
      (conflicts : ℤ → ℤ → Bool) (w : Words) (current : Option ℤ) (value : ℤ) (a : Assessment)
      → (observe_field conflicts w current value o a).1.evidence ≡ a.evidence
  unfolding observe_field accept
  evidence-observe_field conflicts w none value a = ground arith
  evidence-observe_field conflicts w (some c) value a = ground arith

  assessment_of-put :
      (k : Text) (a : Assessment) (s : HealthResult) → assessment_of k (write_field k a s) ≡ a
  unfolding assessment_of
  assessment_of-put k a s = rw (get-put k k a s.field_assessments, eq_refl k) refl

  evidence-with_evidence :
      (value : ℤ) (taken : Bool) (reason : Text) (a : Assessment)
      → (with_evidence value o taken reason a).evidence
        ≡ a.evidence ++ entry_of value o reason taken ∷ []
  unfolding with_evidence
  evidence-with_evidence value taken reason a = refl

  evidence-observed :
      (conflicts : ℤ → ℤ → Bool) (w : Words) (current : Option ℤ) (value : ℤ) (a : Assessment)
      → let (taken, after) = observe_field conflicts w current value o a in
        (with_evidence value o taken o.reason after).evidence
        ≡ a.evidence ++ entry_of value o o.reason taken ∷ []
  evidence-observed conflicts w current value a =
      evidence-with_evidence value _ o.reason (observe_field conflicts w current value o a).1
      ∙ ap
          (λ es.
            es ++ entry_of value o o.reason (observe_field conflicts w current value o a).0 ∷ [])
          (evidence-observe_field conflicts w current value a)

  -- An observed founding year is accepted exactly if there is none yet, or its confidence is higher
  -- and, where the years are more than two apart, at least medium; then it replaces the old one, and
  -- in any case the evidence gets one more entry at its end, with the year, the source, its URL, the
  -- confidence and the reason of the observation, and whether it was accepted.
  pub observe_founded_year-IsObserved :
      (this_year year : ℤ)
      → IsObserved founded_field year o o.reason
          (accepts founded_year_conflicts r.founded_year year
            (assessment_of founded_field r).confidence
            o.confidence)
          (observe_founded_year this_year year o r).0
          r.founded_year
          (observe_founded_year this_year year o r).1.founded_year
          r
          (observe_founded_year this_year year o r).1
  unfolding observe_founded_year
  observe_founded_year-IsObserved this_year year =
      let a = assessment_of founded_field r in
      record {
        decided =
            observe_field-accepts founded_year_conflicts founded_words r.founded_year year o a;
        value_after = ground arith;
        recorded =
            rw (assessment_of-put founded_field _ _)
              (evidence-observed founded_year_conflicts founded_words r.founded_year year a);
      }

  -- An observed number of employees is accepted exactly if it is plausible and there is none yet, or
  -- its confidence is higher and, where the numbers conflict, at least medium; then it replaces the
  -- old one, and in any case the evidence gets one more entry at its end, with what was observed, whether
  -- it was accepted, and the reason, which says so if the number was not plausible.
  pub observe_employee_count-IsObserved :
      (count : ℤ)
      → IsObserved employees_field count o
          (if plausible_employee_count count
            then o.reason
            else codes "ignored implausibly low employee-count estimate")
          (plausible_employee_count count
            && accepts employee_count_conflicts r.estimated_employees count
                (assessment_of employees_field r).confidence
                o.confidence)
          (observe_employee_count count o r).0
          r.estimated_employees
          (observe_employee_count count o r).1.estimated_employees
          r
          (observe_employee_count count o r).1
  unfolding observe_employee_count
  observe_employee_count-IsObserved count =
      let a = assessment_of employees_field r in
      elim (Bool-cases (plausible_employee_count count)) [
        | inl p ↦ rw p (record {
          decided =
              observe_field-accepts employee_count_conflicts employee_words r.estimated_employees
                count o a;
          value_after = ground arith;
          recorded = rw (assessment_of-put employees_field _ _) (
              evidence-observed employee_count_conflicts employee_words r.estimated_employees count
                a);
        })
        | inr low ↦ rw low (record {
          decided = refl;
          value_after = refl;
          recorded =
              rw (assessment_of-put employees_field _ _) (evidence-with_evidence count false _ a);
        })
      ]
