-- ===== src/Domain/Health/Facts/Backed.antt =====
-- What an accepted value rests on: the evidence of an assessment.
use jobscout.Prelude.{
  ◌≡◌, ◌≤◌, refl, sym, ◌∙◌, Bool, true, false, List, [], ◌∷◌, ◌++◌, Option, none, some, arith,
  is_some, All, All-append, In, inl, inr, if◌then◌else◌,
}
use jobscout.Prelude.Int.{ℤ}
use jobscout.Text.{Text}
use jobscout.Text.Dict.{text_Eq}
use jobscout.Text.Number.{itoa}
use jobscout.Domain.Health.Facts.{Words, accept, observe_field, with_evidence}
use jobscout.Domain.Health.Fields.{Evidence, Assessment, Observation, confidence_rank}

-- An entry of the evidence that was accepted, with the confidence and the source that the assessment
-- states.
pub record Supports (v : ℤ) (a : Assessment) (e : Evidence) : Type 0 where
  pub taken : e.accepted ≡ true
  pub value : e.value ≡ itoa v
  pub confidence : e.confidence ≡ a.confidence
  pub source : e.source ≡ a.source
  pub url : e.url ≡ a.url

-- A value has an entry that supports it, and without a value no entry was accepted.
abbrev pub IsBacked : Option ℤ → Assessment → Type 0
IsBacked none a = All (λ e. e.accepted ≡ false) a.evidence
IsBacked (some v) a = (e : Evidence) × In e a.evidence × Supports v a e

-- No entry that was accepted is of a higher rank than the assessment.
abbrev pub IsDominated : Assessment → Type 0
IsDominated a =
    All (λ e. e.accepted ≡ true → confidence_rank e.confidence ≤ confidence_rank a.confidence)
      a.evidence

pub record IsSound (value : Option ℤ) (a : Assessment) : Type 0 where
  pub backed : IsBacked value a
  pub dominated : IsDominated a

-- What an observation does to the parts of an assessment that soundness reads.
record Outcome (current : Option ℤ) (o : Observation) (a : Assessment) (taken : Bool)
    (b : Assessment) : Type 0 where
  kept : b.evidence ≡ a.evidence
  refused :
      taken ≡ false
      → (is_some current ≡ true)
        × (b.confidence ≡ a.confidence)
        × (b.source ≡ a.source)
        × (b.url ≡ a.url)
  stated :
      taken ≡ true → (b.confidence ≡ o.confidence) × (b.source ≡ o.source) × (b.url ≡ o.source_url)
  raised :
      taken ≡ true
      → is_some current ≡ true
      → confidence_rank a.confidence ≤ confidence_rank o.confidence

observe_field-Outcome :
    (conflicts : ℤ → ℤ → Bool) (w : Words) (current : Option ℤ) (value : ℤ) (o : Observation)
    (a : Assessment)
    → Outcome current o a
        (observe_field conflicts w current value o a).0
        (observe_field conflicts w current value o a).1
unfolding observe_field accept
observe_field-Outcome conflicts w none value o a = record {
  kept = ground arith;
  refused = λ h. absurd (ground arith);
  stated = λ h. ground arith;
  raised = λ h k. absurd (ground arith);
}
observe_field-Outcome conflicts w (some c) value o a = record {
  kept = ground arith;
  refused = λ h. ground arith;
  stated = λ h. ground arith;
  raised = λ h k. ground arith;
}

In-concat : (es : List Evidence) (e : Evidence) → In e (es ++ e ∷ [])
In-concat [] e = inl refl
In-concat (x ∷ es) e = inr (In-concat es e)

In-append_left : (es fs : List Evidence) (e : Evidence) → In e es → In e (es ++ fs)
In-append_left [] fs e h = absurd h
In-append_left (x ∷ es) fs e (inl h) = inl h
In-append_left (x ∷ es) fs e (inr h) = inr (In-append_left es fs e h)

abbrev Dominates : Text → Evidence → Type 0
Dominates c e = e.accepted ≡ true → confidence_rank e.confidence ≤ confidence_rank c

-- Without an accepted entry, or below a rank that is raised, every entry is dominated.
Dominates-of_none :
    (c : Text) (es : List Evidence) → All (λ e. e.accepted ≡ false) es → All (Dominates c) es
Dominates-of_none c [] h = tt
Dominates-of_none c (e ∷ es) (p, h) = ((λ k. absurd (ground arith)), Dominates-of_none c es h)

Dominates-raise :
    (c d : Text) (es : List Evidence)
    → confidence_rank c ≤ confidence_rank d
    → All (Dominates c) es
    → All (Dominates d) es
Dominates-raise c d [] le h = tt
Dominates-raise c d (e ∷ es) le (p, h) =
    ((λ k. omega (arith, p k, le)), Dominates-raise c d es le h)

module _ (value : ℤ) (o : Observation) (reason : Text) where
  abbrev entry : Bool → Evidence
  entry taken = record {
    value = itoa value;
    source = o.source;
    url = o.source_url;
    confidence = o.confidence;
    accepted = taken;
    reason = reason;
  }

  pub IsSound-refused :
      (current : Option ℤ) (a : Assessment)
      → IsSound current a
      → IsSound current (with_evidence value o false reason a)
  unfolding with_evidence
  IsSound-refused none a h = record {
    backed = All-append (λ e. e.accepted ≡ false) a.evidence _ h.backed (refl, tt);
    dominated =
        All-append (Dominates a.confidence) a.evidence _ h.dominated
          ((λ k. absurd (ground arith)), tt);
  }
  IsSound-refused (some c) a h = record {
    backed = (
      h.backed.0,
      In-append_left a.evidence _ h.backed.0 h.backed.1,
      record {
        taken = h.backed.2.taken;
        value = h.backed.2.value;
        confidence = h.backed.2.confidence;
        source = h.backed.2.source;
        url = h.backed.2.url;
      },
    );
    dominated =
        All-append (Dominates a.confidence) a.evidence _ h.dominated
          ((λ k. absurd (ground arith)), tt);
  }

  -- the entries before an observation that is accepted
  below :
      (current : Option ℤ) (a b : Assessment)
      → Outcome current o a true b
      → IsSound current a
      → All (Dominates o.confidence) a.evidence
  below none a b out h = Dominates-of_none o.confidence a.evidence h.backed
  below (some c) a b out h =
      Dominates-raise a.confidence o.confidence a.evidence (out.raised refl refl) h.dominated

  IsSound-accepted :
      (current : Option ℤ) (a b : Assessment)
      → Outcome current o a true b
      → IsSound current a
      → IsSound (some value) (with_evidence value o true reason b)
  unfolding with_evidence
  IsSound-accepted current a b out h =
      let (same_confidence, same_source, same_url) = out.stated refl in
      record {
        backed = (
          entry true,
          In-concat b.evidence (entry true),
          record {
            taken = refl;
            value = refl;
            confidence = sym same_confidence;
            source = sym same_source;
            url = sym same_url;
          },
        );
        dominated =
            rw (out.kept, same_confidence)
              (All-append (Dominates o.confidence) a.evidence _ (below current a b out h)
                ((λ k. omega arith), tt));
      }

-- Soundness does not read the status and the notes.
pub IsSound-same :
    (value : Option ℤ) (a b : Assessment)
    → b.evidence ≡ a.evidence
    → b.confidence ≡ a.confidence
    → b.source ≡ a.source
    → b.url ≡ a.url
    → IsSound value a
    → IsSound value b
IsSound-same none a b e c s u h = record {
  backed = rw e h.backed;
  dominated = rw (e, c) h.dominated;
}
IsSound-same (some v) a b e c s u h = record {
  backed = (
    h.backed.0,
    rw e h.backed.1,
    record {
      taken = h.backed.2.taken;
      value = h.backed.2.value;
      confidence = h.backed.2.confidence ∙ sym c;
      source = h.backed.2.source ∙ sym s;
      url = h.backed.2.url ∙ sym u;
    },
  );
  dominated = rw (e, c) h.dominated;
}

pub observe_field-IsSound :
    (conflicts : ℤ → ℤ → Bool) (w : Words) (current : Option ℤ) (value : ℤ) (o : Observation)
    (a : Assessment)
    → IsSound current a
    → IsSound (if (observe_field conflicts w current value o a).0 then some value else current) (
        with_evidence value o
          (observe_field conflicts w current value o a).0
          o.reason
          (observe_field conflicts w current value o a).1)
observe_field-IsSound conflicts w current value o a h =
    go (observe_field conflicts w current value o a).0
      (observe_field conflicts w current value o a).1
      (observe_field-Outcome conflicts w current value o a)
  where
    go :
        (taken : Bool) (b : Assessment)
        → Outcome current o a taken b
        → IsSound (if taken then some value else current) (with_evidence value o taken o.reason b)
    go true b out = IsSound-accepted value o o.reason current a b out h
    go false b out =
        let (_, c, s, u) = out.refused refl in
        IsSound-refused value o o.reason current b (IsSound-same current a b out.kept c s u h)
