-- ===== src/Domain/Metadata/Normal.antt =====
-- Normal metadata: normalising or cloning what was normalised or merged changes nothing.
use jobscout.Prelude.{◌≡◌, refl, Option, none, some, arith, Bool-cases, inl, inr}
use jobscout.Prelude.Int.{ℤ}
use jobscout.Text.{Text, to_upper, trim_space}
use jobscout.Text.Trim.{trim_space_idem}
use jobscout.Text.Case.{to_upper_idem, trim_space-to_upper}
use jobscout.Domain.Job.{JobMetadata, JobSourceMetadata, CompanyMetadata}
use jobscout.Domain.Unique.Laws.{compact_unique_idem}
use jobscout.Domain.Metadata.{
  tidy_source, source_is_empty, normalize_source, keep_plausible, tidy_company, company_is_empty,
  normalize_company, with_parts, normalize_metadata, clone_metadata, merge_metadata,
}

ruleset tidy_laws = (trim_space_idem, compact_unique_idem)

tidy_source_idem : (m : JobSourceMetadata) → tidy_source (tidy_source m) ≡ tidy_source m
unfolding tidy_source
tidy_source_idem m = simp tidy_laws

keep_plausible_idem : (n : Option ℤ) → keep_plausible (keep_plausible n) ≡ keep_plausible n
unfolding keep_plausible
keep_plausible_idem n = ground arith

ticker_idem : (s : Text) → to_upper (trim_space (to_upper (trim_space s))) ≡ to_upper (trim_space s)
ticker_idem s = simp (trim_space-to_upper, trim_space_idem, to_upper_idem)

tidy_company_idem : (m : CompanyMetadata) → tidy_company (tidy_company m) ≡ tidy_company m
unfolding tidy_company
tidy_company_idem m = simp (tidy_laws, keep_plausible_idem, ticker_idem)

normalize_source_idem :
    (m : Option JobSourceMetadata) → normalize_source (normalize_source m) ≡ normalize_source m
unfolding normalize_source
normalize_source_idem none = refl
normalize_source_idem (some m) = elim (Bool-cases (source_is_empty (tidy_source m))) [
  | inl e ↦ rw e refl
  | inr e ↦ rw e (rw (tidy_source_idem m) (rw e refl))
]

normalize_company_idem :
    (m : Option CompanyMetadata) → normalize_company (normalize_company m) ≡ normalize_company m
unfolding normalize_company
normalize_company_idem none = refl
normalize_company_idem (some m) = elim (Bool-cases (company_is_empty (tidy_company m))) [
  | inl e ↦ rw e refl
  | inr e ↦ rw e (rw (tidy_company_idem m) (rw e refl))
]

normalize_source-none : normalize_source none ≡ none
unfolding normalize_source
normalize_source-none = refl

-- `with_parts` of parts that normalising leaves alone is left alone.
normalize-with_parts :
    (s : Option JobSourceMetadata) (c : Option CompanyMetadata)
    → normalize_source s ≡ s
    → normalize_company c ≡ c
    → normalize_metadata (with_parts s c) ≡ with_parts s c
unfolding normalize_metadata
normalize-with_parts none none hs hc = refl
normalize-with_parts none (some c) hs hc = cc (hc, normalize_source-none)
normalize-with_parts (some s) c hs hc = cc (hs, hc)

-- Normalising metadata twice is normalising it once.
pub normalize_metadata_idem :
    (m : Option JobMetadata) → normalize_metadata (normalize_metadata m) ≡ normalize_metadata m
unfolding normalize_metadata
normalize_metadata_idem none = refl
normalize_metadata_idem (some m) =
    normalize-with_parts _ _ (normalize_source_idem m.source) (normalize_company_idem m.company)

clone-eq-normalize : (m : Option JobMetadata) → clone_metadata m ≡ normalize_metadata m
unfolding clone_metadata normalize_metadata
clone-eq-normalize none = refl
clone-eq-normalize (some m) = refl

-- What a store does on the way in and out: the clone of normalised metadata, normalised again, is
-- the normalised metadata.
pub normalize-clone-normalize_metadata :
    (m : Option JobMetadata)
    → normalize_metadata (clone_metadata (normalize_metadata m)) ≡ normalize_metadata m
normalize-clone-normalize_metadata m = simp (clone-eq-normalize, normalize_metadata_idem)

-- Metadata that was merged is normal.
pub normalize-merge_metadata :
    (existing : Option JobMetadata) (incoming : JobMetadata)
    → normalize_metadata (merge_metadata existing (some incoming))
      ≡ merge_metadata existing (some incoming)
unfolding merge_metadata
normalize-merge_metadata existing incoming = normalize_metadata_idem _
