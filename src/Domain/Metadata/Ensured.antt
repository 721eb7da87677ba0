-- ===== src/Domain/Metadata/Ensured.antt =====
-- The parts of metadata that a merge and a normalisation leave, with an empty part for a missing one.
use jobscout.Prelude.{
  ◌≡◌, refl, sym, ◌∙◌, true, Option, none, some, [], arith, Bool-cases, inl, inr,
}
use jobscout.Text.{to_upper}
use jobscout.Text.Trim.{trim_space-nil}
use jobscout.Domain.Job.{JobMetadata, JobSourceMetadata, CompanyMetadata, zero_source, zero_company}
use jobscout.Domain.Unique.Laws.{compact_unique_of_Fresh}
use jobscout.Domain.Metadata.{
  tidy_source, source_is_empty, normalize_source, keep_plausible, tidy_company, company_is_empty,
  normalize_company, with_parts, normalize_metadata, or_zero_source, or_zero_company, ensure_source,
  ensure_company, merge_source, merge_company, merge_metadata, merge_source_block,
  merge_company_block,
}

source_is_empty→zero : (m : JobSourceMetadata) → source_is_empty m ≡ true → m ≡ zero_source
unfolding source_is_empty
source_is_empty→zero m h = ground arith

company_is_empty→zero : (m : CompanyMetadata) → company_is_empty m ≡ true → m ≡ zero_company
unfolding company_is_empty
company_is_empty→zero m h = ground arith

tidy_zero_source : tidy_source zero_source ≡ zero_source
unfolding tidy_source
tidy_zero_source = simp (trim_space-nil, compact_unique_of_Fresh [] tt)

or_zero-normalize_source :
    (s : Option JobSourceMetadata)
    → or_zero_source (normalize_source s) ≡ tidy_source (or_zero_source s)
unfolding normalize_source
or_zero-normalize_source none = sym tidy_zero_source
or_zero-normalize_source (some s) = elim (Bool-cases (source_is_empty (tidy_source s))) [
  | inl e ↦ rw e (sym (source_is_empty→zero (tidy_source s) e))
  | inr e ↦ rw e
]

tidy_zero_company : tidy_company zero_company ≡ zero_company
unfolding tidy_company keep_plausible to_upper
tidy_zero_company = simp (trim_space-nil, compact_unique_of_Fresh [] tt)

or_zero-normalize_company :
    (c : Option CompanyMetadata)
    → or_zero_company (normalize_company c) ≡ tidy_company (or_zero_company c)
unfolding normalize_company
or_zero-normalize_company none = sym tidy_zero_company
or_zero-normalize_company (some c) = elim (Bool-cases (company_is_empty (tidy_company c))) [
  | inl e ↦ rw e (sym (company_is_empty→zero (tidy_company c) e))
  | inr e ↦ rw e
]

ensure_source-with_parts :
    (s : Option JobSourceMetadata) (c : Option CompanyMetadata)
    → ensure_source (with_parts s c) ≡ or_zero_source s
unfolding ensure_source with_parts
ensure_source-with_parts none none = refl
ensure_source-with_parts none (some c) = refl
ensure_source-with_parts (some s) c = refl

ensure_company-with_parts :
    (s : Option JobSourceMetadata) (c : Option CompanyMetadata)
    → ensure_company (with_parts s c) ≡ or_zero_company c
unfolding ensure_company with_parts
ensure_company-with_parts none none = refl
ensure_company-with_parts none (some c) = refl
ensure_company-with_parts (some s) none = refl
ensure_company-with_parts (some s) (some c) = refl

ensure_source-normalize :
    (m : Option JobMetadata) → ensure_source (normalize_metadata m) ≡ tidy_source (ensure_source m)
unfolding normalize_metadata ensure_source
ensure_source-normalize none = sym tidy_zero_source
ensure_source-normalize (some m) =
    ensure_source-with_parts (normalize_source m.source) (normalize_company m.company)
    ∙ or_zero-normalize_source m.source

ensure_company-normalize :
    (m : Option JobMetadata)
    → ensure_company (normalize_metadata m) ≡ tidy_company (ensure_company m)
unfolding normalize_metadata ensure_company
ensure_company-normalize none = sym tidy_zero_company
ensure_company-normalize (some m) =
    ensure_company-with_parts (normalize_source m.source) (normalize_company m.company)
    ∙ or_zero-normalize_company m.company

-- A part after its block; a block changes only its own part.
unfoldable pub merged_source : JobSourceMetadata → Option JobSourceMetadata → JobSourceMetadata
merged_source target none = target
merged_source target (some s) = merge_source target s

unfoldable pub merged_company : CompanyMetadata → Option CompanyMetadata → CompanyMetadata
merged_company target none = target
merged_company target (some c) = merge_company target c

module _ (e : Option JobMetadata) where
  source_block :
      (s : Option JobSourceMetadata)
      → ensure_source (merge_source_block e s) ≡ merged_source (ensure_source e) s
  unfolding merged_source merge_source_block ensure_source
  source_block none = refl
  source_block (some s) = refl

  company_block :
      (c : Option CompanyMetadata)
      → ensure_company (merge_company_block e c) ≡ merged_company (ensure_company e) c
  unfolding merged_company merge_company_block ensure_company
  company_block none = refl
  company_block (some s) = refl

  source-company_block :
      (c : Option CompanyMetadata) → ensure_source (merge_company_block e c) ≡ ensure_source e
  unfolding merge_company_block ensure_source
  source-company_block none = refl
  source-company_block (some c) = refl

  company-source_block :
      (s : Option JobSourceMetadata) → ensure_company (merge_source_block e s) ≡ ensure_company e
  unfolding merge_source_block ensure_company
  company-source_block none = refl
  company-source_block (some s) = refl

pub ensure_source-merge :
    (e : Option JobMetadata) (i : JobMetadata)
    → ensure_source (merge_metadata e (some i))
      ≡ tidy_source (merged_source (ensure_source e) i.source)
unfolding merge_metadata
ensure_source-merge e i = simp (ensure_source-normalize, source-company_block, source_block)

pub ensure_company-merge :
    (e : Option JobMetadata) (i : JobMetadata)
    → ensure_company (merge_metadata e (some i))
      ≡ tidy_company (merged_company (ensure_company e) i.company)
unfolding merge_metadata
ensure_company-merge e i = simp (ensure_company-normalize, company_block, company-source_block)
