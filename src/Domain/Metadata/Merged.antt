-- ===== src/Domain/Metadata/Merged.antt =====
-- What merging two jobs' metadata keeps and what it fills in, field by field.
use jobscout.Prelude.{
  ◌≡◌, refl, ap, true, false, Option, none, some, List, [], ◌++◌, Bool-cases, inl, inr,
  if◌then◌else◌, In,
}
use jobscout.Text.{Text, to_upper, trim_space}
use jobscout.Text.Trim.{trim_space_idem}
use jobscout.Domain.Job.{JobMetadata, JobSourceMetadata, CompanyMetadata, is_blank}
use jobscout.Domain.Unique.{append_unique, compact_unique}
use jobscout.Domain.Unique.Laws.{
  Fresh, listed, append_unique-Fresh, append_unique-covers, compact-append_unique,
}
use jobscout.Domain.Metadata.{
  tidy_source, keep_plausible, tidy_company, ensure_source, ensure_company, merge_string,
  merge_pointer, merge_source, merge_company, merge_metadata,
}
use jobscout.Domain.Metadata.Ensured.{
  ensure_company-merge, ensure_source-merge, merged_company, merged_source,
}

-- A text field after a merge: the old one if it is not blank, and the new one if it is; trimmed.
abbrev pub FilledBy : Text → Text → Text → Type 0
FilledBy old new result = result ≡ trim_space (if is_blank old then new else old)

-- A list after a merge: the texts of both lists that are not blank, up to case, each only once.
pub record UnionOf (old new result : List Text) : Type 0 where
  pub fresh : Fresh [] result
  pub covers :
      (v : Text) → In v (old ++ new) → is_blank v ≡ false → listed (trim_space v) result ≡ true

pub record SourceMerged (old new result : JobSourceMetadata) : Type 0 where
  pub posting_url : FilledBy old.posting_url new.posting_url result.posting_url
  pub external_apply_url :
      FilledBy old.external_apply_url new.external_apply_url result.external_apply_url
  pub company_profile_url :
      FilledBy old.company_profile_url new.company_profile_url result.company_profile_url
  pub posted_label : FilledBy old.posted_label new.posted_label result.posted_label
  pub date_posted : FilledBy old.date_posted new.date_posted result.date_posted
  pub valid_through : FilledBy old.valid_through new.valid_through result.valid_through
  pub employment_types : UnionOf old.employment_types new.employment_types result.employment_types
  pub locations : UnionOf old.locations new.locations result.locations
  pub industries : UnionOf old.industries new.industries result.industries
  pub skills : UnionOf old.skills new.skills result.skills

FilledBy-merge_string : (old new : Text) → FilledBy old new (trim_space (merge_string old new))
unfolding merge_string
FilledBy-merge_string old new = elim (Bool-cases (is_blank old)) [
  | inl e ↦ rw e (trim_space_idem new)
  | inr e ↦ rw e refl
]

UnionOf-append_unique :
    (old new : List Text) → UnionOf old new (compact_unique (append_unique old new))
UnionOf-append_unique old new =
    rw (compact-append_unique old new)
      (record { fresh = append_unique-Fresh old new; covers = append_unique-covers old new })

tidy-merge_source : (o n : JobSourceMetadata) → SourceMerged o n (tidy_source (merge_source o n))
unfolding tidy_source merge_source
tidy-merge_source o n = record {
  posting_url = FilledBy-merge_string o.posting_url n.posting_url;
  external_apply_url = FilledBy-merge_string o.external_apply_url n.external_apply_url;
  company_profile_url = FilledBy-merge_string o.company_profile_url n.company_profile_url;
  posted_label = FilledBy-merge_string o.posted_label n.posted_label;
  date_posted = FilledBy-merge_string o.date_posted n.date_posted;
  valid_through = FilledBy-merge_string o.valid_through n.valid_through;
  employment_types = UnionOf-append_unique o.employment_types n.employment_types;
  locations = UnionOf-append_unique o.locations n.locations;
  industries = UnionOf-append_unique o.industries n.industries;
  skills = UnionOf-append_unique o.skills n.skills;
}

-- Merging metadata keeps every text field of the existing source part that is not blank, fills the
-- others from the incoming one, and joins the lists without losing or repeating a text. A part
-- that is missing counts as one with no content.
pub merge_metadata-SourceMerged :
    (existing : Option JobMetadata) (incoming : JobMetadata) (s : JobSourceMetadata)
    → incoming.source ≡ some s
    → SourceMerged
        (ensure_source existing)
        s
        (ensure_source (merge_metadata existing (some incoming)))
merge_metadata-SourceMerged existing incoming s h =
    rw (ensure_source-merge, h)
      (unfold merged_source in tidy-merge_source (ensure_source existing) s)

-- A number or truth value after a merge: the old one if there is one, else the new one.
abbrev pub first : {A : Type 0} → Option A → Option A → Option A
first none new = new
first (some a) new = some a

abbrev pub UpperFilledBy : Text → Text → Text → Type 0
UpperFilledBy old new result = result ≡ to_upper (trim_space (if is_blank old then new else old))

pub record CompanyMerged (old new result : CompanyMetadata) : Type 0 where
  pub industries : UnionOf old.industries new.industries result.industries
  pub employee_range : FilledBy old.employee_range new.employee_range result.employee_range
  -- a count below two, of either side, does not survive
  pub estimated_employees :
      result.estimated_employees
      ≡ keep_plausible (first old.estimated_employees new.estimated_employees)
  pub founded_year : result.founded_year ≡ first old.founded_year new.founded_year
  pub headquarters : FilledBy old.headquarters new.headquarters result.headquarters
  pub revenue : FilledBy old.revenue new.revenue result.revenue
  pub ticker : UpperFilledBy old.ticker new.ticker result.ticker
  pub exchange : UpperFilledBy old.exchange new.exchange result.exchange
  pub is_public : result.is_public ≡ first old.is_public new.is_public

merge_pointer-eq-first : {A : Type 0} (a b : Option A) → merge_pointer a b ≡ first a b
unfolding merge_pointer
merge_pointer-eq-first none b = refl
merge_pointer-eq-first (some a) b = refl

tidy-merge_company : (o n : CompanyMetadata) → CompanyMerged o n (tidy_company (merge_company o n))
unfolding tidy_company merge_company
tidy-merge_company o n = record {
  industries = UnionOf-append_unique o.industries n.industries;
  employee_range = FilledBy-merge_string o.employee_range n.employee_range;
  estimated_employees =
      ap keep_plausible (merge_pointer-eq-first o.estimated_employees n.estimated_employees);
  founded_year = merge_pointer-eq-first o.founded_year n.founded_year;
  headquarters = FilledBy-merge_string o.headquarters n.headquarters;
  revenue = FilledBy-merge_string o.revenue n.revenue;
  ticker = ap to_upper (FilledBy-merge_string o.ticker n.ticker);
  exchange = ap to_upper (FilledBy-merge_string o.exchange n.exchange);
  is_public = merge_pointer-eq-first o.is_public n.is_public;
}

-- The same of the company part, where ticker and exchange are put in upper case and an employee
-- count below two is dropped.
pub merge_metadata-CompanyMerged :
    (existing : Option JobMetadata) (incoming : JobMetadata) (c : CompanyMetadata)
    → incoming.company ≡ some c
    → CompanyMerged
        (ensure_company existing)
        c
        (ensure_company (merge_metadata existing (some incoming)))
merge_metadata-CompanyMerged existing incoming c h =
    rw (ensure_company-merge, h)
      (unfold merged_company in tidy-merge_company (ensure_company existing) c)
