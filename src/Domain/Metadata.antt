-- ===== src/Domain/Metadata.antt =====
-- internal/domain/job_metadata.go: normalising, cloning and merging the metadata of a job.
pub mod Ensured
pub mod Merged
pub mod Normal
use jobscout.Prelude.{
  ◌≡◌, Bool, true, false, not, ◌&&◌, ◌||◌, Option, none, some, List, [], ◌∷◌, ◌++◌, is_empty,
  is_some, if◌then◌else◌,
}
use jobscout.Prelude.Int.{ℤ, pos, leb_ℤ}
use jobscout.Text.{Text, to_upper, trim_space}
use jobscout.Domain.Job.{
  Job, JobMetadata, JobSourceMetadata, CompanyMetadata, zero_metadata, zero_source, zero_company,
  is_blank,
}
use jobscout.Domain.Unique.{append_unique, compact_unique}

-- plausibleEmployeeCount of company_health_facts.go
unfoldable pub plausible_employee_count : ℤ → Bool
plausible_employee_count count = leb_ℤ (pos 2) count

-- the assignments of NormalizeJobSourceMetadata
unfoldable pub tidy_source : JobSourceMetadata → JobSourceMetadata
tidy_source m = record {
  posting_url = trim_space m.posting_url;
  external_apply_url = trim_space m.external_apply_url;
  company_profile_url = trim_space m.company_profile_url;
  posted_label = trim_space m.posted_label;
  date_posted = trim_space m.date_posted;
  valid_through = trim_space m.valid_through;
  employment_types = compact_unique m.employment_types;
  locations = compact_unique m.locations;
  industries = compact_unique m.industries;
  skills = compact_unique m.skills;
}

-- the test at the end of NormalizeJobSourceMetadata
unfoldable pub source_is_empty : JobSourceMetadata → Bool
source_is_empty m =
    is_empty m.posting_url
    && is_empty m.external_apply_url
    && is_empty m.company_profile_url
    && is_empty m.posted_label
    && is_empty m.date_posted
    && is_empty m.valid_through
    && is_empty m.employment_types
    && is_empty m.locations
    && is_empty m.industries
    && is_empty m.skills

unfoldable pub normalize_source : Option JobSourceMetadata → Option JobSourceMetadata
normalize_source none = none
normalize_source (some m) =
    let tidy = tidy_source m in if source_is_empty tidy then none else some tidy

-- an implausible count is dropped
unfoldable pub keep_plausible : Option ℤ → Option ℤ
unfolding plausible_employee_count
keep_plausible none = none
keep_plausible (some n) = if plausible_employee_count n then some n else none

unfoldable pub tidy_company : CompanyMetadata → CompanyMetadata
tidy_company m = record {
  industries = compact_unique m.industries;
  employee_range = trim_space m.employee_range;
  estimated_employees = keep_plausible m.estimated_employees;
  founded_year = m.founded_year;
  headquarters = trim_space m.headquarters;
  revenue = trim_space m.revenue;
  ticker = to_upper (trim_space m.ticker);
  exchange = to_upper (trim_space m.exchange);
  is_public = m.is_public;
}

unfoldable pub company_is_empty : CompanyMetadata → Bool
company_is_empty m =
    is_empty m.industries
    && is_empty m.employee_range
    && not (is_some m.estimated_employees)
    && not (is_some m.founded_year)
    && is_empty m.headquarters
    && is_empty m.revenue
    && is_empty m.ticker
    && is_empty m.exchange
    && not (is_some m.is_public)

unfoldable pub normalize_company : Option CompanyMetadata → Option CompanyMetadata
normalize_company none = none
normalize_company (some m) =
    let tidy = tidy_company m in if company_is_empty tidy then none else some tidy

-- `nil` when both parts are
unfoldable pub with_parts : Option JobSourceMetadata → Option CompanyMetadata → Option JobMetadata
with_parts none none = none
with_parts (some s) c = some (record { source = some s; company = c })
with_parts none (some c) = some (record { source = none; company = some c })

unfoldable pub normalize_metadata : Option JobMetadata → Option JobMetadata
unfolding with_parts
normalize_metadata none = none
normalize_metadata (some m) = with_parts (normalize_source m.source) (normalize_company m.company)

-- The copies of CloneJobMetadata; as values the parts are those of the original.
unfoldable pub clone_metadata : Option JobMetadata → Option JobMetadata
clone_metadata none = none
clone_metadata (some m) =
    normalize_metadata (some (record { source = m.source; company = m.company }))

-- EnsureSourceMetadata and EnsureCompanyMetadata give the part, made empty where it was missing.
unfoldable pub ensure_metadata : Option JobMetadata → JobMetadata
ensure_metadata none = zero_metadata
ensure_metadata (some m) = m

abbrev pub or_zero_source : Option JobSourceMetadata → JobSourceMetadata
or_zero_source none = zero_source
or_zero_source (some s) = s

abbrev pub or_zero_company : Option CompanyMetadata → CompanyMetadata
or_zero_company none = zero_company
or_zero_company (some c) = c

unfoldable pub ensure_source : Option JobMetadata → JobSourceMetadata
unfolding ensure_metadata
ensure_source m = or_zero_source (ensure_metadata m).source

unfoldable pub ensure_company : Option JobMetadata → CompanyMetadata
unfolding ensure_metadata
ensure_company m = or_zero_company (ensure_metadata m).company

-- mergeStringField: only a blank target is written
unfoldable pub merge_string : Text → Text → Text
merge_string target value = if is_blank target then trim_space value else target

-- `if target == nil && value != nil`
unfoldable pub merge_pointer : {A : Type 0} → Option A → Option A → Option A
merge_pointer none value = value
merge_pointer (some a) value = some a

unfoldable pub merge_source : JobSourceMetadata → JobSourceMetadata → JobSourceMetadata
merge_source target source = record {
  posting_url = merge_string target.posting_url source.posting_url;
  external_apply_url = merge_string target.external_apply_url source.external_apply_url;
  company_profile_url = merge_string target.company_profile_url source.company_profile_url;
  posted_label = merge_string target.posted_label source.posted_label;
  date_posted = merge_string target.date_posted source.date_posted;
  valid_through = merge_string target.valid_through source.valid_through;
  employment_types = append_unique target.employment_types source.employment_types;
  locations = append_unique target.locations source.locations;
  industries = append_unique target.industries source.industries;
  skills = append_unique target.skills source.skills;
}

unfoldable pub merge_company : CompanyMetadata → CompanyMetadata → CompanyMetadata
merge_company target company = record {
  industries = append_unique target.industries company.industries;
  employee_range = merge_string target.employee_range company.employee_range;
  estimated_employees = merge_pointer target.estimated_employees company.estimated_employees;
  founded_year = merge_pointer target.founded_year company.founded_year;
  headquarters = merge_string target.headquarters company.headquarters;
  revenue = merge_string target.revenue company.revenue;
  ticker = merge_string target.ticker company.ticker;
  exchange = merge_string target.exchange company.exchange;
  is_public = merge_pointer target.is_public company.is_public;
}

-- the two blocks of MergeJobMetadataFields, each on the metadata that it finds
unfoldable pub merge_source_block :
    Option JobMetadata → Option JobSourceMetadata → Option JobMetadata
unfolding ensure_metadata ensure_source merge_source
merge_source_block existing none = existing
merge_source_block existing (some source) = some (record {
  source = some (merge_source (ensure_source existing) source);
  company = (ensure_metadata existing).company;
})

unfoldable pub merge_company_block :
    Option JobMetadata → Option CompanyMetadata → Option JobMetadata
unfolding ensure_metadata ensure_company merge_company
merge_company_block existing none = existing
merge_company_block existing (some company) = some (record {
  source = (ensure_metadata existing).source;
  company = some (merge_company (ensure_company existing) company);
})

unfoldable pub merge_metadata : Option JobMetadata → Option JobMetadata → Option JobMetadata
unfolding merge_source_block merge_company_block
merge_metadata existing none = existing
merge_metadata existing (some incoming) =
    normalize_metadata
      (merge_company_block (merge_source_block existing incoming.source) incoming.company)
