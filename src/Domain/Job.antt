-- ===== src/Domain/Job.antt =====
-- internal/domain/job.go and the types of job_metadata.go: a job as it is stored and merged.
-- A pointer is an `Option`; two jobs share no memory in the model.
use jobscout.Prelude.{Bool, List, [], Option, none, ◌∷◌, is_empty, if◌then◌else◌}
use jobscout.Prelude.Int.{ℤ, pos}
use jobscout.Text.{Text, trim_space}

pub record JobIdentityEvidence : Type 0 where
  pub value : Text
  pub source : Text
  pub url : Text
  pub confidence : Text
  pub provisional : Bool
  pub reason : Text

pub record JobIdentityMetadata : Type 0 where
  pub website : Option JobIdentityEvidence
  pub summary : Option JobIdentityEvidence
  pub industry : Option JobIdentityEvidence

pub record JobSourceMetadata : Type 0 where
  pub posting_url : Text
  pub external_apply_url : Text
  pub company_profile_url : Text
  pub posted_label : Text
  pub date_posted : Text
  pub valid_through : Text
  pub employment_types : List Text
  pub locations : List Text
  pub industries : List Text
  pub skills : List Text

pub record CompanyMetadata : Type 0 where
  pub industries : List Text
  pub employee_range : Text
  pub estimated_employees : Option ℤ
  pub founded_year : Option ℤ
  pub headquarters : Text
  pub revenue : Text
  pub ticker : Text
  pub exchange : Text
  pub is_public : Option Bool

pub record JobMetadata : Type 0 where
  pub source : Option JobSourceMetadata
  pub company : Option CompanyMetadata

pub record Job : Type 0 where
  pub company : Text
  pub company_website : Text
  pub company_summary : Text
  pub company_industry : Text
  pub company_identity : Option JobIdentityMetadata
  pub metadata : Option JobMetadata
  pub title : Text
  pub remote : Text
  pub compensation : Text
  pub source : Text
  pub apply_url : Text
  pub why_matches : List Text
  pub status : Text
  pub date_added : ℤ
  pub date_discovered : Text
  pub description : Text

-- strings.TrimSpace(s) == ""
abbrev pub is_blank : Text → Bool
is_blank s = is_empty (trim_space s)

-- The values of Go's `Job{}`, `JobMetadata{}`, `JobSourceMetadata{}` and `CompanyMetadata{}`.
abbrev pub zero_job : Job
zero_job = record {
  company = [];
  company_website = [];
  company_summary = [];
  company_industry = [];
  company_identity = none;
  metadata = none;
  title = [];
  remote = [];
  compensation = [];
  source = [];
  apply_url = [];
  why_matches = [];
  status = [];
  date_added = pos 0;
  date_discovered = [];
  description = [];
}

abbrev pub zero_metadata : JobMetadata
zero_metadata = record { source = none; company = none }

abbrev pub zero_source : JobSourceMetadata
zero_source = record {
  posting_url = [];
  external_apply_url = [];
  company_profile_url = [];
  posted_label = [];
  date_posted = [];
  valid_through = [];
  employment_types = [];
  locations = [];
  industries = [];
  skills = [];
}

abbrev pub zero_company : CompanyMetadata
zero_company = record {
  industries = [];
  employee_range = [];
  estimated_employees = none;
  founded_year = none;
  headquarters = [];
  revenue = [];
  ticker = [];
  exchange = [];
  is_public = none;
}

-- firstNonEmpty: the first value that is not blank, untrimmed
unfoldable pub first_non_empty : List Text → Text
first_non_empty [] = []
first_non_empty (v ∷ vs) = if is_blank v then first_non_empty vs else v
