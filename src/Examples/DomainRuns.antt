-- ===== src/Examples/DomainRuns.antt =====
-- Merging jobs and metadata, the jobs to repair, and lists that are read.
use jobscout.Prelude.{
  ℕ, get_elem?, In, ◌≡◌, refl, true, false, List, [], ◌∷◌, ◌++◌, map, none, some, length,
}
use jobscout.Prelude.Int.{pos}
use jobscout.Text.{
  join, lower, equal_fold, codes, ◌==◌, to_lower, trim_space, contains, has_prefix, trim_prefix,
  has_suffix,
}
use jobscout.Text.Dict.{get, put, delete}
use jobscout.Domain.Job.{
  Job, JobMetadata, JobSourceMetadata, CompanyMetadata, zero_source, zero_company,
}
use jobscout.Domain.Unique.{seen_in, append_unique, unique_from}
use jobscout.Domain.Website.{looks_like_company_website}
use jobscout.Domain.Summary.{compensation_missing}
use jobscout.Domain.Merge.{
  job_merge_key, open_status, merge_fields, merge_jobs, needs_identity_repair,
  identity_repair_targets,
}
use jobscout.Domain.Merge.Repair.{IsRepair, Ascending, identity_repair_targets-IsRepair}
use jobscout.Domain.Location.{is_separator, parse_csv_list}
use jobscout.Domain.Location.Lists.{IsItem, parse_csv_list-join}
use jobscout.Domain.Merge.Keys.{keys, fresh_keys, merge_jobs-keys}
use jobscout.Domain.Merge.Keys.Duplicates.{merge_jobs-Distinct, merge_jobs_again}
use jobscout.Domain.Merge.Lookup.{last_with, absorb_all, merge_jobs-last_with}
use jobscout.Domain.Merge.Fields.{Appends, merge_jobs-Appends}
use jobscout.Domain.Unique.Distinct.{Distinct}
use jobscout.Examples.{host_only, acme, acme_again, globex}

abbrev stored : List Job
stored = acme ∷ []

abbrev fetched : List Job
fetched = acme_again ∷ globex ∷ globex ∷ []

-- One job is new, the other two are merged.
added_count : (merge_jobs host_only stored fetched).0 ≡ 1
unfolding merge_jobs job_merge_key get put delete ◌==◌ to_lower trim_space lower
added_count = refl

statuses :
    map (λ j. j.status) (merge_jobs host_only stored fetched).1
    ≡ codes "Applied" ∷ codes "Unopened" ∷ []
unfolding merge_jobs job_merge_key open_status merge_fields get put delete ◌==◌ to_lower trim_space
    lower
statuses = refl

salary : map (λ j. j.compensation) (merge_jobs host_only stored fetched).1 ≡ codes "$100k" ∷ [] ∷ []
unfolding merge_jobs job_merge_key open_status merge_fields compensation_missing get put delete ◌==◌
    to_lower trim_space lower
salary = refl

hosts :
    (looks_like_company_website host_only (codes "www.linkedin.com") [] ≡ false)
    × (looks_like_company_website host_only (codes "acme.example") [] ≡ true)
unfolding looks_like_company_website ◌==◌ to_lower has_prefix has_suffix trim_prefix contains lower
    equal_fold
hosts = (refl, refl)

merge_jobs-last_with_example :
    last_with (codes "acme|engineer") (merge_jobs host_only stored fetched).1
    ≡ absorb_all host_only
        (codes "acme|engineer")
        (last_with (codes "acme|engineer") stored)
        fetched
merge_jobs-last_with_example = merge_jobs-last_with host_only stored fetched (codes "acme|engineer")

merge_jobs-keys_example :
    (keys (merge_jobs host_only stored fetched).1
      ≡ keys stored ++ fresh_keys (keys stored) (keys fetched))
    × ((merge_jobs host_only stored fetched).0 ≡ length (fresh_keys (keys stored) (keys fetched)))
merge_jobs-keys_example = merge_jobs-keys host_only stored fetched

merge_jobs-Distinct_example : Distinct [] (keys (merge_jobs host_only stored fetched).1)
merge_jobs-Distinct_example =
    merge_jobs-Distinct host_only stored fetched (unfold seen_in in (refl, tt))

merge_jobs-Appends_example : Appends host_only stored (merge_jobs host_only stored fetched).1
merge_jobs-Appends_example = merge_jobs-Appends host_only stored fetched

merge_jobs_again_example :
    (merge_jobs host_only (merge_jobs host_only stored fetched).1 fetched).0 ≡ 0
merge_jobs_again_example = merge_jobs_again host_only stored fetched

identity_repair_targets-IsRepair_example :
    (IsRepair fetched (identity_repair_targets fetched).0 (identity_repair_targets fetched).1
      × Ascending 0 (identity_repair_targets fetched).1)
    × ((n : ℕ) (job : Job)
        → get_elem? fetched n ≡ some job
        → needs_identity_repair job ≡ true
        → In n (identity_repair_targets fetched).1)
identity_repair_targets-IsRepair_example = identity_repair_targets-IsRepair fetched

city-IsItem : IsItem (codes "New York")
unfolding trim_space is_separator
city-IsItem = record {
  trimmed = refl;
  filled = refl;
  free = (refl, (refl, (refl, (refl, (refl, (refl, (refl, (refl, tt))))))));
}

parse_csv_list-join_example :
    parse_csv_list (join (codes ", ") (codes "New York" ∷ codes "New York" ∷ []))
    ≡ codes "New York" ∷ codes "New York" ∷ []
parse_csv_list-join_example =
    parse_csv_list-join (codes "New York" ∷ codes "New York" ∷ []) (city-IsItem, (city-IsItem, tt))

abbrev old_source : JobSourceMetadata
old_source = record zero_source {
  posting_url = codes " https://a ";
  skills = codes "Go" ∷ codes " go " ∷ [];
}

abbrev new_source : JobSourceMetadata
new_source = record zero_source {
  posting_url = codes "https://b";
  date_posted = codes "2025-01-02";
  skills = codes "GO" ∷ codes "SQL" ∷ [];
}

abbrev new_company : CompanyMetadata
new_company = record zero_company { ticker = codes "acme"; estimated_employees = some (pos 1) }

abbrev old_metadata : JobMetadata
old_metadata = record { source = some old_source; company = none }

abbrev new_metadata : JobMetadata
new_metadata = record { source = some new_source; company = some new_company }

skills : append_unique old_source.skills new_source.skills ≡ codes "Go" ∷ codes "SQL" ∷ []
unfolding append_unique unique_from seen_in ◌==◌ to_lower trim_space lower
skills = refl
