-- ===== src/Examples/CriteriaRuns.antt =====
-- Criteria, locations and role families.
use jobscout.Prelude.{
  ◌≡◌, refl, arith, true, false, List, [], ◌∷◌, Option, none, some, is_empty, ok,
}
use jobscout.Prelude.Int.{pos}
use jobscout.Text.{
  Text, codes, join, fields, trim_space, to_lower, lower, ◌==◌, to_upper, contains, has_prefix,
  replace_all,
}
use jobscout.Domain.Unique.{seen_in}
use jobscout.Text.Fields.{fields_func}
use jobscout.Domain.Criteria.{Criteria, criteria_hash, normal_value}
use jobscout.Domain.Criteria.Slices.{occurs, SameCriteria, criteria_hash_same}
use jobscout.Domain.Location.{parse_csv_list, is_separator}
use jobscout.Domain.RoleFamily.{
  parse_role_family_csv, format_role_family_ids, format_role_family_labels, normalize_role_families,
  parse_role_family_value,
}
use jobscout.Domain.RoleFamily.Printed.{parse-format_role_families}
use jobscout.Domain.Titles.Names.{
  normalize_target_title_names, normalize_target_title_name, names_from, append_implied_title_noun,
}
use jobscout.Domain.Titles.Nouns.{AreTitles, normalize_target_title_names-AreTitles}

abbrev wanted : Criteria
wanted = record {
  candidate = record {
    city = codes "Portland";
    state = codes "oregon";
    country_code = codes " United States ";
    years_of_experience = pos 5;
  };
  filters = record {
    title_requires = none;
    title_includes = some (codes "Go" ∷ []);
    title_excludes = none;
    work_settings = record { remote = true; hybrid = false; onsite = false };
    max_distance_miles = pos 50;
    min_base_usd = pos 100;
    industry_includes = none;
    industry_excludes = none;
  };
  role_families = none;
  resolved_source_ids = none;
  priority_signals = none;
}

abbrev wanted_again : Criteria
wanted_again = record wanted {
  filters = record wanted.filters { title_includes = some (codes " go" ∷ codes "GO" ∷ []) };
}

abbrev city_of : Criteria → Option Text
city_of c = some c.candidate.city

abbrev two_families : List Text
two_families = codes " Data " ∷ codes "devops" ∷ codes "data" ∷ []

go_is_go :
    (v : Text)
    → occurs normal_value v (codes "Go" ∷ [])
      ≡ occurs normal_value v (codes " go" ∷ codes "GO" ∷ [])
unfolding fields to_lower lower seen_in join
go_is_go v = ground arith

wanted_is_same : SameCriteria wanted wanted_again
wanted_is_same = record {
  profile = refl;
  settings = refl;
  distance_miles = refl;
  base_usd = refl;
  requires = tt;
  includes = λ v _. go_is_go v;
  excludes = tt;
  industries = tt;
  no_industries = tt;
  families = tt;
  source_ids = tt;
  signals = tt;
}

criteria_hash_same_example :
    criteria_hash city_of (some wanted) ≡ criteria_hash city_of (some wanted_again)
criteria_hash_same_example = criteria_hash_same city_of wanted wanted_again wanted_is_same

parse-format_role_families_example :
    (parse_role_family_csv (format_role_family_ids two_families)
      ≡ ok (normalize_role_families two_families))
    × (is_empty (normalize_role_families two_families) ≡ false
        → parse_role_family_csv (format_role_family_labels two_families)
          ≡ ok (normalize_role_families two_families))
parse-format_role_families_example = parse-format_role_families two_families

-- what the families are normalized to
normal_families : normalize_role_families two_families ≡ codes "data" ∷ []
unfolding normalize_role_families parse_role_family_value trim_space to_lower lower seen_in ◌==◌
normal_families = refl

-- a list that a user typed
typed_list : parse_csv_list (codes "New York, ,go") ≡ codes "New York" ∷ codes "go" ∷ []
unfolding parse_csv_list is_separator fields_func trim_space
typed_list = refl

abbrev data_only : List Text
data_only = codes "data" ∷ []

data_is_known : is_empty (normalize_role_families data_only) ≡ false
unfolding normalize_role_families trim_space seen_in ◌==◌
data_is_known = refl

abbrev typed_titles : List Text
typed_titles = codes "full-stack" ∷ codes "FULLSTACK" ∷ codes "dev" ∷ []

normalize_target_title_names-AreTitles_example :
    AreTitles data_only data_is_known [] (normalize_target_title_names typed_titles data_only)
normalize_target_title_names-AreTitles_example =
    normalize_target_title_names-AreTitles data_only data_is_known typed_titles

-- what they are normalized to
normal_titles :
    normalize_target_title_names typed_titles data_only ≡ codes "Full Stack Engineer" ∷ []
unfolding normalize_target_title_names normalize_target_title_name names_from
    append_implied_title_noun normalize_role_families trim_space to_lower lower to_upper seen_in
    join fields ◌==◌ contains has_prefix replace_all
normal_titles = refl
