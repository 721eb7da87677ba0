-- ===== src/Examples/HealthRuns.antt =====
-- The facts of a company, and its cached health.
use jobscout.Prelude.{◌≡◌, refl, [], ◌∷◌, Option, none, some}
use jobscout.Prelude.Int.{pos}
use jobscout.Text.{Text, codes, ◌==◌, trim_space}
use jobscout.Text.Dict.{Dict, text_Eq, get, put, delete}
use jobscout.Domain.Health.Facts.{observe_founded_year}
use jobscout.Domain.Health.Fields.{
  Observation, HealthResult, confidence_rank, assessment_of, founded_field, founded_year_conflicts,
}
use jobscout.Domain.Health.Facts.Accepted.{accepts, IsObserved, observe_founded_year-IsObserved}
use jobscout.Domain.Health.Facts.Reachable.{Reachable-IsBackedResult}
use jobscout.Domain.Health.Facts.Steps.{empty_result, IsBackedResult, founded, start, next}
use jobscout.Runtime.Stores.Interface.{HealthCacheEntry}
use jobscout.Health.Cache.{CachedResult, cache_key_for_job, cached_health_for_job}
use jobscout.Examples.{acme}

abbrev low : Observation
low = record {
  source = codes "wiki";
  source_url = [];
  confidence = codes "low";
  reason = codes "infobox";
}

abbrev high : Observation
high = record { source = codes "sec"; source_url = []; confidence = codes "high"; reason = [] }

abbrev year_of_wiki : HealthResult
year_of_wiki = (observe_founded_year (pos 2025) (pos 1990) low empty_result).1

abbrev year_of_sec : HealthResult
year_of_sec = (observe_founded_year (pos 2025) (pos 1999) high year_of_wiki).1

-- The year of higher confidence replaces the other, and the age follows.
replaced : (year_of_sec.founded_year ≡ some (pos 1999)) × (year_of_sec.age_years ≡ some (pos 26))
unfolding observe_founded_year confidence_rank get put delete ◌==◌
replaced = (refl, refl)

observe_founded_year-IsObserved_example :
    IsObserved founded_field
      (pos 1999)
      high
      []
      (accepts founded_year_conflicts year_of_wiki.founded_year
        (pos 1999)
        (assessment_of founded_field year_of_wiki).confidence
        (codes "high"))
      (observe_founded_year (pos 2025) (pos 1999) high year_of_wiki).0
      year_of_wiki.founded_year
      (observe_founded_year (pos 2025) (pos 1999) high year_of_wiki).1.founded_year
      year_of_wiki
      (observe_founded_year (pos 2025) (pos 1999) high year_of_wiki).1
observe_founded_year-IsObserved_example =
    observe_founded_year-IsObserved year_of_wiki high (pos 2025) (pos 1999)

Reachable-IsBackedResult_example : IsBackedResult (pos 2025) year_of_sec
Reachable-IsBackedResult_example =
    Reachable-IsBackedResult (
      next (next start (founded (pos 1990) low empty_result))
        (founded (pos 1999) high year_of_wiki))

abbrev healthy : CachedResult Text
healthy = record { score = pos 80; layoff_signals = []; risk_score = none; flags = [] }

abbrev cache : Dict Text (HealthCacheEntry (CachedResult Text))
cache = (codes "Acme", record { result = some healthy; timestamp = 5 }) ∷ []

abbrev no_host : Text → Option Text
no_host raw = none

found : cached_health_for_job no_host 9 cache acme ≡ some healthy
unfolding cached_health_for_job cache_key_for_job get ◌==◌ trim_space
found = refl
