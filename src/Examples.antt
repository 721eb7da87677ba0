-- ===== src/Examples.antt =====
-- Runs of the model on concrete data, and the theorems at inputs that meet their hypotheses.
mod DomainRuns
mod HealthRuns
mod VisitRuns
mod TableRuns
mod FetcherRuns
mod RuntimeRuns
mod StoreRuns
mod CriteriaRuns
mod TaskRuns
mod EditRuns
mod ReviewRuns
mod PopupRuns
mod LlmRuns
use jobscout.Prelude.{Option, none, some, [], ◌∷◌}
use jobscout.Text.{Text, codes}
use jobscout.Domain.Website.{Url}
use jobscout.Domain.Job.{Job, zero_job}

-- A parser that takes the whole text for a host.
abbrev pub host_only : Text → Option Url
host_only raw = some (record { scheme = codes "https"; host = raw; escaped_path = [] })

abbrev pub acme : Job
acme = record zero_job {
  company = codes "Acme";
  title = codes "Engineer";
  status = codes "Applied";
  compensation = codes "n/a";
}

-- The same job found again, with white space and other case, and with a salary.
abbrev pub acme_again : Job
acme_again = record zero_job {
  company = codes " ACME ";
  title = codes "engineer";
  status = codes "New";
  compensation = codes "$100k";
  company_industry = codes "Robots";
}

abbrev pub globex : Job
globex = record zero_job { company = codes "Globex"; title = codes "Analyst"; status = codes "New" }
