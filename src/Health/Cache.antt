-- ===== src/Health/Cache.antt =====
-- internal/health/cache.go: the key under which a company's health is cached, and how long a cached
-- result is fresh. A time is a number of nanoseconds; `now` is `time.Now()`. Of CompanyHealthResult
-- (internal/domain/company_health_types.go) it holds what these functions read, with the layoff
-- signals of any type. `hostname` is `url.Parse` with `Hostname`: none on an error.
use jobscout.Prelude.{
  ℕ, ◌-◌, ◌*◌, ◌^◌, Bool, true, false, not, ◌||◌, List, [], ◌++◌, Option, none, some, is_empty, leb,
  if◌then◌else◌,
}
use jobscout.Prelude.Int.{ℤ, pos, leb_ℤ}
use jobscout.Text.{Text, codes, to_lower, trim_space, trim_prefix, contains}
use jobscout.Text.Dict.{Dict, text_Eq, get}
use jobscout.Domain.Job.{Job}
use jobscout.Domain.Website.{any}
use jobscout.Runtime.Stores.{Time, is_zero_time}
use jobscout.Runtime.Stores.Interface.{HealthCacheEntry}

pub record CachedResult (Signal : Type 0) : Type 0 where
  pub score : ℤ
  pub layoff_signals : List Signal
  -- the score of `EmploymentRisk`, which may be nil
  pub risk_score : Option ℤ
  pub flags : List Text

abbrev pub hour : ℕ
hour = 3600 * 10 ^ 9

module _ (hostname : Text → Option Text) where
  abbrev host_or_empty : Option Text → Text
  host_or_empty none = []
  host_or_empty (some h) = to_lower h

  -- parsedCompanyWebsiteHost
  unfoldable pub parsed_company_website_host : Text → Text
  parsed_company_website_host website =
      let host = host_or_empty (hostname website) in
      if not (is_empty host)
      then host
      else if contains website (codes "://")
      then []
      else host_or_empty (hostname (codes "https://" ++ website))

  -- companyHealthContextDomain, of the website in the identity
  unfoldable pub company_health_context_domain : Text → Text
  unfolding parsed_company_website_host
  company_health_context_domain website =
      if is_empty (trim_space website)
      then []
      else trim_prefix (parsed_company_website_host (trim_space website)) (codes "www.")

  -- CacheKeyForJob, by CacheKeyForIdentity
  unfoldable pub cache_key_for_job : Job → Text
  unfolding company_health_context_domain
  cache_key_for_job job =
      let domain = company_health_context_domain job.company_website in
      if is_empty domain then trim_space job.company else codes "domain:" ++ domain

abbrev at_least_25 : Option ℤ → Bool
at_least_25 none = false
at_least_25 (some n) = leb_ℤ (pos 25) n

abbrev flag_is_volatile : Text → Bool
flag_is_volatile raw =
    let flag = to_lower (trim_space raw) in
    contains flag (codes "layoff")
    || contains flag (codes "negative_news")
    || contains flag (codes "sec_risk")

module _ {Signal : Type 0} where
  -- healthResultHasVolatileSignals
  unfoldable pub has_volatile_signals : Option (CachedResult Signal) → Bool
  unfolding any
  has_volatile_signals none = true
  has_volatile_signals (some r) =
      not (is_empty r.layoff_signals) || at_least_25 r.risk_score || any flag_is_volatile r.flags

  -- healthCacheTTL
  unfoldable pub health_cache_ttl : Option (CachedResult Signal) → ℕ
  unfolding has_volatile_signals
  health_cache_ttl r = if has_volatile_signals r then 24 * hour else 7 * 24 * hour

  unfoldable pub is_health_cache_fresh : Time → Time → Option (CachedResult Signal) → Bool
  unfolding health_cache_ttl
  is_health_cache_fresh now ts r =
      if is_zero_time ts then false else leb (now - ts) (health_cache_ttl r)

  abbrev when_fresh :
      Time → Option (HealthCacheEntry (CachedResult Signal)) → Option (CachedResult Signal)
  when_fresh now none = none
  when_fresh now (some entry) =
      if is_health_cache_fresh now entry.timestamp entry.result then entry.result else none

  -- cachedHealth
  unfoldable pub cached_health :
      Time
      → Dict Text (HealthCacheEntry (CachedResult Signal))
      → Text
      → Option (CachedResult Signal)
  unfolding is_health_cache_fresh
  cached_health now cache company = when_fresh now (get company cache)

  unfoldable pub cached_health_for_job :
      (Text → Option Text)
      → Time
      → Dict Text (HealthCacheEntry (CachedResult Signal))
      → Job
      → Option (CachedResult Signal)
  unfolding cached_health
  cached_health_for_job hostname now cache job =
      let by_company = cached_health now cache job.company in
      elim (cached_health now cache (cache_key_for_job hostname job)) [
        | none ↦ by_company
        | some r ↦ some r
      ]
