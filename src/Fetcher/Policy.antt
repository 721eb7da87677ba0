-- ===== src/Fetcher/Policy.antt =====
-- internal/fetcher/fetch_policy.go: the limits on the candidates of a source and on the jobs of a
-- fetch, with the parts of FetchSummary (fetch_summary.go, job_fetcher.go) that they write.
pub mod Limiter
use jobscout.Prelude.{
  ℕ, zero, suc, ◌+◌, ◌-◌, ◌≡◌, refl, ap, ◌∙◌, Bool, true, false, ◌||◌, List, [], ◌∷◌, ◌++◌, Option,
  none, some, is_empty, arith, length, take, drop, leb, ltb, eqb, if◌then◌else◌, Bool-cases, inl,
  inr, ◌≤◌,
}
use jobscout.Prelude.Int.{ℤ, pos, negsuc}
use jobscout.Text.{Text, codes, ◌==◌, to_lower, trim_space}
use jobscout.Text.Dict.{Dict, text_Eq, get, put}
use jobscout.Domain.Job.{Job}
use jobscout.Fetcher.Review.{FetchSummary}
use jobscout.Domain.Unique.{seen_in}

pub record FetchPolicy : Type 0 where
  pub candidate_limit_per_source : ℕ
  pub accepted_limit : ℕ

unfoldable pub non_negative_int : ℤ → ℕ
non_negative_int (pos n) = n
non_negative_int (negsuc n) = 0

-- the two limits of the configuration, or no configuration
unfoldable pub fetch_policy_from_config : Option (ℤ × ℤ) → FetchPolicy
unfolding non_negative_int
fetch_policy_from_config none = record { candidate_limit_per_source = 0; accepted_limit = 0 }
fetch_policy_from_config (some (candidate_limit, accepted_limit)) = record {
  candidate_limit_per_source = non_negative_int candidate_limit;
  accepted_limit = non_negative_int accepted_limit;
}

pub record SiteCandidateLimiter : Type 0 where
  pub limit : ℕ
  pub used : Dict Text ℕ

-- `nil` for no limit
unfoldable pub new_site_candidate_limiter : ℕ → Option SiteCandidateLimiter
new_site_candidate_limiter zero = none
new_site_candidate_limiter (suc n) = some (record { limit = suc n; used = [] })

unfoldable pub site_candidate_limit_key : Text → Text
site_candidate_limit_key source = to_lower (trim_space source)

-- a missing count is 0
abbrev or_zero : Option ℕ → ℕ
or_zero none = 0
or_zero (some n) = n

unfoldable pub used_of : SiteCandidateLimiter → Text → ℕ
used_of l key = or_zero (get key l.used)

unfoldable pub exhausted : Option SiteCandidateLimiter → Text → Bool
unfolding used_of
exhausted none source = false
exhausted (some l) source = leb l.limit (used_of l (site_candidate_limit_key source))

-- the count that is granted, and the limiter after
unfoldable pub take_count : SiteCandidateLimiter → Text → ℕ → ℕ × SiteCandidateLimiter
unfolding used_of
take_count l source zero = (0, l)
take_count l source (suc n) =
    let key = site_candidate_limit_key source in
    let used = used_of l key in
    let remaining = l.limit - used in
    if leb remaining 0
    then (0, l)
    else if leb (suc n) remaining
    then (suc n, record l { used = put key (used + suc n) l.used })
    else (remaining, record l { used = put key (used + remaining) l.used })

-- takeCount, of a limiter that may be nil
unfoldable pub take_count_if_any :
    Option SiteCandidateLimiter → Text → ℕ → ℕ × Option SiteCandidateLimiter
unfolding take_count
take_count_if_any none source count = (count, none)
take_count_if_any (some l) source count =
    let (kept, l') = take_count l source count in (kept, some l')

module _ {Candidate : Type 0} where
  -- the candidates that pass, the number of the others, and the limiter after
  unfoldable pub take_candidates :
      Option SiteCandidateLimiter
      → Text
      → List Candidate
      → List Candidate × ℕ × Option SiteCandidateLimiter
  take_candidates none source candidates = (candidates, 0, none)
  take_candidates (some l) source [] = ([], 0, some l)
  take_candidates (some l) source (c ∷ cs) =
      let (kept, l') = take_count l source (length (c ∷ cs)) in
      if leb (length (c ∷ cs)) kept
      then (c ∷ cs, 0, some l')
      else (take kept (c ∷ cs), length (c ∷ cs) - kept, some l')

unfoldable pub append_fetch_notice : FetchSummary → Text → FetchSummary
append_fetch_notice summary raw =
    let notice = trim_space raw in
    if is_empty notice || seen_in notice summary.notices
    then summary
    else record summary { notices = summary.notices ++ notice ∷ [] }

abbrev pub accepted_limit_reached : Text
accepted_limit_reached = codes "accepted limit reached"

abbrev limit_notice : Text
limit_notice =
    codes "Accepted result limit reached; additional matching jobs were omitted from this fetch."

abbrev or_nil : Option (List Job) → List Job
or_nil none = []
or_nil (some jobs) = jobs

-- `summary.Filtered[reason]`, where a missing list is empty
unfoldable pub filtered_of : FetchSummary → Text → List Job
filtered_of summary reason = or_nil (get reason summary.filtered)

unfoldable pub cap_accepted_fetched_jobs : List Job → ℕ → FetchSummary → List Job × FetchSummary
unfolding append_fetch_notice filtered_of
cap_accepted_fetched_jobs jobs limit summary =
    if leb limit 0 || leb (length jobs) limit
    then (jobs, summary)
    else let filtered =
        put accepted_limit_reached (filtered_of summary accepted_limit_reached ++ drop limit jobs)
          summary.filtered in
      (take limit jobs, append_fetch_notice (record summary { filtered = filtered }) limit_notice)
