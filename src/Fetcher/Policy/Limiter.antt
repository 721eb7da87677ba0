-- ===== src/Fetcher/Policy/Limiter.antt =====
-- What the limits grant, over any sequence of requests, and where the capped jobs go.
use jobscout.Prelude.{
  ℕ, zero, suc, ◌+◌, ◌-◌, min, ◌≡◌, refl, sym, ap, ◌∙◌, ◌||◌, List, [], ◌∷◌, ◌++◌, Option, none,
  some, arith, length, take, drop, length-take, take-nil, take_of_length-le, take-append-drop,
  append-nil, ◌<◌, leb, eqb, if◌then◌else◌, Bool-cases, inl, inr,
}
use jobscout.Text.{Text, ◌==◌}
use jobscout.Text.Equality.{eq_iff, eq_refl}
use jobscout.Text.Dict.{text_Eq, put, get-put, get-nil}
use jobscout.Domain.Job.{Job}
use jobscout.Fetcher.Review.{FetchSummary}
use jobscout.Fetcher.Policy.{
  SiteCandidateLimiter, site_candidate_limit_key, used_of, take_count, take_count_if_any,
  new_site_candidate_limiter, take_candidates, append_fetch_notice, accepted_limit_reached,
  filtered_of, cap_accepted_fetched_jobs,
}

-- What a request of `n` candidates grants where `used` are used up.
abbrev pub granted : ℕ → ℕ → ℕ → ℕ
granted limit used n = min n (limit - used)

module _ (l : SiteCandidateLimiter) (source : Text) where
  take_count-eq-granted :
      (n : ℕ)
      → (take_count l source n).0 ≡ granted l.limit (used_of l (site_candidate_limit_key source)) n
  unfolding take_count
  take_count-eq-granted zero = omega arith
  take_count-eq-granted (suc n) = ground arith

  limit-take_count : (n : ℕ) → (take_count l source n).1.limit ≡ l.limit
  unfolding take_count
  limit-take_count zero = refl
  limit-take_count (suc n) = ground arith

  used-take_count :
      (n : ℕ) (k : Text)
      → used_of (take_count l source n).1 k ≡ (
          if site_candidate_limit_key source == k
          then used_of l k + granted l.limit (used_of l k) n
          else used_of l k)
  unfolding take_count used_of
  used-take_count zero k = ground arith
  used-take_count (suc n) k =
      let key = site_candidate_limit_key source in
      ground (
        arith,
        eq_iff key k,
        get-put key k (used_of l key + suc n) l.used,
        get-put key k (used_of l key + (l.limit - used_of l key)) l.used,
      )

  -- A request of candidates passes the first ones, as many as the count grants, and reports how
  -- many do not pass.
  pub take_candidates-eq-take :
      {Candidate : Type 0} (cs : List Candidate)
      → ((take_candidates (some l) source cs).0
          ≡ take (granted l.limit (used_of l (site_candidate_limit_key source)) (length cs)) cs)
        × (length (take_candidates (some l) source cs).0 + (take_candidates (some l) source cs).1
            ≡ length cs)
  unfolding take_candidates
  take_candidates-eq-take [] = (sym (take-nil _), omega arith)
  take_candidates-eq-take (c ∷ cs) =
      let n = take_count-eq-granted (length (c ∷ cs)) in
      elim (Bool-cases (leb (length (c ∷ cs)) (take_count l source (length (c ∷ cs))).0)) [
        | inl e ↦ rw e (sym (take_of_length-le _ (c ∷ cs) (ground (arith, n))), omega arith)
        | inr e ↦ rw e (
          ap (λ k. take k (c ∷ cs)) n,
          ground (
            arith,
            length-take (take_count l source (length (c ∷ cs))).0 (c ∷ cs) (ground arith),
          ),
        )
      ]

-- Requests for candidates, each of a source and a number.
abbrev pub Requests : Type 0
Requests = List (Text × ℕ)

-- The candidates of one source that are offered, and that pass.
pub offered : Text → Requests → ℕ
offered k [] = 0
offered k ((source, n) ∷ rs) =
    let rest = offered k rs in if site_candidate_limit_key source == k then n + rest else rest

unfoldable pub passed : Text → Option SiteCandidateLimiter → Requests → ℕ
passed k l [] = 0
passed k l ((source, n) ∷ rs) =
    let (kept, after) = take_count_if_any l source n in
    let rest = passed k after rs in
    if site_candidate_limit_key source == k then kept + rest else rest

passed-none : (k : Text) (rs : Requests) → passed k none rs ≡ offered k rs
unfolding passed offered take_count_if_any
passed-none k [] = refl
passed-none k ((source, n) ∷ rs) = ground (arith, passed-none k rs)

passed-eq-min :
    (k : Text) (l : SiteCandidateLimiter) (rs : Requests)
    → passed k (some l) rs ≡ min (offered k rs) (l.limit - used_of l k)
unfolding passed offered take_count_if_any
passed-eq-min k l [] = omega arith
passed-eq-min k l ((source, n) ∷ rs) = ground (
  arith,
  passed-eq-min k (take_count l source n).1 rs,
  take_count-eq-granted l source n,
  limit-take_count l source n,
  used-take_count l source n k,
  eq_iff (site_candidate_limit_key source) k,
)

unused : (limit : ℕ) (k : Text) → used_of (record { limit = limit; used = [] }) k ≡ 0
unfolding used_of
unused limit k = rw (get-nil {V = ℕ} k) refl

-- Over all requests of a run, in whatever order and from whatever sources, a source passes as many
-- candidates as it offers, up to the limit, and no more; a limit of 0 lets every candidate pass.
pub passed-new_site_candidate_limiter :
    (limit : ℕ) (k : Text) (rs : Requests)
    → passed k (new_site_candidate_limiter limit) rs
      ≡ (if eqb limit 0 then offered k rs else min (offered k rs) limit)
unfolding new_site_candidate_limiter
passed-new_site_candidate_limiter zero k rs = passed-none k rs
passed-new_site_candidate_limiter (suc n) k rs =
    passed-eq-min k (record { limit = suc n; used = [] }) rs ∙ rw (unused (suc n) k) (ground arith)

filtered_of-append_fetch_notice :
    (summary : FetchSummary) (notice reason : Text)
    → filtered_of (append_fetch_notice summary notice) reason ≡ filtered_of summary reason
unfolding append_fetch_notice filtered_of
filtered_of-append_fetch_notice summary notice reason = ground arith

filtered_of-put :
    (summary : FetchSummary) (reason : Text) (jobs : List Job)
    → filtered_of (record summary { filtered = put reason jobs summary.filtered }) reason ≡ jobs
unfolding filtered_of
filtered_of-put summary reason jobs =
    rw (get-put reason reason jobs summary.filtered, eq_refl reason) refl

-- Where the jobs of a fetch go under a limit.
pub record IsCapped (jobs : List Job) (limit : ℕ) (before : FetchSummary) (kept : List Job)
    (after : FetchSummary) : Type 0 where
  pub omitted : List Job
  pub all : kept ++ omitted ≡ jobs
  pub recorded :
      filtered_of after accepted_limit_reached
      ≡ filtered_of before accepted_limit_reached ++ omitted
  pub within : 0 < limit → length kept ≡ min (length jobs) limit
  pub unlimited : limit ≡ 0 → kept ≡ jobs

-- Capping keeps the first jobs, up to the limit, and records all the others as filtered; a limit of
-- 0 keeps every job.
pub cap_accepted_fetched_jobs-IsCapped :
    (jobs : List Job) (limit : ℕ) (summary : FetchSummary)
    → IsCapped jobs limit summary
        (cap_accepted_fetched_jobs jobs limit summary).0
        (cap_accepted_fetched_jobs jobs limit summary).1
unfolding cap_accepted_fetched_jobs
cap_accepted_fetched_jobs-IsCapped jobs limit summary =
    elim (Bool-cases (leb limit 0 || leb (length jobs) limit)) [
      | inl e ↦ rw e (record {
        omitted = [];
        all = append-nil jobs;
        recorded = sym (append-nil _);
        within = λ h. ground arith;
        unlimited = λ h. refl;
      })
      | inr e ↦ rw e (record {
        omitted = drop limit jobs;
        all = take-append-drop limit jobs;
        recorded =
            filtered_of-append_fetch_notice _ _ accepted_limit_reached
            ∙ filtered_of-put summary accepted_limit_reached _;
        within = λ h. length-take limit jobs (ground arith) ∙ ground arith;
        unlimited = λ h. absurd (ground arith);
      })
    ]
