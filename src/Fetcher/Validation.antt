-- ===== src/Fetcher/Validation.antt =====
-- internal/fetcher/job_validation.go: which fetched jobs can be used. `urls` is the URL package, and
-- `probe` answers with the status of a request, or with none for an error; it is asked once for each
-- job with each method, so that its answer depends on the position of the job.
pub mod Split
use jobscout.Prelude.{
  ℕ, suc, String, Bool, true, false, not, ◌&&◌, ◌||◌, List, [], ◌∷◌, ◌++◌, Option, none, some,
  is_empty, eqb, ltb, leb, if◌then◌else◌,
}
use jobscout.Prelude.Int.{pos}
use jobscout.Text.{
  Text, codes, ◌==◌, trim_space, to_lower, has_prefix, has_suffix, trim_prefix, contains,
  equal_fold, trim_char, trim_right_char,
}
use jobscout.Text.Number.{itoa}
use jobscout.Text.Dict.{Dict, text_Eq}
use jobscout.Domain.Job.{Job}
use jobscout.Domain.Website.{website_missing_or_invalid}
use jobscout.Domain.Summary.{summary_missing_or_invalid}
use jobscout.Fetcher.Urls.{UrlPackage, site_parse}
use jobscout.Fetcher.JobKey.{
  is_builtin_host, is_linkedin_host, is_indeed_host, is_builtin_job_detail_path,
}
use jobscout.Fetcher.Review.{append_entries}

-- http.MethodHead and http.MethodGet
pub data Method : Type 0 where
  method_head method_get : Method

-- host == name || strings.HasSuffix(host, "."+name)
abbrev pub is_under : Text → List String → Bool
is_under host [] = false
is_under host (name ∷ names) =
    (host == codes name || has_suffix host (b'.' ∷ codes name)) || is_under host names

abbrev pub bare_name : Text → Text
bare_name hostname = to_lower (trim_prefix hostname (codes "www."))

unfoldable pub is_known_non_job_builtin_path : Text → Bool
is_known_non_job_builtin_path raw_path =
    let path = to_lower (trim_right_char b'/' raw_path) in
    (path == codes "/jobs" || has_prefix path (codes "/jobs/"))
    && not (is_builtin_job_detail_path raw_path)

unfoldable pub is_indeed_direct_job_path : Text → Bool
is_indeed_direct_job_path path =
    path == codes "/viewjob" || path == codes "/rc/clk" || path == codes "/pagead/clk"

unfoldable pub job_company_missing_or_unknown : Text → Bool
job_company_missing_or_unknown company =
    let c = trim_space company in is_empty c || equal_fold c (codes "unknown")

unfoldable pub is_llm_generated_job : Job → Bool
is_llm_generated_job job = has_prefix (to_lower (trim_space job.source)) (codes "llm")

-- the first reason that is not empty
abbrev pub first_reason : List (Bool × String) → Text
first_reason [] = []
first_reason ((true, reason) ∷ reasons) = codes reason
first_reason ((false, reason) ∷ reasons) = first_reason reasons

abbrev pub status_reason : ℕ → Text
status_reason status = codes "HTTP " ++ itoa (pos status)

-- http.StatusNotFound, http.StatusGone
abbrev pub is_gone : ℕ → Bool
is_gone status = eqb status 404 || eqb status 410

module _ (urls : UrlPackage) where
  open urls use {Url, parse, scheme, host, hostname, escaped_path}

  abbrev placeholder_host : Option Url → Bool
  placeholder_host none = false
  placeholder_host (some u) =
      not (is_empty (host u))
      && is_under (bare_name (hostname u)) (
          "example.com" ∷ "example.org" ∷ "example.net" ∷ "localhost" ∷ "test" ∷ "invalid"
          ∷ "example" ∷ [])

  unfoldable pub uses_reserved_placeholder_domain : Text → Bool
  uses_reserved_placeholder_domain raw_url = placeholder_host (parse (trim_space raw_url))

  abbrev pagead_click : Option Url → Bool
  pagead_click none = false
  pagead_click (some u) =
      not (is_empty (host u) || not (is_indeed_host (hostname u)))
      && equal_fold (trim_right_char b'/' (escaped_path u)) (codes "/pagead/clk")

  unfoldable pub is_indeed_pagead_click_url : Text → Bool
  is_indeed_pagead_click_url raw_url = pagead_click (parse (trim_space raw_url))

  -- the switch of isKnownNonJobApplyURL
  abbrev non_job_page : Text → Text → Text → Bool
  non_job_page name path raw_path =
      if is_builtin_host name && is_known_non_job_builtin_path raw_path
      then true
      else if name == codes "kube.careers"
          && (is_empty path || path == codes "/kubernetes-jobs-in-usa")
      then true
      else if is_indeed_host name
      then not (is_indeed_direct_job_path path)
      else if is_linkedin_host name
      then not (has_prefix path (codes "/jobs/view/"))
      else name == codes "dice.com"
        || name == codes "glassdoor.com"
        || name == codes "news.google.com"
        || name == codes "ziprecruiter.com"

  abbrev non_job_url : Option Url → Bool
  non_job_url none = false
  non_job_url (some u) =
      let path = to_lower (trim_right_char b'/' (escaped_path u)) in
      not (is_empty (host u))
      && (contains path (codes "/xxxxx")
          || non_job_page (bare_name (hostname u)) path (escaped_path u))

  unfoldable pub is_known_non_job_apply_url : Text → Bool
  is_known_non_job_apply_url raw_url = non_job_url (parse (trim_space raw_url))

  unfoldable pub job_has_required_company_identity : Job → Bool
  job_has_required_company_identity job =
      not (job_company_missing_or_unknown job.company)
      && not (website_missing_or_invalid (site_parse urls) job.company_website)
      && not (summary_missing_or_invalid job.company_summary job.company)

  unfoldable pub unusable_job_url_reason : Job → Text
  unusable_job_url_reason job =
      let apply_url = trim_space job.apply_url in
      first_reason (
        (is_empty apply_url, "empty URL")
        ∷ (uses_reserved_placeholder_domain apply_url, "placeholder URL")
        ∷ (is_indeed_pagead_click_url apply_url, "Indeed click tracking URL")
        ∷ (is_known_non_job_apply_url apply_url, "not a direct job URL")
        ∷ [])

  unfoldable pub unusable_job_reason : Job → Text
  unusable_job_reason job =
      let reason = unusable_job_url_reason job in
      if not (is_empty reason)
      then reason
      else first_reason (
          (uses_reserved_placeholder_domain job.company_website, "placeholder URL")
          ∷ (
            is_llm_generated_job job && not (job_has_required_company_identity job),
            "missing company identity",
          )
          ∷ [])

  -- the answer to the second request
  abbrev pub after_get : Option ℕ → Bool × Text
  after_get none = (true, [])
  after_get (some status) = if is_gone status then (false, status_reason status) else (true, [])

  -- the answer to the first one, with that to the second
  abbrev pub after_head : Option ℕ → Option ℕ → Bool × Text
  after_head none second = after_get second
  after_head (some status) second =
      if is_gone status
      then (false, status_reason status)
      else if leb 200 status && ltb status 400
      then (true, [])
      else if eqb status 405
      then after_get second
      else (true, [])

  abbrev checked_url : (Method → Text → Option ℕ) → Text → Option Url → Bool × Text
  checked_url probe apply_url none = (false, codes "malformed URL")
  checked_url probe apply_url (some u) =
      if not (scheme u == codes "http") && not (scheme u == codes "https")
      then (false, codes "unsupported URL scheme")
      else if is_empty (host u)
      then (false, codes "missing host")
      else after_head (probe method_head apply_url) (probe method_get apply_url)

  unfoldable pub validate_job_url : (Method → Text → Option ℕ) → Text → Bool × Text
  validate_job_url probe apply_url =
      if is_empty (trim_space apply_url)
      then (false, codes "empty URL")
      else checked_url probe apply_url (parse apply_url)

  unfoldable pub verify_job_posting : (Method → Text → Option ℕ) → Job → Bool × Text
  verify_job_posting probe job =
      let reason = unusable_job_url_reason job in
      if not (is_empty reason) then (false, reason) else validate_job_url probe job.apply_url

  -- what the loop finds: that the job can be used, or why not
  unfoldable pub verdict_on : (Method → Text → Option ℕ) → Job → Bool × Text
  verdict_on probe job =
      let reason = unusable_job_reason job in
      if not (is_empty reason) then (false, reason) else validate_job_url probe job.apply_url

  abbrev pub entry_of : Job → Text
  entry_of job = job.company ++ (codes " - " ++ job.title)

  abbrev pub note_rejected : Job → Bool × Text → Dict Text (List Text) → Dict Text (List Text)
  note_rejected job (true, reason) rejected = rejected
  note_rejected job (false, reason) rejected = append_entries reason (entry_of job ∷ []) rejected

  abbrev pub keep_if : Bool × Text → Job → List Job → List Job
  keep_if (true, reason) job jobs = job ∷ jobs
  keep_if (false, reason) job jobs = jobs

  -- the loop, from the job at position `i`
  unfoldable pub validate_from :
      (ℕ → Method → Text → Option ℕ)
      → ℕ
      → Dict Text (List Text)
      → List Job
      → List Job × Dict Text (List Text)
  validate_from probe i rejected [] = ([], rejected)
  validate_from probe i rejected (job ∷ jobs) =
      let verdict = verdict_on (probe i) job in
      let (validated, after) =
        validate_from probe (suc i) (note_rejected job verdict rejected) jobs in
      (keep_if verdict job validated, after)

  unfoldable pub validate_fetched_jobs :
      (ℕ → Method → Text → Option ℕ) → List Job → List Job × Dict Text (List Text)
  validate_fetched_jobs probe jobs = validate_from probe 0 [] jobs
