-- ===== src/Fetcher/JobKey.antt =====
-- The key by which two fetched jobs are the same: fetchedJobDedupeKey and its parts, of
-- internal/fetcher/fetched_job_dedupe.go, site_search_browser.go and structured_job_posting.go.
use jobscout.Prelude.{
  Bool, true, not, ◌&&◌, ◌||◌, List, [], ◌∷◌, ◌++◌, Option, none, some, is_empty, eqb, leb,
  if◌then◌else◌,
}
use mathlib.Core.List.{reverse}
use jobscout.Text.{
  Text, codes, ◌==◌, to_lower, trim_space, has_prefix, trim_prefix, contains, equal_fold, split,
  trim_char, trim_right_char, all_digits, replace_all,
}
use jobscout.Domain.Job.{Job}
use jobscout.Domain.Website.{any}
use jobscout.Domain.Merge.{job_merge_key}
use jobscout.Fetcher.Urls.{UrlPackage}

unfoldable pub is_builtin_host : Text → Bool
is_builtin_host host = contains (to_lower (trim_space host)) (codes "builtin")

abbrev bare_host : Text → Text
bare_host host = to_lower (trim_prefix (trim_space host) (codes "www."))

unfoldable pub is_linkedin_host : Text → Bool
is_linkedin_host host = bare_host host == codes "linkedin.com"

unfoldable pub is_indeed_host : Text → Bool
is_indeed_host host = bare_host host == codes "indeed.com"

unfoldable pub is_shared_ats_directory_host : Text → Bool
is_shared_ats_directory_host raw =
    let host = to_lower (trim_space raw) in
    host == codes "boards.greenhouse.io"
    || host == codes "jobs.lever.co"
    || host == codes "myworkdayjobs.com"
    || host == codes "icims.com"
    || host == codes "smartrecruiters.com"

-- the last of the parts that `split` gives, which is never none of them
abbrev last_part : List Text → Text
last_part [] = []
last_part (p ∷ []) = p
last_part (p ∷ q ∷ parts) = last_part (q ∷ parts)

unfoldable pub is_builtin_job_detail_path : Text → Bool
is_builtin_job_detail_path raw_path =
    let path = trim_char b'/' (to_lower raw_path) in
    let last = last_part (split path b'/') in
    not (is_empty path)
    && contains (b'/' ∷ path) (codes "/job")
    && not (is_empty last)
    && all_digits last
    && (has_prefix path (codes "job/")
        || has_prefix path (codes "jobs/")
        || contains path (codes "/job/")
        || contains path (codes "/jobs/"))

abbrev title_keywords : List Text
title_keywords =
    codes "engineer"
    ∷ codes "developer"
    ∷ codes "architect"
    ∷ codes "manager"
    ∷ codes "designer"
    ∷ codes "scientist"
    ∷ codes "analyst"
    ∷ codes "administrator"
    ∷ codes "devops"
    ∷ codes "sre"
    ∷ codes "platform"
    ∷ codes "security"
    ∷ codes "data"
    ∷ codes "product"
    ∷ codes "frontend"
    ∷ codes "backend"
    ∷ codes "software"
    ∷ codes "full stack"
    ∷ codes "fullstack"
    ∷ []

unfoldable pub looks_like_job_title : Text → Bool
unfolding any
looks_like_job_title text = any (contains text) title_keywords

-- the replacer of slugify: three code points become a dash and a comma goes
unfoldable pub slug_replace : Text → Text
slug_replace [] = []
slug_replace (c ∷ s) =
    let rest = slug_replace s in
    if eqb c b' ' || eqb c b'/' || eqb c b'_'
    then b'-' ∷ rest
    else if eqb c b','
    then rest
    else c ∷ rest

unfoldable pub slugify : Text → Text
unfolding slug_replace
slugify value = slug_replace (to_lower (trim_space value))

unfoldable pub trailing_numeric_path_segment : Text → Text
trailing_numeric_path_segment raw_path =
    let last = last_part (split (trim_char b'/' raw_path) b'/') in
    if all_digits last then last else []

-- the digits at the end of a text, reversed, and what stands before them, reversed
unfoldable pub digits_first : Text → Text × Text
digits_first [] = ([], [])
digits_first (c ∷ s) =
    let (digits, rest) = digits_first s in
    if leb b'0' c && leb c b'9' then (c ∷ digits, rest) else ([], c ∷ s)

abbrev before_suffix : Text → Bool
before_suffix [] = true
before_suffix (c ∷ s) = eqb c b'-' || eqb c b'/'

unfoldable pub trailing_numeric_suffix : Text → Text
unfolding digits_first
trailing_numeric_suffix raw =
    let (digits, rest) = digits_first (reverse (trim_space raw)) in
    if before_suffix rest then reverse digits else []

module _ (urls : UrlPackage) where
  open urls use {
    Url, parse, scheme, host, hostname, path, escaped_path, set_scheme, set_host, set_path,
    clear_fragment, to_string,
  }

  abbrev builtin_key_of : Option Url → Text
  builtin_key_of none = []
  builtin_key_of (some u) =
      let id = trailing_numeric_path_segment (escaped_path u) in
      if is_empty (host u) || not (is_builtin_host (hostname u))
      then []
      else if is_empty id || not (is_builtin_job_detail_path (escaped_path u))
      then []
      else codes "builtin:" ++ id

  unfoldable pub builtin_job_dedupe_key : Text → Text
  builtin_job_dedupe_key raw_url = builtin_key_of (parse (trim_space raw_url))

  abbrev linkedin_parts : List Text → Text
  linkedin_parts (jobs ∷ view ∷ last ∷ rest) =
      let id = trailing_numeric_suffix last in
      if not (equal_fold jobs (codes "jobs")) || not (equal_fold view (codes "view"))
      then []
      else if is_empty id
      then []
      else codes "linkedin:" ++ id
  linkedin_parts _ = []

  abbrev linkedin_key_of : Option Url → Text
  linkedin_key_of none = []
  linkedin_key_of (some u) =
      if is_empty (host u) || not (is_linkedin_host (hostname u))
      then []
      else linkedin_parts (split (trim_char b'/' (escaped_path u)) b'/')

  unfoldable pub linkedin_job_dedupe_key : Text → Text
  linkedin_job_dedupe_key raw_url = linkedin_key_of (parse (trim_space raw_url))

  unfoldable pub canonical_apply_url_looks_job_specific : Url → Job → Bool
  canonical_apply_url_looks_job_specific u job =
      let p = to_lower (trim_char b'/' (escaped_path u)) in
      let slug = slugify job.title in
      let h = to_lower (trim_prefix (hostname u) (codes "www.")) in
      not (is_empty p)
      && (contains p (codes "job")
          || contains p (codes "career")
          || contains p (codes "position")
          || contains p (codes "opening")
          || looks_like_job_title
              (replace_all b'/' b' ' (replace_all b'_' b' ' (replace_all b'-' b' ' p)))
          || not (is_empty slug) && contains p slug
          || is_indeed_host h
          || is_linkedin_host h
          || is_shared_ats_directory_host h)

  -- the parsed URL with its scheme and host in lower case, no fragment and no slash at the end
  unfoldable pub canonical_url : Url → Url
  canonical_url u =
      let v = clear_fragment (set_host (to_lower (host u)) (set_scheme (to_lower (scheme u)) u)) in
      set_path (trim_right_char b'/' (path v)) v

  abbrev canonical_key_of : Job → Option Url → Text
  canonical_key_of job none = []
  canonical_key_of job (some u) =
      if is_empty (host u)
      then []
      else if not (scheme u == codes "http") && not (scheme u == codes "https")
      then []
      else if canonical_apply_url_looks_job_specific (canonical_url u) job
      then codes "url:" ++ to_string (canonical_url u)
      else []

  unfoldable pub canonical_apply_url_dedupe_key : Job → Text
  canonical_apply_url_dedupe_key job = canonical_key_of job (parse (trim_space job.apply_url))

  unfoldable pub fetched_job_dedupe_key : Job → Text
  fetched_job_dedupe_key job =
      let builtin = builtin_job_dedupe_key job.apply_url in
      let linkedin = linkedin_job_dedupe_key job.apply_url in
      let canonical = canonical_apply_url_dedupe_key job in
      let key = job_merge_key job in
      if not (is_empty builtin)
      then builtin
      else if not (is_empty linkedin)
      then linkedin
      else if not (is_empty canonical)
      then canonical
      else if key == codes "|"
      then []
      else codes "job:" ++ key
