-- ===== src/Domain/Website.antt =====
-- The tests on a company's website of internal/domain/job_merge.go. `parse_url` stands
-- for `url.Parse`: its scheme, host and escaped path, or none on an error.
use jobscout.Prelude.{
  Bool, false, not, ◌&&◌, ◌||◌, List, [], ◌∷◌, ◌++◌, Option, none, some, is_empty,
}
use jobscout.Text.{
  Text, codes, ◌==◌, to_lower, has_prefix, has_suffix, trim_prefix, contains, equal_fold,
}
use jobscout.Domain.Job.{is_blank}

pub record Url : Type 0 where
  pub scheme : Text
  pub host : Text
  pub escaped_path : Text

-- a loop that returns at the first item that passes
unfoldable pub any : {A : Type 0} → (A → Bool) → List A → Bool
any p [] = false
any p (x ∷ xs) = p x || any p xs

abbrev blocked_prefixes : List Text
blocked_prefixes =
    codes "click."
    ∷ codes "clicks."
    ∷ codes "docs."
    ∷ codes "email."
    ∷ codes "help."
    ∷ codes "link."
    ∷ codes "links."
    ∷ codes "support."
    ∷ codes "track."
    ∷ codes "tracking."
    ∷ codes "trk."
    ∷ []

abbrev blocked_exact : List Text
blocked_exact =
    codes "app.link"
    ∷ codes "avatars.githubusercontent.com"
    ∷ codes "bit.ly"
    ∷ codes "bnc.lt"
    ∷ codes "branch.io"
    ∷ codes "cdn.segment.com"
    ∷ codes "cdnjs.cloudflare.com"
    ∷ codes "cdn.jsdelivr.net"
    ∷ codes "cdn.optimizely.com"
    ∷ codes "cdn.sift.com"
    ∷ codes "docs.github.com"
    ∷ codes "dol.gov"
    ∷ codes "facebook.com"
    ∷ codes "fonts.googleapis.com"
    ∷ codes "fonts.gstatic.com"
    ∷ codes "gmpg.org"
    ∷ codes "googletagmanager.com"
    ∷ codes "instagram.com"
    ∷ codes "job-boards.greenhouse.io"
    ∷ codes "jobs.ashbyhq.com"
    ∷ codes "jobs.lever.co"
    ∷ codes "linktr.ee"
    ∷ codes "linkedin.com"
    ∷ codes "lnkd.in"
    ∷ codes "netflixhouse.com"
    ∷ codes "onelink.me"
    ∷ codes "pagead2.googlesyndication.com"
    ∷ codes "q.stripe.com"
    ∷ codes "cybersecurityjobslist.com"
    ∷ codes "t.co"
    ∷ codes "tinyurl.com"
    ∷ codes "twitter.com"
    ∷ codes "x.com"
    ∷ codes "youtu.be"
    ∷ codes "youtube.com"
    ∷ []

abbrev blocked_parts : List Text
blocked_parts =
    codes "ashbyprd.com"
    ∷ codes "cloudflare.com"
    ∷ codes "cloudfront.net"
    ∷ codes "phenompeople.com"
    ∷ codes "static.vscdn.net"
    ∷ codes "website-files.com"
    ∷ codes "workdayjobs.com"
    ∷ []

unfoldable pub blocked_company_website_host : Text → Bool
unfolding any
blocked_company_website_host raw =
    let host = to_lower (trim_prefix raw (codes "www.")) in
    any (has_prefix host) blocked_prefixes
    || has_prefix host (codes "go2.")
    || any (λ blocked. host == blocked || has_suffix host (codes "." ++ blocked)) blocked_exact
    || any (contains host) blocked_parts

abbrev asset_suffixes : List Text
asset_suffixes =
    codes ".apng"
    ∷ codes ".avif"
    ∷ codes ".css"
    ∷ codes ".gif"
    ∷ codes ".ico"
    ∷ codes ".jpg"
    ∷ codes ".jpeg"
    ∷ codes ".js"
    ∷ codes ".json"
    ∷ codes ".pdf"
    ∷ codes ".png"
    ∷ codes ".svg"
    ∷ codes ".ttf"
    ∷ codes ".webp"
    ∷ codes ".woff"
    ∷ codes ".woff2"
    ∷ []

abbrev path_parts : List Text
path_parts =
    codes "/apple-icon"
    ∷ codes "/favicon"
    ∷ codes "/icon-"
    ∷ codes "/privacy"
    ∷ codes "/legal"
    ∷ codes "/site-policy"
    ∷ []

-- the tests on the parsed website, before the apply URL is looked at
unfoldable pub website_url_refused : Url → Bool
unfolding any blocked_company_website_host
website_url_refused u =
    let path = to_lower u.escaped_path in
    is_empty u.host
    || not (u.scheme == codes "http") && not (u.scheme == codes "https")
    || contains (to_lower u.host) (codes "weworkremotely.com")
    || blocked_company_website_host u.host
    || any (has_suffix path) asset_suffixes
    || any (contains path) path_parts
    || has_prefix path (codes "/docs")
    || has_prefix path (codes "/documentation")
    || has_prefix path (codes "/support")

module _ (parse_url : Text → Option Url) where
  abbrev same_host : Url → Option Url → Bool
  same_host u none = false
  same_host u (some applied) = equal_fold u.host applied.host

  abbrev accepts : Option Url → Option Url → Bool
  accepts none applied = false
  accepts (some u) applied = not (website_url_refused u) && not (same_host u applied)

  unfoldable pub looks_like_company_website : Text → Text → Bool
  unfolding website_url_refused
  looks_like_company_website candidate apply_url =
      accepts (parse_url candidate) (parse_url apply_url)

  unfoldable pub website_missing_or_invalid : Text → Bool
  website_missing_or_invalid website =
      is_blank website || not (looks_like_company_website website [])
