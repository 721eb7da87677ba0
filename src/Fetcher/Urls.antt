-- ===== src/Fetcher/Urls.antt =====
-- What internal/fetcher uses of the package `net/url`: a parser and the parts of an URL, each of
-- which may be read and some of which may be set before the URL is written out again.
use jobscout.Prelude.{Option, none, some, List}
use jobscout.Text.{Text}
use jobscout.Text.Dict.{Dict}
use jobscout.Domain.Website as Site

pub record UrlPackage : Type 1 where
  pub Url : Type 0
  pub parse : Text → Option Url
  pub scheme : Url → Text
  pub host : Url → Text
  pub hostname : Url → Text
  pub path : Url → Text
  pub escaped_path : Url → Text
  pub set_scheme : Text → Url → Url
  pub set_host : Text → Url → Url
  pub set_path : Text → Url → Url
  pub clear_fragment : Url → Url
  pub to_string : Url → Text
  pub query : Url → Dict Text (List Text)
  pub set_raw_query : Text → Url → Url
  pub query_escape : Text → Text

module _ (urls : UrlPackage) where
  abbrev parts : Option urls.Url → Option Site.Url
  parts none = none
  parts (some u) =
      some
        (record { scheme = urls.scheme u; host = urls.host u; escaped_path = urls.escaped_path u })

  -- the parser that internal/domain uses
  abbrev pub site_parse : Text → Option Site.Url
  site_parse raw = parts (urls.parse raw)
