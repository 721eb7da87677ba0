-- ===== src/Examples/RuntimeRuns.antt =====
-- The command line.
use jobscout.Prelude.{◌≡◌, refl, true, [], ◌∷◌, ok, err}
use jobscout.Text.{
  codes, ◌==◌, lower, to_lower, trim_space, has_prefix, trim_prefix, split, replace_all,
}
use jobscout.Text.Number.{atoi}
use jobscout.Domain.Unique.{seen_in}
use jobscout.Runtime.Args.{
  Paths, sources_unsupported, non_negative_integer, default_options, parse_non_negative_int_flag,
  parse_source_selection, normalize_source_name, is_valid_source_name, parse_arg, parse_args,
  is_command,
}
use jobscout.Runtime.Args.Flags.{OneForm, parse_from_forms}
use jobscout.Runtime.Args.Sources.{IsSelection, Covers, parse_source_selection-IsSelection}

abbrev paths : Paths
paths = record { config = codes "c"; search_prompt = codes "p"; sqlite = codes "s" }

-- A repeated source is taken once, and `-` is read as `_`.
sources :
    parse_source_selection (codes "Feeds, web-search,rss,,")
    ≡ ok (codes "rss" ∷ codes "llm_web" ∷ [])
unfolding parse_source_selection normalize_source_name seen_in ◌==◌ to_lower lower trim_space split
    replace_all is_valid_source_name
sources = refl

unsupported : parse_source_selection (codes "rss, ftp") ≡ err (sources_unsupported (codes "ftp"))
unfolding parse_source_selection normalize_source_name seen_in ◌==◌ to_lower lower trim_space split
    replace_all is_valid_source_name
unsupported = refl

-- A number that is too large for an `int` is no limit.
too_large :
    parse_non_negative_int_flag (codes "--accepted-limit") (codes "9223372036854775808")
    ≡ err (non_negative_integer (codes "--accepted-limit"))
unfolding parse_non_negative_int_flag atoi trim_space
too_large = refl

command :
    parse_args paths
      (codes "jobscout" ∷ codes "x" ∷ codes "--import" ∷ codes "f.csv" ∷ codes "--debug" ∷ [])
    ≡ ok (record (default_options paths) {
      debug = true;
      command = codes "--import";
      command_args = codes "f.csv" ∷ [];
    })
unfolding parse_args parse_arg is_command ◌==◌ has_prefix trim_prefix
command = refl

parse_from_forms_example :
    OneForm (codes "--config") (default_options paths) (codes "x.json") (codes "--debug" ∷ [])
    × OneForm (codes "--sources") (default_options paths) (codes "x.json") (codes "--debug" ∷ [])
    × OneForm
        (codes "--candidate-limit")
        (default_options paths)
        (codes "x.json")
        (codes "--debug" ∷ [])
    × OneForm
        (codes "--accepted-limit")
        (default_options paths)
        (codes "x.json")
        (codes "--debug" ∷ [])
parse_from_forms_example =
    parse_from_forms (default_options paths) (codes "x.json") (codes "--debug" ∷ [])

parse_source_selection-IsSelection_example :
    IsSelection (codes "rss" ∷ codes "llm_web" ∷ [])
    × Covers
        (split (trim_space (codes "Feeds, web-search,rss,,")) b',')
        (codes "rss" ∷ codes "llm_web" ∷ [])
parse_source_selection-IsSelection_example =
    parse_source_selection-IsSelection (codes "Feeds, web-search,rss,,")
      (codes "rss" ∷ codes "llm_web" ∷ []) sources
