-- ===== src/Runtime/Args.antt =====
-- internal/runtime/args.go: the command line. The default paths, which the environment decides,
-- come in with the options that parsing starts from.
pub mod Flags
pub mod Sources
pub mod Positional
use jobscout.Prelude.{
  ℕ, Bool, true, false, ◌&&◌, ◌||◌, List, [], ◌∷◌, ◌++◌, Option, none, some, Result, ok, err, ◌>>=◌,
  is_empty, if◌then◌else◌,
}
use jobscout.Prelude.Int.{ℤ, pos, negsuc}
use jobscout.Text.{
  Text, codes, ◌==◌, to_lower, trim_space, has_prefix, trim_prefix, split, replace_all,
}
use jobscout.Text.Number.{atoi}
use jobscout.Domain.Unique.{seen_in}

pub record Paths : Type 0 where
  pub config : Text
  pub search_prompt : Text
  pub sqlite : Text

-- `nil` of a limit is none; `nil` of the selection is the empty list.
pub record Options : Type 0 where
  pub paths : Paths
  pub debug : Bool
  pub demo : Bool
  pub source_selection : List Text
  pub candidate_limit_per_source : Option ℕ
  pub accepted_limit : Option ℕ
  pub command : Text
  pub command_args : List Text

-- The messages of the errors, with the part of the input that they quote.
pub data ArgError : Type 0 where
  config_path criteria_removed sources_list sources_empty migrate_removed : ArgError
  sources_unsupported : Text → ArgError
  non_negative_integer : Text → ArgError

-- parseNonNegativeIntFlag
abbrev non_negative : Text → Option ℤ → Result ArgError ℕ
non_negative name none = err (non_negative_integer name)
non_negative name (some (pos n)) = ok n
non_negative name (some (negsuc n)) = err (non_negative_integer name)

unfoldable pub parse_non_negative_int_flag : Text → Text → Result ArgError ℕ
parse_non_negative_int_flag name raw =
    let value_text = trim_space raw in
    if is_empty value_text
    then err (non_negative_integer name)
    else non_negative name (atoi value_text)

unfoldable pub is_command : Text → Bool
is_command arg =
    arg == codes "-i"
    || arg == codes "--import"
    || arg == codes "--fetch-dry-run"
    || arg == codes "--export-json"
    || arg == codes "--bench-llm"
    || arg == codes "--bench-report"
    || arg == codes "--repair-job-identity"
    || arg == codes "--delete-db"
    || arg == codes "--help"
    || arg == codes "-h"
    || arg == codes "--version"
    || arg == codes "-v"

unfoldable pub normalize_source_name : Text → Text
normalize_source_name value =
    let source = replace_all b'-' b'_' (to_lower (trim_space value)) in
    if source == codes "feed" || source == codes "feeds"
    then codes "rss"
    else if source == codes "apis"
    then codes "api"
    else if source == codes "sites"
        || source == codes "site_search"
        || source == codes "site_searches"
    then codes "site"
    else if source == codes "web_search" || source == codes "llm_web_search"
    then codes "llm_web"
    else if source == codes "llm_job_search" || source == codes "llm_search"
    then codes "llm"
    else source

unfoldable pub is_valid_source_name : Text → Bool
is_valid_source_name source =
    source == codes "rss"
    || source == codes "api"
    || source == codes "site"
    || source == codes "llm"
    || source == codes "llm_web"

-- the loop of parseSourceSelection: `none` is the early return at "all"
unfoldable pub select_from : List Text → List Text → Result ArgError (Option (List Text))
select_from sources [] = ok (some sources)
select_from sources (part ∷ parts) =
    let source = normalize_source_name part in
    let skip = select_from sources parts in
    let keep = select_from (sources ++ source ∷ []) parts in
    if is_empty source
    then skip
    else if source == codes "all"
    then ok none
    else if is_valid_source_name source
    then (if seen_in source sources then skip else keep)
    else err (sources_unsupported (trim_space part))

abbrev selected : Option (List Text) → Result ArgError (List Text)
selected none = ok []
selected (some []) = err sources_empty
selected (some (s ∷ ss)) = ok (s ∷ ss)

unfoldable pub parse_source_selection : Text → Result ArgError (List Text)
unfolding select_from
parse_source_selection value =
    let raw = trim_space value in
    if is_empty raw then err sources_list else select_from [] (split raw b',') >>= selected

-- What a flag does with its value, in either of its forms.
unfoldable pub set_config : Options → Text → Result ArgError Options
set_config o raw =
    let path = trim_space raw in
    if is_empty path
    then err config_path
    else ok (record o { paths = record o.paths { config = path } })

unfoldable pub set_sources : Options → Text → Result ArgError Options
set_sources o raw = do
  sources ← parse_source_selection raw
  ok (record o { source_selection = sources })

unfoldable pub set_candidate_limit : Options → Text → Result ArgError Options
set_candidate_limit o raw = do
  value ← parse_non_negative_int_flag (codes "--candidate-limit") raw
  ok (record o { candidate_limit_per_source = some value })

unfoldable pub set_accepted_limit : Options → Text → Result ArgError Options
set_accepted_limit o raw = do
  value ← parse_non_negative_int_flag (codes "--accepted-limit") raw
  ok (record o { accepted_limit = some value })

-- What an argument did: the options after it, and whether it took the next argument too.
abbrev pub Step : Type 0
Step = Result ArgError (Options × Bool)

abbrev alone : Result ArgError Options → Step
alone (ok o) = ok (o, false)
alone (err e) = err e

-- `if i+1 >= len(args)` fails with `missing`; otherwise the value is `args[i+1]`
abbrev with_next : ArgError → (Text → Result ArgError Options) → Option Text → Step
with_next missing use_value none = err missing
with_next missing use_value (some value) = do o ← use_value value; ok (o, true)

-- the cases of the switch in ParseArgs, in their order
unfoldable pub parse_arg : Options → Text → Option Text → Step
parse_arg o arg next =
    if arg == codes "--help" || arg == codes "-h"
    then ok (record o { command = codes "--help" }, false)
    else if arg == codes "--version" || arg == codes "-v"
    then ok (record o { command = codes "--version" }, false)
    else if arg == codes "--demo"
    then ok (record o { demo = true }, false)
    else if arg == codes "-d" || arg == codes "--debug"
    then ok (record o { debug = true }, false)
    else if has_prefix arg (codes "--config=")
    then alone (set_config o (trim_prefix arg (codes "--config=")))
    else if has_prefix arg (codes "--criteria=")
    then err criteria_removed
    else if has_prefix arg (codes "--sources=")
    then alone (set_sources o (trim_prefix arg (codes "--sources=")))
    else if has_prefix arg (codes "--candidate-limit=")
    then alone (set_candidate_limit o (trim_prefix arg (codes "--candidate-limit=")))
    else if has_prefix arg (codes "--accepted-limit=")
    then alone (set_accepted_limit o (trim_prefix arg (codes "--accepted-limit=")))
    else if arg == codes "--config"
    then with_next config_path (set_config o) next
    else if arg == codes "--criteria"
    then err criteria_removed
    else if arg == codes "--sources"
    then with_next sources_list (set_sources o) next
    else if arg == codes "--candidate-limit"
    then with_next (non_negative_integer (codes "--candidate-limit")) (set_candidate_limit o) next
    else if arg == codes "--accepted-limit"
    then with_next (non_negative_integer (codes "--accepted-limit")) (set_accepted_limit o) next
    else if arg == codes "--migrate"
    then err migrate_removed
    else if is_command arg
    then ok (record o { command = arg }, false)
    else if is_empty o.command
    then ok (o, false)
    else ok (record o { command_args = o.command_args ++ arg ∷ [] }, false)

-- the loop over `args[1:]`
unfoldable pub parse_from : Options → List Text → Result ArgError Options
parse_from o [] = ok o
parse_from o (arg ∷ []) = do (o', _) ← parse_arg o arg none; ok o'
parse_from o (arg ∷ next ∷ rest) = do
  (o', taken) ← parse_arg o arg (some next)
  elim taken [ true ↦ parse_from o' rest | false ↦ parse_from o' (next ∷ rest) ]

abbrev pub default_options : Paths → Options
default_options paths = record {
  paths = paths;
  debug = false;
  demo = false;
  source_selection = [];
  candidate_limit_per_source = none;
  accepted_limit = none;
  command = [];
  command_args = [];
}

-- `args[0]` is the program's name
unfoldable pub parse_args : Paths → List Text → Result ArgError Options
unfolding parse_from
parse_args defaults [] = ok (default_options defaults)
parse_args defaults (name ∷ args) = parse_from (default_options defaults) args
