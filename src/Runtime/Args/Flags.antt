-- ===== src/Runtime/Args/Flags.antt =====
-- The two forms of a flag with a value, and what a value must be.
use jobscout.Prelude.{
  ℕ, ◌≡◌, ◌≤◌, true, false, List, [], ◌∷◌, ◌++◌, Option, none, some, arith, Result, ok, ◌>>=◌,
}
use jobscout.Prelude.Int.{pos}
use jobscout.Text.{Text, codes, ◌==◌, has_prefix, trim_prefix, trim_space}
use jobscout.Text.Number.{max_int, atoi}
use jobscout.Runtime.Args.{
  Options, ArgError, parse_non_negative_int_flag, parse_arg, parse_from, set_config, set_sources,
  set_candidate_limit, set_accepted_limit,
}

-- An argument `flag=value` is read as `flag` followed by `value`, if both forms do with `value`
-- the same.
abbrev SameForms : Text → (Options → Text → Result ArgError Options) → Type 0
SameForms flag set_value =
    (o : Options) (v : Text) (next : Option Text)
    → (parse_arg o (flag ++ codes "=" ++ v) next ≡ (set_value o v >>= λ o'. ok (o', false)))
      × (parse_arg o flag (some v) ≡ (set_value o v >>= λ o'. ok (o', true)))

config-SameForms : SameForms (codes "--config") set_config
unfolding parse_arg ◌==◌ has_prefix trim_prefix
config-SameForms o v next = ground arith

sources-SameForms : SameForms (codes "--sources") set_sources
unfolding parse_arg ◌==◌ has_prefix trim_prefix
sources-SameForms o v next = ground arith

candidate_limit-SameForms : SameForms (codes "--candidate-limit") set_candidate_limit
unfolding parse_arg ◌==◌ has_prefix trim_prefix
candidate_limit-SameForms o v next = ground arith

accepted_limit-SameForms : SameForms (codes "--accepted-limit") set_accepted_limit
unfolding parse_arg ◌==◌ has_prefix trim_prefix
accepted_limit-SameForms o v next = ground arith

parse_from_one_form :
    (flag : Text) (set_value : Options → Text → Result ArgError Options)
    → SameForms flag set_value
    → (o : Options) (v : Text) (post : List Text)
    → parse_from o ((flag ++ codes "=" ++ v) ∷ post) ≡ parse_from o (flag ∷ v ∷ post)
unfolding parse_from
parse_from_one_form flag set_value same o v [] =
    rw ((same o v none).0, (same o v none).1, parse_from) (ground arith)
parse_from_one_form flag set_value same o v (next ∷ post) =
    rw ((same o v (some next)).0, (same o v (some next)).1, parse_from) (ground arith)

abbrev pub OneForm : Text → Options → Text → List Text → Type 0
OneForm flag o v post =
    parse_from o ((flag ++ codes "=" ++ v) ∷ post) ≡ parse_from o (flag ∷ v ∷ post)

-- Wherever the parser stands, `--config=v` and `--config v` have the same outcome, error or not,
-- for every value and whatever follows; so have the two forms of the flags `--sources`,
-- `--candidate-limit` and `--accepted-limit`.
pub parse_from_forms :
    (o : Options) (v : Text) (post : List Text)
    → OneForm (codes "--config") o v post
      × OneForm (codes "--sources") o v post
      × OneForm (codes "--candidate-limit") o v post
      × OneForm (codes "--accepted-limit") o v post
parse_from_forms o v post = (
  parse_from_one_form _ _ config-SameForms o v post,
  parse_from_one_form _ _ sources-SameForms o v post,
  parse_from_one_form _ _ candidate_limit-SameForms o v post,
  parse_from_one_form _ _ accepted_limit-SameForms o v post,
)

atoi-le-max_int : (s : Text) (n : ℕ) → atoi s ≡ some (pos n) → n ≤ max_int
unfolding atoi
atoi-le-max_int [] n h = cc
atoi-le-max_int (c ∷ s) n h = ground arith

-- A limit is accepted only if it is a decimal number of Go's `int` and not negative.
pub parse_non_negative_int_flag-le :
    (name raw : Text) (n : ℕ) → parse_non_negative_int_flag name raw ≡ ok n → n ≤ max_int
unfolding parse_non_negative_int_flag
parse_non_negative_int_flag-le name raw n h = ground (arith, atoi-le-max_int (trim_space raw) n)
