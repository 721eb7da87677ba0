-- ===== src/Runtime/Args/Positional.antt =====
-- Arguments that are no flags.
use jobscout.Prelude.{
  ◌≡◌, refl, ap, ◌∙◌, false, List, [], ◌∷◌, ◌++◌, append_assoc, append-nil, Option, none, some,
  arith, ok, eqb, is_empty, All, if◌then◌else◌,
}
use jobscout.Text.{Text, ◌==◌, has_prefix, trim_prefix}
use jobscout.Runtime.Args.{Options, is_command, parse_arg, parse_from}

-- An argument that does not begin with a dash.
abbrev pub IsPlain : Text → Type 0
IsPlain [] = Unit {0}
IsPlain (c ∷ s) = eqb c b'-' ≡ false

-- Without a command plain arguments are dropped; behind one they are its arguments.
abbrev pub given : Options → List Text → Options
given o args = if is_empty o.command then o else record o { command_args = o.command_args ++ args }

parse_arg-plain :
    (o : Options) (arg : Text) (next : Option Text)
    → IsPlain arg
    → parse_arg o arg next ≡ ok (given o (arg ∷ []), false)
unfolding parse_arg ◌==◌ has_prefix trim_prefix is_command
parse_arg-plain o [] next h = ground arith
parse_arg-plain o (c ∷ s) next h = rw h (ground arith)

given-given : (o : Options) (xs ys : List Text) → given (given o xs) ys ≡ given o (xs ++ ys)
given-given o xs ys = ground (arith, append_assoc o.command_args xs ys)

-- Plain arguments do nothing while there is no command, and are all appended to its arguments, in
-- their order, once there is one; they never fail.
pub parse_from-plain :
    (o : Options) (args : List Text) → All IsPlain args → parse_from o args ≡ ok (given o args)
unfolding parse_from
parse_from-plain o [] h = ground (arith, append-nil o.command_args)
parse_from-plain o (arg ∷ []) (h, _) = rw (parse_arg-plain o arg none h) refl
parse_from-plain o (arg ∷ next ∷ rest) (h, k) = rw (parse_arg-plain o arg (some next) h) (
    parse_from-plain (given o (arg ∷ [])) (next ∷ rest) k
    ∙ ap ok (given-given o (arg ∷ []) (next ∷ rest)))
