-- ===== src/Text.antt =====
-- Go's strings as the sequences of their code points, with what the program uses of the packages
-- `strings` and `unicode`. Case mapping is that of the first 256 code points; the others stand
-- for themselves.
pub mod Case
pub mod Equality
pub mod Fields
pub mod Dict
pub mod Number
pub mod Order
pub mod Parts
pub mod Trim
use Prim.Native.Char.{code}
use jobscout.Prelude.{
  ℕ, ◌+◌, ◌-◌, String, Bool, true, false, not, ◌&&◌, ◌||◌, List, [], ◌∷◌, ◌++◌, map, leb, eqb,
  is_empty, if◌then◌else◌,
}
use mathlib.Core.List.{reverse}

abbrev pub Text : Type 0
Text = List ℕ

-- A text literal.
abbrev pub codes : String → Text
codes String.[] = []
codes (String.◌∷◌ c s) = code c ∷ codes s

infix 50 ◌==◌
unfoldable pub ◌==◌ : Text → Text → Bool
[] == [] = true
(x ∷ xs) == (y ∷ ys) = eqb x y && (xs == ys)
_ == _ = false

abbrev between : ℕ → ℕ → ℕ → Bool
between lo hi c = leb lo c && leb c hi

-- unicode.IsSpace
unfoldable pub is_space : ℕ → Bool
is_space c =
    between 9 13 c
    || eqb c 32
    || eqb c 0x85
    || eqb c 0xA0
    || eqb c 0x1680
    || between 0x2000 0x200A c
    || between 0x2028 0x2029 c
    || eqb c 0x202F
    || eqb c 0x205F
    || eqb c 0x3000

-- unicode.ToLower below 256
unfoldable pub lower : ℕ → ℕ
lower c = if between b'A' b'Z' c || between 0xC0 0xD6 c || between 0xD8 0xDE c then c + 32 else c

-- unicode.ToUpper below 256, where two code points have their upper case outside
unfoldable pub upper : ℕ → ℕ
upper c =
    if between b'a' b'z' c || between 0xE0 0xF6 c || between 0xF8 0xFE c
    then c - 32
    else if eqb c 0xFF
    then 0x178
    else if eqb c 0xB5
    then 0x39C
    else c

-- strings.ToLower, strings.ToUpper
unfoldable pub to_lower : Text → Text
to_lower = map lower

unfoldable pub to_upper : Text → Text
to_upper = map upper

-- strings.TrimLeft and strings.TrimRight by a predicate
unfoldable pub trim_left : (ℕ → Bool) → Text → Text
trim_left p [] = []
trim_left p (c ∷ s) = let rest = trim_left p s in if p c then rest else c ∷ s

unfoldable pub trim_right : (ℕ → Bool) → Text → Text
trim_right p [] = []
trim_right p (c ∷ s) = let rest = trim_right p s in if p c && is_empty rest then [] else c ∷ rest

-- strings.TrimSpace
unfoldable pub trim_space : Text → Text
unfolding trim_left trim_right is_space
trim_space s = trim_right is_space (trim_left is_space s)

-- strings.HasPrefix, strings.TrimPrefix
unfoldable pub has_prefix : Text → Text → Bool
has_prefix s [] = true
has_prefix [] (p ∷ ps) = false
has_prefix (c ∷ s) (p ∷ ps) = eqb c p && has_prefix s ps

abbrev strip : Text → Text → Text
strip s [] = s
strip [] (p ∷ ps) = []
strip (c ∷ s) (p ∷ ps) = strip s ps

unfoldable pub trim_prefix : Text → Text → Text
unfolding has_prefix
trim_prefix s p = if has_prefix s p then strip s p else s

-- strings.HasSuffix
unfoldable pub has_suffix : Text → Text → Bool
unfolding has_prefix
has_suffix s p = has_prefix (reverse s) (reverse p)

-- strings.EqualFold below 256
unfoldable pub equal_fold : Text → Text → Bool
equal_fold s t = to_lower s == to_lower t

-- strings.Contains
unfoldable pub contains : Text → Text → Bool
unfolding has_prefix
contains [] p = has_prefix [] p
contains (c ∷ s) p = has_prefix (c ∷ s) p || contains s p

-- strings.Split by one code point; the text so far is held back
unfoldable pub split_from : ℕ → Text → Text → List Text
split_from sep cur [] = cur ∷ []
split_from sep cur (c ∷ s) =
    let closed = cur ∷ split_from sep [] s in
    let longer = split_from sep (cur ++ c ∷ []) s in if eqb c sep then closed else longer

unfoldable pub split : Text → ℕ → List Text
unfolding split_from
split s sep = split_from sep [] s

-- strings.ReplaceAll of one code point
unfoldable pub replace_all : ℕ → ℕ → Text → Text
replace_all old new = map (λ c. if eqb c old then new else c)

-- strings.Fields: the texts between white space; `cur` is the one being read
abbrev flush : Text → List Text → List Text
flush [] rest = rest
flush (c ∷ cur) rest = (c ∷ cur) ∷ rest

fields_from : Text → Text → List Text
fields_from cur [] = flush cur []
fields_from cur (c ∷ s) =
    let closed = flush cur (fields_from [] s) in
    let longer = fields_from (cur ++ c ∷ []) s in if is_space c then closed else longer

unfoldable pub fields : Text → List Text
unfolding fields_from is_space
fields s = fields_from [] s

-- strings.Join
unfoldable pub join : Text → List Text → Text
join sep [] = []
join sep (s ∷ []) = s
join sep (s ∷ t ∷ rest) = s ++ (sep ++ join sep (t ∷ rest))

-- strings.Trim, strings.TrimRight of one code point
unfoldable pub trim_char : ℕ → Text → Text
unfolding trim_left trim_right
trim_char c s = trim_right (eqb c) (trim_left (eqb c) s)

unfoldable pub trim_right_char : ℕ → Text → Text
unfolding trim_right
trim_right_char c s = trim_right (eqb c) s

-- every code point is a decimal digit
unfoldable pub all_digits : Text → Bool
all_digits [] = true
all_digits (c ∷ s) = leb b'0' c && leb c b'9' && all_digits s
