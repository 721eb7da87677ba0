-- ===== src/Domain/Titles.antt =====
-- internal/domain/title_terms.go: the titles and the prefixes of titles that are looked for.
pub mod Names
pub mod Nouns
use jobscout.Prelude.{
  ℕ, zero, suc, ◌-◌, String, Bool, true, false, not, ◌||◌, List, [], ◌∷◌, ◌++◌, map, length,
  is_empty, eqb, ltb, if◌then◌else◌,
}
use jobscout.Text.{
  Text, codes, ◌==◌, trim_left, trim_right, trim_space, to_lower, to_upper, has_prefix, contains,
  replace_all, fields, join,
}
use jobscout.Domain.Unique.{seen_in}
use jobscout.Domain.Location.{is_one, utf8_length}
use jobscout.Domain.RoleFamily.{normalize_role_families}

-- strings.Trim by a predicate
abbrev pub trim_by : (ℕ → Bool) → Text → Text
trim_by p s = trim_right p (trim_left p s)

-- strings.ReplaceAll; `n` code points of the text that was replaced are still to be skipped
unfoldable pub replace_from : Text → Text → ℕ → Text → Text
replace_from old new n [] = []
replace_from old new (suc n) (c ∷ s) = replace_from old new n s
replace_from old new zero (c ∷ s) =
    let replaced = new ++ replace_from old new (length old - 1) s in
    let kept = c ∷ replace_from old new zero s in if has_prefix (c ∷ s) old then replaced else kept

abbrev replace : String → String → Text → Text
replace old new s = replace_from (codes old) (codes new) zero s

-- What strings.ToUpper and strings.ToLower make of bytes that are no UTF-8.
abbrev replacement : ℕ → Text
replacement zero = []
replacement (suc n) = 0xFFFD ∷ replacement n

-- strings.ToUpper(part[:1]) + strings.ToLower(part[1:]), where part[:1] is one byte
unfoldable pub capitalize : Text → Text
capitalize [] = []
capitalize (c ∷ s) =
    (if ltb c 0x80 then to_upper (c ∷ []) else replacement (utf8_length c)) ++ to_lower s

abbrev title_part : Text → Text
title_part part =
    let p = to_lower part in
    if p == codes "ai"
    then codes "AI"
    else if p == codes "ml"
    then codes "ML"
    else if p == codes "sre"
    then codes "SRE"
    else capitalize part

unfoldable pub title_case_title_term : Text → Text
unfolding capitalize
title_case_title_term value =
    join (codes " ") (map title_part (fields (replace_all b'-' b' ' value)))

unfoldable pub normalize_title_prefix : Text → Text
unfolding title_case_title_term
normalize_title_prefix raw =
    let trimmed = to_lower (trim_space (trim_by (λ c. eqb c b'.' || eqb c b' ') raw)) in
    let spaced = replace_all b'-' b' ' (replace_all b'_' b' ' trimmed) in
    let value = join (codes " ") (fields spaced) in
    if is_empty value
      || is_one value
          ("mid" ∷ "mid level" ∷ "midlevel" ∷ "dev" ∷ "developer" ∷ "eng" ∷ "engineer" ∷ [])
    then []
    else if is_one value ("jr" ∷ "junior" ∷ [])
    then codes "Junior"
    else if is_one value ("sr" ∷ "senior" ∷ [])
    then codes "Senior"
    else if value == codes "staff"
    then codes "Staff"
    else if value == codes "principal"
    then codes "Principal"
    else title_case_title_term value

unfoldable pub normalize_title_token : Text → Text
unfolding title_case_title_term
normalize_title_token token =
    let cleaned = replace_all b'_' b'-' (to_lower (trim_space token)) in
    if is_one cleaned ("dev" ∷ "dev." ∷ [])
    then codes "Developer"
    else if is_one cleaned ("eng" ∷ "eng." ∷ [])
    then codes "Engineer"
    else if is_one cleaned ("jr" ∷ "jr." ∷ [])
    then codes "Junior"
    else if is_one cleaned ("sr" ∷ "sr." ∷ [])
    then codes "Senior"
    else if is_one cleaned ("front-end" ∷ "frontend" ∷ [])
    then codes "Frontend"
    else if is_one cleaned ("back-end" ∷ "backend" ∷ [])
    then codes "Backend"
    else if is_one cleaned ("full-stack" ∷ "fullstack" ∷ [])
    then codes "Full Stack"
    else if cleaned == codes "devops"
    then codes "DevOps"
    else if cleaned == codes "sre"
    then codes "SRE"
    else if cleaned == codes "ai"
    then codes "AI"
    else if cleaned == codes "ml"
    then codes "ML"
    else title_case_title_term cleaned

-- the map `replacements`, in the order in which the source writes it
unfoldable pub normalize_title_phrases : Text → Text
unfolding replace_from
normalize_title_phrases title =
    replace "Fullstack" "Full Stack"
      (replace "Back End" "Backend" (replace "Front End" "Frontend" title))
