-- ===== src/Domain/Titles/Names.antt =====
-- internal/domain/title_terms.go: the names of the titles, with the nouns that the role families imply.
use jobscout.Prelude.{
  ℕ, String, Bool, false, ◌||◌, List, [], ◌∷◌, ◌++◌, map, is_empty, if◌then◌else◌,
}
use jobscout.Text.{Text, codes, ◌==◌, trim_space, to_lower, contains, fields, join}
use jobscout.Domain.Unique.{seen_in}
use jobscout.Domain.Location.{is_one}
use jobscout.Domain.RoleFamily.{normalize_role_families}
use jobscout.Domain.Titles.{
  normalize_title_prefix, normalize_title_token, normalize_title_phrases, trim_by,
}

abbrev pub contains_one : Text → List Text → Bool
contains_one s [] = false
contains_one s (noun ∷ nouns) = contains s noun || contains_one s nouns

abbrev pub role_nouns : List Text
role_nouns =
    codes "administrator"
    ∷ codes "analyst"
    ∷ codes "architect"
    ∷ codes "consultant"
    ∷ codes "designer"
    ∷ codes "developer"
    ∷ codes "engineer"
    ∷ codes "manager"
    ∷ codes "scientist"
    ∷ codes "specialist"
    ∷ codes "sre"
    ∷ []

unfoldable pub title_has_role_noun : Text → Bool
title_has_role_noun title = contains_one (to_lower title) role_nouns

-- the two loops of impliedTitleNoun
abbrev pub first_special : List Text → Text
first_special [] = []
first_special (role ∷ roles) =
    if codes "product_management" == role
    then codes "Manager"
    else if codes "design" == role
    then codes "Designer"
    else first_special roles

abbrev pub engineering_roles : List Text
engineering_roles =
    codes "frontend"
    ∷ codes "backend"
    ∷ codes "fullstack"
    ∷ codes "devops_sre_systems"
    ∷ codes "ai_ml"
    ∷ codes "data"
    ∷ codes "other_specialized"
    ∷ []

abbrev pub first_engineering : List Text → Text
first_engineering [] = []
first_engineering (role ∷ roles) =
    if seen_in role engineering_roles then codes "Engineer" else first_engineering roles

unfoldable pub implied_title_noun : List Text → Text
implied_title_noun role_families =
    let roles = normalize_role_families role_families in
    let special = first_special roles in
    if is_empty special then first_engineering roles else special

unfoldable pub append_implied_title_noun : Text → List Text → Text
unfolding title_has_role_noun implied_title_noun
append_implied_title_noun title role_families =
    let noun = implied_title_noun role_families in
    if title_has_role_noun title
    then title
    else if noun == codes "Engineer"
    then title ++ codes " Engineer"
    else if noun == codes "Manager"
    then title ++ codes " Manager"
    else if noun == codes "Designer"
    then title ++ codes " Designer"
    else title

abbrev is_mark : ℕ → Bool
is_mark c = seen_in (c ∷ []) (map (λ m. m ∷ []) (codes ".,;:()[]{}"))

-- the loop over the tokens
abbrev title_tokens : List Text → List Text
title_tokens [] = []
title_tokens (token ∷ tokens) =
    let rest = title_tokens tokens in
    let trimmed = trim_by is_mark token in
    if is_empty trimmed then rest else normalize_title_token trimmed ∷ rest

unfoldable pub normalize_target_title_name : Text → List Text → Text
unfolding normalize_title_token normalize_title_phrases
normalize_target_title_name raw role_families =
    let value = trim_space raw in
    let joined = join (codes " ") (title_tokens (fields value)) in
    let title = normalize_title_phrases (join (codes " ") (fields joined)) in
    let lowered = to_lower title in
    let named =
      if lowered == codes "fullstack"
      then codes "Full Stack"
      else if lowered == codes "frontend"
      then codes "Frontend"
      else if lowered == codes "backend"
      then codes "Backend"
      else title in
    if is_empty value
    then []
    else if is_empty lowered || is_one lowered ("dev" ∷ "developer" ∷ "eng" ∷ "engineer" ∷ [])
    then []
    else append_implied_title_noun named role_families

abbrev titles : List String → List Text
titles [] = []
titles (t ∷ ts) = codes t ∷ titles ts

abbrev pub default_titles : Text → List Text
default_titles role =
    if role == codes "frontend"
    then titles ("Frontend Engineer" ∷ [])
    else if role == codes "backend"
    then titles ("Backend Engineer" ∷ [])
    else if role == codes "fullstack"
    then titles ("Full Stack Engineer" ∷ [])
    else if role == codes "devops_sre_systems"
    then titles ("DevOps Engineer" ∷ "Site Reliability Engineer" ∷ "Platform Engineer" ∷ [])
    else if role == codes "ai_ml"
    then titles ("Machine Learning Engineer" ∷ "AI Engineer" ∷ [])
    else if role == codes "data"
    then titles ("Data Engineer" ∷ [])
    else if role == codes "design"
    then titles ("Product Designer" ∷ [])
    else if role == codes "product_management"
    then titles ("Product Manager" ∷ [])
    else []

abbrev pub defaults_of : List Text → List Text
defaults_of [] = []
defaults_of (role ∷ roles) = default_titles role ++ defaults_of roles

unfoldable pub default_target_title_names_for_roles : List Text → List Text
default_target_title_names_for_roles role_families =
    defaults_of (normalize_role_families role_families)

-- The loops over the values, that `f` normalizes, with the keys of the map `seen`.
unfoldable pub names_from : (Text → Text) → List Text → List Text → List Text
names_from f seen [] = []
names_from f seen (v ∷ vs) =
    let skip = names_from f seen vs in
    let keep = f v ∷ names_from f (to_lower (f v) ∷ seen) vs in
    if is_empty (f v) || seen_in (to_lower (f v)) seen then skip else keep

-- the loop over the default names
unfoldable pub defaults_from : List Text → List Text → List Text
defaults_from seen [] = []
defaults_from seen (v ∷ vs) =
    let skip = defaults_from seen vs in
    let keep = v ∷ defaults_from (to_lower v ∷ seen) vs in
    if seen_in (to_lower v) seen then skip else keep

unfoldable pub normalize_title_prefixes : List Text → List Text
unfolding names_from normalize_title_prefix
normalize_title_prefixes values = names_from normalize_title_prefix [] values

-- `seen` is empty when no name was kept.
unfoldable pub normalize_target_title_names : List Text → List Text → List Text
normalize_target_title_names values role_families =
    let out = names_from (λ v. normalize_target_title_name v role_families) [] values in
    if is_empty out
    then defaults_from [] (default_target_title_names_for_roles role_families)
    else out
