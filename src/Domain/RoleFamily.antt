-- ===== src/Domain/RoleFamily.antt =====
-- internal/domain/role_family.go: the families of roles, their names and lists of them.
pub mod Normal
pub mod Printed
use jobscout.Prelude.{
  ℕ, ◌≡◌, Bool, true, false, not, ◌||◌, Option, none, some, List, [], ◌∷◌, map, is_empty,
  if◌then◌else◌, Result, ok, err, ◌>>=◌, String,
}
use jobscout.Text.{Text, codes, ◌==◌, trim_space, to_lower, split, join}
use jobscout.Domain.Unique.{seen_in}

pub record RoleFamilySpec : Type 0 where
  pub id : Text
  pub label : Text

abbrev spec : String → String → RoleFamilySpec
spec i l = record { id = codes i; label = codes l }

abbrev pub role_family_specs : List RoleFamilySpec
role_family_specs =
    spec "frontend" "Frontend Engineering"
    ∷ spec "backend" "Backend Engineering"
    ∷ spec "fullstack" "Full-Stack Engineering"
    ∷ spec "devops_sre_systems" "DevOps / SRE / Systems"
    ∷ spec "ai_ml" "AI / ML Engineering"
    ∷ spec "data" "Data"
    ∷ spec "design" "Design"
    ∷ spec "product_management" "Product Management"
    ∷ spec "other_specialized" "Other / Specialized"
    ∷ []

abbrev pub all_role_family_ids : List Text
all_role_family_ids = map (λ s. s.id) role_family_specs

label_in : Text → List RoleFamilySpec → Text
label_in id [] = id
label_in id (s ∷ specs) = if s.id == id then s.label else label_in id specs

unfoldable pub role_family_label : Text → Text
unfolding label_in
role_family_label id = label_in id role_family_specs

spec_in : Text → List RoleFamilySpec → Option Text
spec_in value [] = none
spec_in value (s ∷ specs) =
    if value == s.id
    then some s.id
    else if value == to_lower s.label
    then some s.id
    else spec_in value specs

-- `none` is the result ("", false).
unfoldable pub parse_role_family_value : Text → Option Text
unfolding spec_in
parse_role_family_value value =
    let v = trim_space (to_lower value) in if is_empty v then none else spec_in v role_family_specs

-- InvalidRoleFamilyError, by its value
pub data InvalidRoleFamily : Type 0 where
  invalid_role_family : Text → InvalidRoleFamily

abbrev prepend : Text → Result InvalidRoleFamily (List Text) → Result InvalidRoleFamily (List Text)
prepend role (ok roles) = ok (role ∷ roles)
prepend role (err e) = err e

-- the loop over the parts, with the keys of the map `seen`
unfoldable pub parse_parts : List Text → List Text → Result InvalidRoleFamily (List Text)
parse_parts seen [] = ok []
parse_parts seen (part ∷ parts) =
    let skip = parse_parts seen parts in
    elim (parse_role_family_value part) [
      | none ↦
          if is_empty (trim_space part) then skip else err (invalid_role_family (trim_space part))
      | some role ↦
          let more = prepend role (parse_parts (role ∷ seen) parts) in
          if seen_in role seen then skip else more
    ]

unfoldable pub parse_role_family_csv : Text → Result InvalidRoleFamily (List Text)
unfolding parse_parts
parse_role_family_csv value = parse_parts [] (split value 44)

-- the loop over the values, with the keys of the maps `valid` and `seen`
unfoldable pub normalize_from : List Text → List Text → List Text
normalize_from seen [] = []
normalize_from seen (v ∷ vs) =
    let value = trim_space v in
    let skip = normalize_from seen vs in
    let keep = value ∷ normalize_from (value ∷ seen) vs in
    if is_empty value || (not (seen_in value all_role_family_ids) || seen_in value seen)
    then skip
    else keep

unfoldable pub normalize_role_families : List Text → List Text
unfolding normalize_from
normalize_role_families values = normalize_from [] values

unfoldable pub format_role_family_ids : List Text → Text
format_role_family_ids ids = join (codes ", ") (normalize_role_families ids)

unfoldable pub format_role_family_labels : List Text → Text
format_role_family_labels ids =
    let normal = normalize_role_families ids in
    if is_empty normal then codes "none" else join (codes ", ") (map role_family_label normal)
