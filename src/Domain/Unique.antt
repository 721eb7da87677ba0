-- ===== src/Domain/Unique.antt =====
-- appendUniqueNonEmptyStrings and compactUniqueStrings of internal/domain/job_metadata.go: a list
-- of texts, trimmed, without the blank ones, and without those that an earlier one equals up to
-- case.
pub mod Distinct
pub mod Laws
use jobscout.Prelude.{Bool, true, false, ◌||◌, List, [], ◌∷◌, ◌++◌, is_empty, if◌then◌else◌}
use jobscout.Text.{Text, ◌==◌, to_lower, trim_space}

-- the keys of the map `seen`
unfoldable pub seen_in : Text → List Text → Bool
seen_in key [] = false
seen_in key (k ∷ seen) = k == key || seen_in key seen

-- the loop over `append(values, more...)`
unfoldable pub unique_from : List Text → List Text → List Text
unique_from seen [] = []
unique_from seen (v ∷ vs) =
    let value = trim_space v in
    let key = to_lower value in
    let skip = unique_from seen vs in
    let keep = value ∷ unique_from (key ∷ seen) vs in
    if is_empty value then skip else if seen_in key seen then skip else keep

unfoldable pub append_unique : List Text → List Text → List Text
append_unique values more = unique_from [] (values ++ more)

unfoldable pub compact_unique : List Text → List Text
unfolding append_unique
compact_unique values = append_unique [] values
