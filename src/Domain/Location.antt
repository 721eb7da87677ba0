-- ===== src/Domain/Location.antt =====
-- internal/domain/location.go: country codes, states, lists typed by the user, work settings.
pub mod Lists
pub mod Codes
use jobscout.Prelude.{
  ◌≡◌, Bool, true, false, ◌||◌, Option, none, some, List, [], ◌∷◌, ◌++◌, ℕ, eqb, ltb, ◌+◌, is_empty,
  if◌then◌else◌, String, map,
}
use jobscout.Text.{Text, codes, ◌==◌, trim_space, to_lower, to_upper}
use jobscout.Text.Dict.{Dict, get, text_Eq}
use jobscout.Text.Fields.{fields_func}
use jobscout.Domain.Unique.{seen_in}
use jobscout.Domain.Criteria.{WorkSettings, Criteria}

-- value is one of the cases of a switch
abbrev pub is_one : Text → List String → Bool
is_one value [] = false
is_one value (c ∷ cases) = value == codes c || is_one value cases

abbrev entry : String → String → Text × Text
entry k v = (codes k, codes v)

abbrev pub us_state_abbreviations : Dict Text Text
us_state_abbreviations =
    entry "ALABAMA" "AL"
    ∷ entry "ALASKA" "AK"
    ∷ entry "ARIZONA" "AZ"
    ∷ entry "ARKANSAS" "AR"
    ∷ entry "CALIFORNIA" "CA"
    ∷ entry "COLORADO" "CO"
    ∷ entry "CONNECTICUT" "CT"
    ∷ entry "DELAWARE" "DE"
    ∷ entry "DISTRICT OF COLUMBIA" "DC"
    ∷ entry "FLORIDA" "FL"
    ∷ entry "GEORGIA" "GA"
    ∷ entry "HAWAII" "HI"
    ∷ entry "IDAHO" "ID"
    ∷ entry "ILLINOIS" "IL"
    ∷ entry "INDIANA" "IN"
    ∷ entry "IOWA" "IA"
    ∷ entry "KANSAS" "KS"
    ∷ entry "KENTUCKY" "KY"
    ∷ entry "LOUISIANA" "LA"
    ∷ entry "MAINE" "ME"
    ∷ entry "MARYLAND" "MD"
    ∷ entry "MASSACHUSETTS" "MA"
    ∷ entry "MICHIGAN" "MI"
    ∷ entry "MINNESOTA" "MN"
    ∷ entry "MISSISSIPPI" "MS"
    ∷ entry "MISSOURI" "MO"
    ∷ entry "MONTANA" "MT"
    ∷ entry "NEBRASKA" "NE"
    ∷ entry "NEVADA" "NV"
    ∷ entry "NEW HAMPSHIRE" "NH"
    ∷ entry "NEW JERSEY" "NJ"
    ∷ entry "NEW MEXICO" "NM"
    ∷ entry "NEW YORK" "NY"
    ∷ entry "NORTH CAROLINA" "NC"
    ∷ entry "NORTH DAKOTA" "ND"
    ∷ entry "OHIO" "OH"
    ∷ entry "OKLAHOMA" "OK"
    ∷ entry "OREGON" "OR"
    ∷ entry "PENNSYLVANIA" "PA"
    ∷ entry "RHODE ISLAND" "RI"
    ∷ entry "SOUTH CAROLINA" "SC"
    ∷ entry "SOUTH DAKOTA" "SD"
    ∷ entry "TENNESSEE" "TN"
    ∷ entry "TEXAS" "TX"
    ∷ entry "UTAH" "UT"
    ∷ entry "VERMONT" "VT"
    ∷ entry "VIRGINIA" "VA"
    ∷ entry "WASHINGTON" "WA"
    ∷ entry "WEST VIRGINIA" "WV"
    ∷ entry "WISCONSIN" "WI"
    ∷ entry "WYOMING" "WY"
    ∷ []

-- the switch on the value
unfoldable pub country_of : Text → Text
country_of v =
    if is_one v ("UNITED STATES" ∷ "UNITED STATES OF AMERICA" ∷ "USA" ∷ "U.S." ∷ "U.S.A." ∷ [])
    then codes "US"
    else if is_one v ("AUSTRALIA" ∷ "AUS" ∷ [])
    then codes "AU"
    else if is_one v ("SINGAPORE" ∷ "SGP" ∷ [])
    then codes "SG"
    else v

unfoldable pub normalize_country_code : Text → Text
unfolding country_of
normalize_country_code value = country_of (to_upper (trim_space value))

-- the bytes of the UTF-8 encoding of a code point
abbrev pub utf8_length : ℕ → ℕ
utf8_length c = if ltb c 0x80 then 1 else if ltb c 0x800 then 2 else if ltb c 0x10000 then 3 else 4

-- len(s)
abbrev pub byte_length : Text → ℕ
byte_length [] = 0
byte_length (c ∷ s) = utf8_length c + byte_length s

unfoldable pub normalize_state_region : Text → Text → Text
unfolding normalize_country_code
normalize_state_region value country_code =
    let trimmed = trim_space value in
    let upper = to_upper trimmed in
    let country = normalize_country_code country_code in
    if is_empty trimmed
    then []
    else if is_empty country || country == codes "US"
    then elim (get upper us_state_abbreviations) [
      | some abbreviation ↦ abbreviation
      | none ↦ if eqb (byte_length upper) 2 then upper else to_upper trimmed
    ]
    else upper

-- of a nil pointer nothing is changed
unfoldable pub normalize_criteria_location : Option Criteria → Option Criteria
normalize_criteria_location none = none
normalize_criteria_location (some cfg) =
    let country = normalize_country_code cfg.candidate.country_code in
    some (record cfg {
      candidate = record cfg.candidate {
        country_code = country;
        state = normalize_state_region cfg.candidate.state country;
      };
    })

-- r == ',' || r == '\n' || r == '\r'
unfoldable pub is_separator : ℕ → Bool
is_separator r = eqb r 44 || eqb r 10 || eqb r 13

-- the parts that are not blank, trimmed
abbrev pub items : List Text → List Text
items [] = []
items (part ∷ parts) =
    let rest = items parts in
    let item = trim_space part in if is_empty item then rest else item ∷ rest

unfoldable pub parse_csv_list : Text → List Text
unfolding is_separator
parse_csv_list value =
    if is_empty (trim_space value) then [] else items (fields_func is_separator value)

abbrev pub select_setting : WorkSettings → Text → WorkSettings
select_setting s item =
    let value = to_lower (trim_space item) in
    if value == codes "remote"
    then record s { remote = true }
    else if value == codes "hybrid"
    then record s { hybrid = true }
    else if is_one value ("onsite" ∷ "on-site" ∷ "office" ∷ [])
    then record s { onsite = true }
    else s

abbrev pub select_settings : WorkSettings → List Text → WorkSettings
select_settings s [] = s
select_settings s (item ∷ rest) = select_settings (select_setting s item) rest

unfoldable pub parse_work_settings : Text → WorkSettings
unfolding parse_csv_list
parse_work_settings value =
    select_settings (record { remote = false; hybrid = false; onsite = false })
      (parse_csv_list value)

unfoldable pub selected_work_settings : WorkSettings → List Text
selected_work_settings s =
    (if s.remote then codes "remote" ∷ [] else [])
    ++ ((if s.hybrid then codes "hybrid" ∷ [] else [])
        ++ (if s.onsite then codes "onsite" ∷ [] else []))
