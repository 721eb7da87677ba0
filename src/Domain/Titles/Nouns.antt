-- ===== src/Domain/Titles/Nouns.antt =====
-- The titles that are searched for, for role families of which one is known.
use jobscout.Prelude.{
  ◌≡◌, refl, ap, inl, inr, Bool, true, false, ◌||◌, List, [], ◌∷◌, ◌++◌, arith, is_empty,
  if◌then◌else◌, Bool-cases, All, All-append,
}
use jobscout.Text.{Text, codes, ◌==◌, to_lower, lower, contains, has_prefix}
use jobscout.Text.Equality.{eq_iff}
use jobscout.Domain.Unique.{seen_in}
use jobscout.Domain.RoleFamily.{all_role_family_ids, normalize_role_families}
use jobscout.Domain.RoleFamily.Normal.{AreNew, normalize_role_families-AreNew}
use jobscout.Domain.Titles.Names.{
  contains_one, role_nouns, title_has_role_noun, first_special, engineering_roles,
  first_engineering, implied_title_noun, append_implied_title_noun, normalize_target_title_name,
  default_titles, defaults_of, default_target_title_names_for_roles, names_from, defaults_from,
  normalize_target_title_names,
}

contains_end :
    (s tail noun : Text)
    → contains (to_lower tail) noun ≡ true
    → contains (to_lower (s ++ tail)) noun ≡ true
unfolding to_lower contains
contains_end [] tail noun h = h
contains_end (c ∷ s) tail noun h = ground (arith, contains_end s tail noun h)

contains_one_of :
    (s noun : Text) (nouns : List Text)
    → seen_in noun nouns ≡ true
    → contains s noun ≡ true
    → contains_one s nouns ≡ true
unfolding seen_in
contains_one_of s noun [] e h = cc
contains_one_of s noun (n ∷ nouns) e h = elim (Bool-cases (n == noun)) [
  | inl t ↦ ground (arith, ap (contains s) ((eq_iff n noun).0 t), h)
  | inr f ↦ ground (arith, contains_one_of s noun nouns (ground (arith, e, f)) h)
]

ends_with_noun :
    (s tail noun : Text)
    → seen_in noun role_nouns ≡ true
    → contains (to_lower tail) noun ≡ true
    → title_has_role_noun (s ++ tail) ≡ true
unfolding title_has_role_noun
ends_with_noun s tail noun e h =
    contains_one_of (to_lower (s ++ tail)) noun role_nouns e (contains_end s tail noun h)

engineer_title : (s : Text) → title_has_role_noun (s ++ codes " Engineer") ≡ true
unfolding seen_in ◌==◌ to_lower lower contains has_prefix
engineer_title s = ends_with_noun s (codes " Engineer") (codes "engineer") refl refl

manager_title : (s : Text) → title_has_role_noun (s ++ codes " Manager") ≡ true
unfolding seen_in ◌==◌ to_lower lower contains has_prefix
manager_title s = ends_with_noun s (codes " Manager") (codes "manager") refl refl

designer_title : (s : Text) → title_has_role_noun (s ++ codes " Designer") ≡ true
unfolding seen_in ◌==◌ to_lower lower contains has_prefix
designer_title s = ends_with_noun s (codes " Designer") (codes "designer") refl refl

-- a noun that is implied
abbrev is_implied : Text → Bool
is_implied noun = noun == codes "Engineer" || (noun == codes "Manager" || noun == codes "Designer")

special-is_implied :
    (roles : List Text)
    → (is_empty (first_special roles) || is_implied (first_special roles)) ≡ true
unfolding ◌==◌
special-is_implied [] = refl
special-is_implied (r ∷ roles) = elim (Bool-cases (codes "product_management" == r)) [
  | inl t ↦ rw t refl
  | inr f ↦ rw f (elim (Bool-cases (codes "design" == r)) [
    | inl t ↦ rw t refl
    | inr g ↦ rw g (special-is_implied roles)
  ])
]

special_is_other :
    (r : Text) (rs : List Text)
    → is_empty (first_special (r ∷ rs)) ≡ true
    → ((codes "product_management" == r) ≡ false) × ((codes "design" == r) ≡ false)
special_is_other r rs h = elim (Bool-cases (codes "product_management" == r)) [
  | inl t ↦ ground (arith, t, h)
  | inr f ↦ elim (Bool-cases (codes "design" == r)) [
    | inl t ↦ ground (arith, t, f, h)
    | inr g ↦ (f, g)
  ]
]

-- A known family that is not one of the two others is one of an engineer.
known_is_engineering :
    (r : Text)
    → seen_in r all_role_family_ids ≡ true
    → (codes "product_management" == r) ≡ false
    → (codes "design" == r) ≡ false
    → seen_in r engineering_roles ≡ true
unfolding seen_in
known_is_engineering r known p d = ground (arith, known, p, d)

engineering-is_implied :
    (r : Text) (rs : List Text)
    → seen_in r engineering_roles ≡ true
    → is_implied (first_engineering (r ∷ rs)) ≡ true
unfolding ◌==◌
engineering-is_implied r rs h = rw h refl

implied_of_roles :
    (roles : List Text)
    → is_empty roles ≡ false
    → AreNew [] roles
    → is_implied
        (if is_empty (first_special roles) then first_engineering roles else first_special roles)
      ≡ true
implied_of_roles [] h n = absurd (ground (arith, h))
implied_of_roles (r ∷ rs) h (known, n) = elim (Bool-cases (is_empty (first_special (r ∷ rs)))) [
  | inl t ↦
      let (p, d) = special_is_other r rs t in
      rw t (engineering-is_implied r rs (known_is_engineering r known p d))
  | inr f ↦ rw f (ground (arith, f, special-is_implied (r ∷ rs)))
]

unless_empty :
    (a b : Bool) (t : Text)
    → title_has_role_noun t ≡ true
    → is_empty (if a then [] else if b then [] else t) ≡ false
    → title_has_role_noun (if a then [] else if b then [] else t) ≡ true
unless_empty true b t good h = cc
unless_empty false true t good h = cc
unless_empty false false t good h = good

default-have_nouns : (role : Text) → All (λ t. title_has_role_noun t ≡ true) (default_titles role)
unfolding title_has_role_noun to_lower lower contains has_prefix
default-have_nouns role = ground arith

defaults-have_nouns :
    (roles : List Text) → All (λ t. title_has_role_noun t ≡ true) (defaults_of roles)
defaults-have_nouns [] = tt
defaults-have_nouns (role ∷ roles) =
    All-append (λ t. title_has_role_noun t ≡ true) (default_titles role) (defaults_of roles)
      (default-have_nouns role) (defaults-have_nouns roles)

module _ (families : List Text)
    (some_known : is_empty (normalize_role_families families) ≡ false) where
  implied_title_noun-is_implied : is_implied (implied_title_noun families) ≡ true
  unfolding implied_title_noun
  implied_title_noun-is_implied =
      implied_of_roles (normalize_role_families families) some_known
        (normalize_role_families-AreNew families)

  append_implied-has_noun :
      (title : Text) → title_has_role_noun (append_implied_title_noun title families) ≡ true
  unfolding append_implied_title_noun
  append_implied-has_noun title = ground (
    arith,
    implied_title_noun-is_implied,
    engineer_title title,
    manager_title title,
    designer_title title,
  )

  name-has_noun :
      (v : Text)
      → is_empty (normalize_target_title_name v families) ≡ false
      → title_has_role_noun (normalize_target_title_name v families) ≡ true
  unfolding normalize_target_title_name
  name-has_noun v h = unless_empty _ _ _ (append_implied-has_noun _) h

  -- Each name has the noun of a role, and is, up to its case, neither in `seen` nor before it.
  abbrev pub AreTitles : List Text → List Text → Type 0
  AreTitles seen [] = Unit {0}
  AreTitles seen (t ∷ ts) =
      ((title_has_role_noun t ≡ true) × (seen_in (to_lower t) seen ≡ false))
      × AreTitles (to_lower t ∷ seen) ts

  names_from-AreTitles :
      (seen vs : List Text)
      → AreTitles seen (names_from (λ v. normalize_target_title_name v families) seen vs)
  unfolding names_from
  names_from-AreTitles seen [] = tt
  names_from-AreTitles seen (v ∷ vs) =
      let name = normalize_target_title_name v families in
      elim (Bool-cases (is_empty name || seen_in (to_lower name) seen)) [
        | inl t ↦ rw t (names_from-AreTitles seen vs)
        | inr f ↦ rw f (
          (name-has_noun v (ground (arith, f)), ground (arith, f)),
          names_from-AreTitles (to_lower name ∷ seen) vs,
        )
      ]

  defaults_from-AreTitles :
      (seen vs : List Text)
      → All (λ t. title_has_role_noun t ≡ true) vs
      → AreTitles seen (defaults_from seen vs)
  unfolding defaults_from
  defaults_from-AreTitles seen [] h = tt
  defaults_from-AreTitles seen (v ∷ vs) (h, hs) = elim (Bool-cases (seen_in (to_lower v) seen)) [
    | inl t ↦ rw t (defaults_from-AreTitles seen vs hs)
    | inr f ↦ rw f ((h, f), defaults_from-AreTitles (to_lower v ∷ seen) vs hs)
  ]

  -- The names of the titles that are searched for, of which none may be left so that the families give
  -- their own, each have the noun of a role, and no two are equal up to their case; one of the families
  -- is known.
  pub normalize_target_title_names-AreTitles :
      (values : List Text) → AreTitles [] (normalize_target_title_names values families)
  unfolding normalize_target_title_names default_target_title_names_for_roles
  normalize_target_title_names-AreTitles values =
      elim (Bool-cases
        (is_empty (names_from (λ v. normalize_target_title_name v families) [] values))) [
          | inl t ↦ rw t (
              defaults_from-AreTitles [] (defaults_of (normalize_role_families families))
                (defaults-have_nouns (normalize_role_families families)))
          | inr f ↦ rw f (names_from-AreTitles [] values)
        ]
