-- ===== src/Runtime/Stores/Identity.antt =====
-- memoryCompanyIdentityStore: company identities, found by domain or by name. `hostname` stands for
-- `url.Parse` followed by `Hostname`: none on an error.
use jobscout.Prelude.{
  ◌≡◌, refl, true, false, List, [], ◌∷◌, ◌++◌, Option, none, some, arith, is_empty, if◌then◌else◌,
}
use jobscout.Text.{Text, codes, to_lower, trim_space, contains, trim_prefix, fields, join}
use jobscout.Text.Dict.{Dict, text_Eq, get, put, get-put}
use jobscout.Text.Equality.{eq_refl}
use jobscout.Domain.Unique.{seen_in}
use jobscout.Domain.Unique.Distinct.{seen_in-append}
use jobscout.Runtime.Stores.{Time}

pub record CompanyIdentity : Type 0 where
  pub key : Text
  pub display_name : Text
  pub website : Text
  pub summary : Text
  pub industry : Text
  pub identity_evidence : Text
  pub source_version : Text
  pub created_at : Time
  pub updated_at : Time
  pub name_aliases : List Text
  pub domain_aliases : List Text

abbrev pub Identities : Type 0
Identities = Dict Text CompanyIdentity

-- `for _, key := range keys { s.identities[key] = clone }`; as a value a clone is its original
unfoldable pub put_keys : List Text → CompanyIdentity → Identities → Identities
put_keys [] clone s = s
put_keys (key ∷ keys) clone s = put_keys keys clone (put key clone s)

-- the first of the keys that is there
unfoldable pub get_first : List Text → Identities → Option CompanyIdentity
get_first [] s = none
get_first (key ∷ keys) s =
    let rest = get_first keys s in elim (get key s) [ none ↦ rest | some identity ↦ some identity ]

module _ (hostname : Text → Option Text) where
  abbrev host_of : Option Text → Text
  host_of none = []
  host_of (some h) = trim_prefix h (codes "www.")

  unfoldable pub normalize_memory_domain : Text → Text
  normalize_memory_domain input =
      let raw = to_lower (trim_space input) in
      if is_empty raw
      then []
      else host_of (hostname (if contains raw (codes "://") then raw else codes "https://" ++ raw))

  unfoldable pub company_identity_memory_keys : Text → Text → List Text
  unfolding normalize_memory_domain
  company_identity_memory_keys company_name website_or_domain =
      let domain = normalize_memory_domain website_or_domain in
      let name = to_lower (join (codes " ") (fields company_name)) in
      (if is_empty domain then [] else (codes "domain:" ++ domain) ∷ [])
      ++ (if is_empty name then [] else (codes "name:" ++ name) ∷ [])

  unfoldable pub get_company_identity : Text → Text → Identities → Option CompanyIdentity
  unfolding get_first
  get_company_identity company_name website_or_domain s =
      get_first (company_identity_memory_keys company_name website_or_domain) s

  -- the loops over the aliases
  unfoldable pub put_name_aliases : List Text → CompanyIdentity → Identities → Identities
  put_name_aliases [] clone s = s
  put_name_aliases (alias ∷ aliases) clone s =
      put_name_aliases aliases clone (put_keys (company_identity_memory_keys alias []) clone s)

  unfoldable pub put_domain_aliases : List Text → CompanyIdentity → Identities → Identities
  put_domain_aliases [] clone s = s
  put_domain_aliases (alias ∷ aliases) clone s =
      put_domain_aliases aliases clone (put_keys (company_identity_memory_keys [] alias) clone s)

  unfoldable pub upsert_company_identity : CompanyIdentity → Identities → Identities
  unfolding put_keys put_name_aliases put_domain_aliases
  upsert_company_identity identity s = put_domain_aliases identity.domain_aliases identity (
      put_name_aliases identity.name_aliases identity
        (put_keys (company_identity_memory_keys identity.display_name identity.website) identity s))

  -- The keys under which an identity can be found.
  pub name_keys : List Text → List Text
  name_keys [] = []
  name_keys (alias ∷ aliases) = company_identity_memory_keys alias [] ++ name_keys aliases

  pub domain_keys : List Text → List Text
  domain_keys [] = []
  domain_keys (alias ∷ aliases) = company_identity_memory_keys [] alias ++ domain_keys aliases

  pub identity_keys : CompanyIdentity → List Text
  identity_keys identity =
      company_identity_memory_keys identity.display_name identity.website
      ++ (name_keys identity.name_aliases ++ domain_keys identity.domain_aliases)

get-put_keys :
    (keys : List Text) (c : CompanyIdentity) (s : Identities) (k : Text)
    → get k (put_keys keys c s) ≡ (if seen_in k keys then some c else get k s)
unfolding put_keys seen_in
get-put_keys [] c s k = refl
get-put_keys (key ∷ keys) c s k =
    ground (arith, get-put_keys keys c (put key c s) k, get-put key k c s)

module _ (hostname : Text → Option Text) (c : CompanyIdentity) where
  get-put_name_aliases :
      (aliases : List Text) (s : Identities) (k : Text)
      → get k (put_name_aliases hostname aliases c s)
        ≡ (if seen_in k (name_keys hostname aliases) then some c else get k s)
  unfolding put_name_aliases name_keys seen_in
  get-put_name_aliases [] s k = refl
  get-put_name_aliases (alias ∷ aliases) s k =
      let keys = company_identity_memory_keys hostname alias [] in
      ground (
        arith,
        get-put_name_aliases aliases (put_keys keys c s) k,
        get-put_keys keys c s k,
        seen_in-append k keys (name_keys hostname aliases),
      )

  get-put_domain_aliases :
      (aliases : List Text) (s : Identities) (k : Text)
      → get k (put_domain_aliases hostname aliases c s)
        ≡ (if seen_in k (domain_keys hostname aliases) then some c else get k s)
  unfolding put_domain_aliases domain_keys seen_in
  get-put_domain_aliases [] s k = refl
  get-put_domain_aliases (alias ∷ aliases) s k =
      let keys = company_identity_memory_keys hostname [] alias in
      ground (
        arith,
        get-put_domain_aliases aliases (put_keys keys c s) k,
        get-put_keys keys c s k,
        seen_in-append k keys (domain_keys hostname aliases),
      )

  -- An identity that is stored is found under exactly its keys, those of its name, its website and
  -- its aliases; what is found under any other key does not change.
  pub get-upsert_company_identity :
      (s : Identities) (k : Text)
      → get k (upsert_company_identity hostname c s)
        ≡ (if seen_in k (identity_keys hostname c) then some c else get k s)
  unfolding upsert_company_identity identity_keys
  get-upsert_company_identity s k =
      let own = company_identity_memory_keys hostname c.display_name c.website in
      ground (
        arith,
        get-put_domain_aliases c.domain_aliases
            (put_name_aliases hostname c.name_aliases c (put_keys own c s)) k,
        get-put_name_aliases c.name_aliases (put_keys own c s) k,
        get-put_keys own c s k,
        seen_in-append k own
            (name_keys hostname c.name_aliases ++ domain_keys hostname c.domain_aliases),
        seen_in-append k (name_keys hostname c.name_aliases)
            (domain_keys hostname c.domain_aliases),
      )

  -- The first of some keys, all of the identity, finds it.
  get_first-upsert :
      (s : Identities) (k : Text) (ks : List Text)
      → seen_in k (identity_keys hostname c) ≡ true
      → get_first (k ∷ ks) (upsert_company_identity hostname c s) ≡ some c
  unfolding get_first
  get_first-upsert s k ks h = ground (arith, get-upsert_company_identity s k)

  find_own :
      (s : Identities) (keys : List Text)
      → ((k : Text) → seen_in k keys ≡ true → seen_in k (identity_keys hostname c) ≡ true)
      → is_empty keys ≡ false
      → get_first keys (upsert_company_identity hostname c s) ≡ some c
  unfolding seen_in
  find_own s [] h e = cc
  find_own s (k ∷ ks) h e = get_first-upsert s k ks (h k (rw (eq_refl k) refl))

  -- An identity that is stored is returned for its own name and website, unless these give no key.
  pub get-upsert_self :
      (s : Identities)
      → is_empty (company_identity_memory_keys hostname c.display_name c.website) ≡ false
      → get_company_identity hostname c.display_name c.website
          (upsert_company_identity hostname c s)
        ≡ some c
  unfolding get_company_identity identity_keys
  get-upsert_self s h =
      let own = company_identity_memory_keys hostname c.display_name c.website in
      let others = name_keys hostname c.name_aliases ++ domain_keys hostname c.domain_aliases in
      find_own s own (λ k e. rw (seen_in-append k own others, e) refl) h
