-- ===== src/Domain/Criteria/Slices.antt =====
-- The normalized lists of the criteria are increasing, and depend only on which values occur.
use jobscout.Prelude.{
  ◌≡◌, refl, sym, ◌∙◌, ap, Bool, false, not, ◌&&◌, List, [], ◌∷◌, arith, is_empty, map, Option,
  none, some,
}
use jobscout.Text.{Text, codes}
use jobscout.Text.Equality.{eq_iff, eq_refl}
use jobscout.Text.Order.{insert_text, sort_texts}
use jobscout.Domain.Unique.{seen_in}
use jobscout.Domain.Criteria.{
  Criteria, Slice, normal_value, distinct_by, normalized, normalize_string_slice,
  normalize_role_family_slice, normalize_criteria, criteria_hash,
}
use jobscout.Domain.Criteria.Increasing.{
  IsIncreasing, insert_text-IsIncreasing, seen_in-sort_texts, IsIncreasing-unique,
}

module _ (f : Text → Text) where
  -- `f` gives the value for an element of the list.
  abbrev pub occurs : Text → List Text → Bool
  occurs v values = seen_in v (map f values)

  seen_in-distinct_by :
      (v : Text) (seen vs : List Text)
      → seen_in v (distinct_by f seen vs)
        ≡ (not (is_empty v) && (not (seen_in v seen) && occurs v vs))
  unfolding distinct_by seen_in
  seen_in-distinct_by v seen [] = ground arith
  seen_in-distinct_by v seen (w ∷ vs) =
      ground (
        arith,
        eq_iff (f w) v,
        seen_in-distinct_by v seen vs,
        seen_in-distinct_by v (f w ∷ seen) vs,
      )

  insert_text-distinct_by-IsIncreasing :
      (s : Text) (seen vs : List Text)
      → IsIncreasing (sort_texts (distinct_by f (s ∷ seen) vs))
      → IsIncreasing (insert_text s (sort_texts (distinct_by f (s ∷ seen) vs)))
  unfolding seen_in
  insert_text-distinct_by-IsIncreasing s seen vs h =
      insert_text-IsIncreasing s (sort_texts (distinct_by f (s ∷ seen) vs)) h (
        ground (
          arith,
          eq_refl s,
          seen_in-sort_texts s (distinct_by f (s ∷ seen) vs),
          seen_in-distinct_by s (s ∷ seen) vs,
        ))

  pub distinct_by-IsIncreasing :
      (seen vs : List Text) → IsIncreasing (sort_texts (distinct_by f seen vs))
  unfolding distinct_by sort_texts
  distinct_by-IsIncreasing seen [] = tt
  distinct_by-IsIncreasing seen (w ∷ vs) = ground (
    arith,
    distinct_by-IsIncreasing seen vs,
    insert_text-distinct_by-IsIncreasing (f w) seen vs (distinct_by-IsIncreasing (f w ∷ seen) vs),
  )

  -- The sorted result depends only on the values that occur.
  pub distinct_by_same :
      (vs ws : List Text)
      → ((v : Text) → is_empty v ≡ false → occurs v vs ≡ occurs v ws)
      → sort_texts (distinct_by f [] vs) ≡ sort_texts (distinct_by f [] ws)
  distinct_by_same vs ws h =
      IsIncreasing-unique (sort_texts (distinct_by f [] vs)) (sort_texts (distinct_by f [] ws))
        (distinct_by-IsIncreasing [] vs) (distinct_by-IsIncreasing [] ws) same
    where
      same :
          (v : Text)
          → seen_in v (sort_texts (distinct_by f [] vs))
            ≡ seen_in v (sort_texts (distinct_by f [] ws))
      same v = ground (
        arith,
        h v,
        seen_in-sort_texts v (distinct_by f [] vs),
        seen_in-sort_texts v (distinct_by f [] ws),
        seen_in-distinct_by v [] vs,
        seen_in-distinct_by v [] ws,
      )

-- Both are nil, or neither is and they have the same values, the blank ones left out.
abbrev pub SameSlices : (Text → Text) → Slice → Slice → Type 0
SameSlices f none none = Unit {0}
SameSlices f (some vs) (some ws) = (v : Text) → is_empty v ≡ false → occurs f v vs ≡ occurs f v ws
SameSlices f _ _ = ⊥

normalized-sorted :
    (f : Text → Text) (vs : List Text) → normalized f vs ≡ sort_texts (distinct_by f [] vs)
unfolding sort_texts distinct_by
normalized-sorted f [] = refl
normalized-sorted f (v ∷ vs) = refl

normalized_same :
    (f : Text → Text) (vs ws : List Text)
    → ((v : Text) → is_empty v ≡ false → occurs f v vs ≡ occurs f v ws)
    → normalized f vs ≡ normalized f ws
normalized_same f vs ws h =
    normalized-sorted f vs ∙ (distinct_by_same f vs ws h ∙ sym (normalized-sorted f ws))

normalize_string_slice_same :
    (a b : Slice)
    → SameSlices normal_value a b
    → normalize_string_slice a ≡ normalize_string_slice b
unfolding normalize_string_slice
normalize_string_slice_same none none h = refl
normalize_string_slice_same none (some ws) h = elim h [ ]
normalize_string_slice_same (some vs) none h = elim h [ ]
normalize_string_slice_same (some vs) (some ws) h = ap some (normalized_same normal_value vs ws h)

normalize_role_family_slice_same :
    (a b : Slice)
    → SameSlices (λ v. v) a b
    → normalize_role_family_slice a ≡ normalize_role_family_slice b
unfolding normalize_role_family_slice
normalize_role_family_slice_same none none h = refl
normalize_role_family_slice_same none (some ws) h = elim h [ ]
normalize_role_family_slice_same (some vs) none h = elim h [ ]
normalize_role_family_slice_same (some vs) (some ws) h = ap some (normalized_same (λ v. v) vs ws h)

-- The criteria say the same: the lists up to order, case, spacing and repetition.
pub record SameCriteria (a b : Criteria) : Type 0 where
  pub profile : a.candidate ≡ b.candidate
  pub settings : a.filters.work_settings ≡ b.filters.work_settings
  pub distance_miles : a.filters.max_distance_miles ≡ b.filters.max_distance_miles
  pub base_usd : a.filters.min_base_usd ≡ b.filters.min_base_usd
  pub requires : SameSlices normal_value a.filters.title_requires b.filters.title_requires
  pub includes : SameSlices normal_value a.filters.title_includes b.filters.title_includes
  pub excludes : SameSlices normal_value a.filters.title_excludes b.filters.title_excludes
  pub industries : SameSlices normal_value a.filters.industry_includes b.filters.industry_includes
  pub no_industries :
      SameSlices normal_value a.filters.industry_excludes b.filters.industry_excludes
  pub families : SameSlices (λ v. v) a.role_families b.role_families
  pub source_ids : SameSlices normal_value a.resolved_source_ids b.resolved_source_ids
  pub signals : SameSlices normal_value a.priority_signals b.priority_signals

normalize_criteria_same :
    (a b : Criteria) → SameCriteria a b → normalize_criteria a ≡ normalize_criteria b
unfolding normalize_criteria
normalize_criteria_same a b h =
    rw
      (
        h.profile,
        h.settings,
        h.distance_miles,
        h.base_usd,
        normalize_string_slice_same _ _ h.requires,
        normalize_string_slice_same _ _ h.includes,
        normalize_string_slice_same _ _ h.excludes,
        normalize_string_slice_same _ _ h.industries,
        normalize_string_slice_same _ _ h.no_industries,
        normalize_role_family_slice_same _ _ h.families,
        normalize_string_slice_same _ _ h.source_ids,
        normalize_string_slice_same _ _ h.signals,
      )
      refl

-- For every way to encode and digest the criteria, two criteria have the same hash if their lists
-- name the same values, whatever the order and the repetitions, and their other fields are equal;
-- lists that are nil correspond. Case and spacing make no difference to the values either, but for
-- the role families, which are compared exactly.
pub criteria_hash_same :
    (digest : Criteria → Option Text) (a b : Criteria)
    → SameCriteria a b
    → criteria_hash digest (some a) ≡ criteria_hash digest (some b)
unfolding criteria_hash
criteria_hash_same digest a b h =
    ap (λ c. elim (digest c) [ none ↦ codes "invalid" | some sum ↦ sum ])
      (normalize_criteria_same a b h)
