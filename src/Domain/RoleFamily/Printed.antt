-- ===== src/Domain/RoleFamily/Printed.antt =====
-- Printed lists of role families are read back.
use jobscout.Prelude.{
  ◌≡◌, refl, sym, ap, ◌∙◌, Bool, true, false, not, ◌&&◌, Option, none, some, List, [], ◌∷◌, ◌++◌,
  append-nil, arith, map, is_empty, eqb, All, ok,
}
use jobscout.Text.{Text, codes, ◌==◌, split, split_from, join, lower, to_lower, trim_space}
use jobscout.Text.Equality.{eq_iff}
use jobscout.Text.Parts.{split_from-append, split_from-cut, split_from-nil}
use jobscout.Domain.Unique.{seen_in}
use jobscout.Domain.RoleFamily.{
  all_role_family_ids, role_family_label, parse_role_family_value, prepend, parse_parts,
  parse_role_family_csv, normalize_role_families, format_role_family_ids, format_role_family_labels,
}
use jobscout.Domain.RoleFamily.Normal.{AreNew, all_seen, seen_all, normalize_role_families-AreNew}

no_comma : Text → Bool
no_comma [] = true
no_comma (c ∷ s) = not (eqb c 44) && no_comma s

no_comma-All : (s : Text) → no_comma s ≡ true → All (λ c. eqb c 44 ≡ false) s
unfolding no_comma
no_comma-All [] h = tt
no_comma-All (c ∷ s) h = (ground (arith, h), no_comma-All s (ground (arith, h)))

is_result : Option Text → Text → Bool
is_result none r = false
is_result (some q) r = q == r

is_result-some : (o : Option Text) (r : Text) → is_result o r ≡ true → o ≡ some r
unfolding is_result
is_result-some none r h = cc
is_result-some (some q) r h = ap some ((eq_iff q r).0 h)

-- What `shown` prints for a family is read as that family, also after a space.
readable : (Text → Text) → Text → Bool
readable shown r =
    no_comma (shown r)
    && (is_result (parse_role_family_value (shown r)) r
        && is_result (parse_role_family_value (32 ∷ shown r)) r)

parse_parts-cons :
    (part r : Text) (parts seen : List Text)
    → parse_role_family_value part ≡ some r
    → seen_in r seen ≡ false
    → parse_parts seen (part ∷ parts) ≡ prepend r (parse_parts (r ∷ seen) parts)
unfolding parse_parts
parse_parts-cons part r parts seen p n = ground (arith, p, n)

module _ (shown : Text → Text) (reads : all_seen (readable shown) all_role_family_ids ≡ true) where
  readable_of : (r : Text) → seen_in r all_role_family_ids ≡ true → readable shown r ≡ true
  readable_of r h = seen_all (readable shown) all_role_family_ids r reads h

  shown-free :
      (r : Text) → seen_in r all_role_family_ids ≡ true → All (λ c. eqb c 44 ≡ false) (shown r)
  unfolding readable
  shown-free r h = no_comma-All (shown r) (ground (arith, readable_of r h))

  read-shown :
      (r : Text) → seen_in r all_role_family_ids ≡ true → parse_role_family_value (shown r) ≡ some r
  unfolding readable
  read-shown r h = is_result-some _ r (ground (arith, readable_of r h))

  read-space-shown :
      (r : Text)
      → seen_in r all_role_family_ids ≡ true
      → parse_role_family_value (32 ∷ shown r) ≡ some r
  unfolding readable
  read-space-shown r h = is_result-some _ r (ground (arith, readable_of r h))

  parse_parts-join :
      (cur r : Text) (rs seen : List Text)
      → AreNew seen (r ∷ rs)
      → parse_role_family_value (cur ++ shown r) ≡ some r
      → parse_parts seen (split_from 44 cur (join (codes ", ") (map shown (r ∷ rs)))) ≡ ok (r ∷ rs)
  unfolding parse_parts join split_from
  parse_parts-join cur r [] seen (k, (n, _)) p =
      ap (parse_parts seen) (
        ap (split_from 44 cur) (sym (append-nil (shown r)))
        ∙ (split_from-append 44 cur (shown r) [] (shown-free r k)
            ∙ split_from-nil 44 (cur ++ shown r)))
      ∙ (parse_parts-cons (cur ++ shown r) r [] seen p n)
  parse_parts-join cur r (q ∷ rs) seen (k, (n, h)) p =
      let printed = join (codes ", ") (map shown (q ∷ rs)) in
      ap (parse_parts seen) (
        split_from-append 44 cur (shown r) (codes ", " ++ printed) (shown-free r k)
        ∙ split_from-cut 44 (cur ++ shown r) (32 ∷ printed))
      ∙ (parse_parts-cons (cur ++ shown r) r _ seen p n
          ∙ ap (prepend r) (parse_parts-join (32 ∷ []) q rs (r ∷ seen) h (read-space-shown q h.0)))

  parse_role_family_csv-join :
      (ids : List Text)
      → AreNew [] ids
      → parse_role_family_csv (join (codes ", ") (map shown ids)) ≡ ok ids
  unfolding parse_role_family_csv split split_from join parse_role_family_value to_lower trim_space
  parse_role_family_csv-join [] h = refl
  parse_role_family_csv-join (r ∷ rs) h = parse_parts-join [] r rs [] h (read-shown r h.0)

ids_readable : all_seen (readable (λ r. r)) all_role_family_ids ≡ true
unfolding all_seen readable is_result no_comma parse_role_family_value to_lower lower trim_space
    ◌==◌
ids_readable = refl

labels_readable : all_seen (readable role_family_label) all_role_family_ids ≡ true
unfolding all_seen readable is_result no_comma role_family_label parse_role_family_value to_lower
    lower trim_space ◌==◌
labels_readable = refl

map_id : (xs : List Text) → map (λ r. r) xs ≡ xs
map_id [] = refl
map_id (x ∷ xs) = ap (◌∷◌ x) (map_id xs)

-- Both printed forms of a list of role families, by identifier and by label, are read back as the
-- normalized list; of a list without a known family the form by identifier is read back as the
-- empty list.
pub parse-format_role_families :
    (ids : List Text)
    → (parse_role_family_csv (format_role_family_ids ids) ≡ ok (normalize_role_families ids))
      × (is_empty (normalize_role_families ids) ≡ false
          → parse_role_family_csv (format_role_family_labels ids)
            ≡ ok (normalize_role_families ids))
unfolding format_role_family_ids format_role_family_labels
parse-format_role_families ids = (
  ap (λ xs. parse_role_family_csv (join (codes ", ") xs))
        (sym (map_id (normalize_role_families ids)))
      ∙ parse_role_family_csv-join (λ r. r) ids_readable (normalize_role_families ids) new,
  λ filled. rw filled (
      parse_role_family_csv-join role_family_label labels_readable (normalize_role_families ids)
        new),
)
  where
    new : AreNew [] (normalize_role_families ids)
    new = normalize_role_families-AreNew ids
