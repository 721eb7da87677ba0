-- ===== src/Domain/RoleFamily/Normal.antt =====
-- Normalized lists of role families: different ones, each known.
use jobscout.Prelude.{
  ◌≡◌, refl, sym, ap, ◌∙◌, inl, inr, Bool, true, false, not, ◌&&◌, List, [], ◌∷◌, arith, is_empty,
  Bool-cases,
}
use jobscout.Text.{Text, ◌==◌, trim_space}
use jobscout.Text.Equality.{eq_iff}
use jobscout.Domain.Unique.{seen_in}
use jobscout.Domain.RoleFamily.{all_role_family_ids, normalize_from, normalize_role_families}

-- Each is one of the known families, and is neither in `seen` nor before it.
abbrev pub AreNew : List Text → List Text → Type 0
AreNew seen [] = Unit {0}
AreNew seen (r ∷ rs) =
    (seen_in r all_role_family_ids ≡ true) × ((seen_in r seen ≡ false) × AreNew (r ∷ seen) rs)

normalize_from-AreNew : (seen vs : List Text) → AreNew seen (normalize_from seen vs)
unfolding normalize_from
normalize_from-AreNew seen [] = tt
normalize_from-AreNew seen (v ∷ vs) =
    ground (arith, normalize_from-AreNew seen vs, normalize_from-AreNew (trim_space v ∷ seen) vs)

pub normalize_role_families-AreNew : (ids : List Text) → AreNew [] (normalize_role_families ids)
unfolding normalize_role_families
normalize_role_families-AreNew ids = normalize_from-AreNew [] ids

-- Every element passes a test.
unfoldable pub all_seen : (Text → Bool) → List Text → Bool
all_seen p [] = true
all_seen p (k ∷ ks) = p k && all_seen p ks

-- What holds of every element holds of one that occurs.
pub seen_all :
    (p : Text → Bool) (ks : List Text) (r : Text)
    → all_seen p ks ≡ true
    → seen_in r ks ≡ true
    → p r ≡ true
unfolding all_seen seen_in
seen_all p [] r h e = cc
seen_all p (k ∷ ks) r h e = elim (Bool-cases (k == r)) [
  | inl t ↦ ap p (sym ((eq_iff k r).0 t)) ∙ ground (arith, h)
  | inr f ↦ seen_all p ks r (ground (arith, h)) (ground (arith, e))
]

abbrev trimmed_id : Text → Bool
trimmed_id r = trim_space r == r && not (is_empty r)

trimmed_ids : all_seen trimmed_id all_role_family_ids ≡ true
unfolding all_seen trim_space ◌==◌
trimmed_ids = refl

normalize_from_of_AreNew : (seen rs : List Text) → AreNew seen rs → normalize_from seen rs ≡ rs
unfolding normalize_from
normalize_from_of_AreNew seen [] h = refl
normalize_from_of_AreNew seen (r ∷ rs) (k, (n, h)) =
    let t = seen_all trimmed_id all_role_family_ids r trimmed_ids k in
    ground (arith, t, k, n, eq_iff (trim_space r) r, normalize_from_of_AreNew (r ∷ seen) rs h)

-- A normalized list stays as it is.
pub normalize_role_families_idem :
    (ids : List Text)
    → normalize_role_families (normalize_role_families ids) ≡ normalize_role_families ids
unfolding normalize_role_families
normalize_role_families_idem ids =
    normalize_from_of_AreNew [] (normalize_from [] ids) (normalize_from-AreNew [] ids)
