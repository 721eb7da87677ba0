-- ===== src/Fetcher/Visits/Key.antt =====
-- The key of a visit: an URL without what does not change the page.
use jobscout.Prelude.{
  ◌≡◌, refl, ap, ◌∙◌, Bool, ◌||◌, List, [], ◌∷◌, ◌++◌, map, Option, none, some, is_empty,
  if◌then◌else◌,
}
use mathlib.Core.List.{Perm}
use jobscout.Text.{
  Text, codes, ◌==◌, to_lower, to_upper, trim_space, trim_right_char, has_prefix, has_suffix,
}
use jobscout.Text.Order.{sort_texts, sort_texts-Perm}
use jobscout.Text.Dict.{Dict, text_Eq, get}
use jobscout.Text.Dict.Unique.{remove_if}
use jobscout.Fetcher.Urls.{UrlPackage}

unfoldable pub is_tracking_query_param : Text → Bool
is_tracking_query_param raw =
    let key = to_lower (trim_space raw) in
    has_prefix key (codes "utm_")
    || key == codes "fbclid"
    || key == codes "gclid"
    || key == codes "msclkid"
    || key == codes "mc_cid"
    || key == codes "mc_eid"

-- url.Values: the values of each name
abbrev pub Values : Type 0
Values = Dict Text (List Text)

-- `values[key]`, where a missing key has none
abbrev or_no_values : Option (List Text) → List Text
or_no_values none = []
or_no_values (some vs) = vs

abbrev names : Values → List Text
names = map (λ e. e.0)

module _ (urls : UrlPackage) where
  -- the body of the inner loop; `built` is what the builder holds
  abbrev write_pair : Text → Text → Text → Text
  write_pair key value built =
      (if is_empty built then [] else built ++ codes "&")
      ++ (urls.query_escape key ++ (codes "=" ++ urls.query_escape value))

  unfoldable pub write_values : Text → List Text → Text → Text
  write_values key [] built = built
  write_values key (v ∷ vs) built = write_values key vs (write_pair key v built)

  unfoldable pub write_keys : Values → List Text → Text → Text
  unfolding write_values
  write_keys values [] built = built
  write_keys values (k ∷ ks) built =
      write_keys values ks (write_values k (sort_texts (or_no_values (get k values))) built)

  unfoldable pub sorted_query_string : Values → Text
  unfolding write_keys
  sorted_query_string values = write_keys values (sort_texts (names values)) []

  -- query.Del of each tracking parameter
  unfoldable pub without_tracking : Values → Values
  unfolding is_tracking_query_param
  without_tracking query = (remove_if (λ k _. is_tracking_query_param k) query).1

  unfoldable pub canonical_visit_url : urls.Url → urls.Url
  unfolding without_tracking sorted_query_string
  canonical_visit_url u =
      let v =
        urls.clear_fragment
          (urls.set_host (to_lower (urls.host u)) (urls.set_scheme (to_lower (urls.scheme u)) u)) in
      urls.set_raw_query (sorted_query_string (without_tracking (urls.query v))) v

  abbrev key_of : Option urls.Url → Text
  key_of none = []
  key_of (some u) =
      if is_empty (urls.host u)
      then []
      else trim_right_char b'?' (urls.to_string (canonical_visit_url u))

  unfoldable pub canonical_url_visit_key : Text → Text
  unfolding canonical_visit_url
  canonical_url_visit_key raw_url = key_of (urls.parse (trim_space raw_url))

  -- the key of FetchApplyPage; `none` is a visit that the registry does not take part in
  unfoldable pub html_visit_key : Text → Option Text
  unfolding canonical_url_visit_key
  html_visit_key apply_url =
      let key = codes "html:" ++ canonical_url_visit_key apply_url in
      if key == codes "html:" then none else some key

  -- the key of ProbeURL
  unfoldable pub probe_visit_key : Text → Text → Option Text
  unfolding canonical_url_visit_key
  probe_visit_key method apply_url =
      let key =
        codes "probe:"
        ++ (to_upper (trim_space method) ++ (codes ":" ++ canonical_url_visit_key apply_url)) in
      if has_suffix key (codes ":") then none else some key

-- The values of a name.
abbrev pub values_of : Values → Text → List Text
values_of values k = or_no_values (get k values)

-- The same names, and for each name the same values, both in some order.
pub record SameValues (u v : Values) : Type 0 where
  pub same_names : Perm (names u) (names v)
  pub same_values : (k : Text) → Perm (values_of u k) (values_of v k)

module _ (urls : UrlPackage) (u v : Values) where
  write_keys-same :
      (ks : List Text) (built : Text)
      → ((k : Text) → sort_texts (values_of u k) ≡ sort_texts (values_of v k))
      → write_keys urls u ks built ≡ write_keys urls v ks built
  unfolding write_keys
  write_keys-same [] built h = refl
  write_keys-same (k ∷ ks) built h = rw (h k) (write_keys-same ks _ h)

  -- The query that goes into the key does not depend on the order in which the map yields its names,
  -- nor on the order of the values of a name.
  pub sorted_query_string-SameValues :
      SameValues u v → sorted_query_string urls u ≡ sorted_query_string urls v
  unfolding sorted_query_string
  sorted_query_string-SameValues h =
      ap (λ ks. write_keys urls u ks []) (sort_texts-Perm h.same_names)
      ∙ write_keys-same (sort_texts (names v)) [] (λ k. sort_texts-Perm (h.same_values k))
