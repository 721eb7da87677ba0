-- ===== src/Domain/Location/Lists.antt =====
-- Lists typed by the user: what is printed is read back.
use jobscout.Prelude.{
  ◌≡◌, refl, sym, append-nil, ◌∙◌, ap, Bool, true, false, List, [], ◌∷◌, ◌++◌, arith, is_empty, All,
}
use jobscout.Text.{Text, ◌==◌, codes, lower, to_lower, trim_space, join}
use jobscout.Text.Trim.{filled-trim_space, starts_of_trim_space, trim_space-nil}
use jobscout.Text.Fields.{
  fields_func, fields_func_from, IsFree, fields_func_from-append, fields_func_from-cut,
}
use jobscout.Domain.Criteria.{WorkSettings}
use jobscout.Domain.Location.{
  is_separator, items, parse_csv_list, parse_work_settings, selected_work_settings,
}

-- An item of a list: trimmed, not empty, without a separator.
pub record IsItem (s : Text) : Type 0 where
  pub trimmed : trim_space s ≡ s
  pub filled : is_empty s ≡ false
  pub free : IsFree is_separator s

trim_space-space : (s : Text) → trim_space (32 ∷ s) ≡ trim_space s
unfolding trim_space
trim_space-space s = refl

filled_of_trim_space : (z x : Text) → trim_space z ≡ x → is_empty x ≡ false → is_empty z ≡ false
filled_of_trim_space [] x t h = ground (arith, trim_space-nil)
filled_of_trim_space (c ∷ z) x t h = refl

items-last :
    (z x : Text)
    → trim_space z ≡ x
    → is_empty x ≡ false
    → items (fields_func_from is_separator z []) ≡ x ∷ []
unfolding fields_func_from
items-last [] x t h = ground (arith, filled_of_trim_space [] x t h)
items-last (c ∷ z) x t h = rw (t, h) refl

items-cut :
    (z x s : Text)
    → trim_space z ≡ x
    → is_empty x ≡ false
    → items (fields_func_from is_separator z (44 ∷ s))
      ≡ x ∷ items (fields_func_from is_separator [] s)
unfolding is_separator
items-cut [] x s t h = ground (arith, filled_of_trim_space [] x t h)
items-cut (c ∷ z) x s t h = rw (fields_func_from-cut is_separator c z 44 s refl, t, h) refl

-- The items of a printed list, when `cur` stands before it.
items-join :
    (cur x : Text) (xs : List Text)
    → trim_space (cur ++ x) ≡ x
    → IsItem x
    → All IsItem xs
    → items (fields_func_from is_separator cur (join (codes ", ") (x ∷ xs))) ≡ x ∷ xs
unfolding join fields_func_from is_separator
items-join cur x [] t h k =
    ap items (
      ap (fields_func_from is_separator cur) (sym (append-nil x))
      ∙ fields_func_from-append is_separator cur x [] h.free)
    ∙ items-last (cur ++ x) x t h.filled
items-join cur x (y ∷ ys) t h (k, ks) =
    ap items
      (fields_func_from-append is_separator cur x (codes ", " ++ join (codes ", ") (y ∷ ys)) h.free)
    ∙ (items-cut (cur ++ x) x (32 ∷ join (codes ", ") (y ∷ ys)) t h.filled
        ∙ ap (◌∷◌ x) (items-join (32 ∷ []) y ys (trim_space-space y ∙ k.trimmed) k ks))

filled-join :
    (x : Text) (xs : List Text)
    → IsItem x
    → is_empty (trim_space (join (codes ", ") (x ∷ xs))) ≡ false
unfolding join
filled-join [] xs h = absurd (ground (arith, h.filled))
filled-join (c ∷ x) [] h = filled-trim_space c x (starts_of_trim_space c x h.trimmed)
filled-join (c ∷ x) (y ∷ ys) h = filled-trim_space c _ (starts_of_trim_space c x h.trimmed)

-- A list of trimmed texts that are not empty and hold no comma and no line break, printed with
-- commas between them, is read back as it was.
pub parse_csv_list-join :
    (xs : List Text) → All IsItem xs → parse_csv_list (join (codes ", ") xs) ≡ xs
unfolding parse_csv_list fields_func trim_space join
parse_csv_list-join [] h = refl
parse_csv_list-join (x ∷ xs) (h, k) = rw (filled-join x xs h) (items-join [] x xs h.trimmed h k)

settings-printed :
    (r h o : Bool)
    → parse_work_settings
        (join (codes ", ") (selected_work_settings (record { remote = r; hybrid = h; onsite = o })))
      ≡ record { remote = r; hybrid = h; onsite = o }
unfolding parse_work_settings selected_work_settings join fields_func trim_space to_lower lower ◌==◌
settings-printed true true true = refl
settings-printed true true false = refl
settings-printed true false true = refl
settings-printed true false false = refl
settings-printed false true true = refl
settings-printed false true false = refl
settings-printed false false true = refl
settings-printed false false false = refl

-- The selected work settings, printed with commas between them, are read back as they were.
pub parse_work_settings-selected_work_settings :
    (s : WorkSettings) → parse_work_settings (join (codes ", ") (selected_work_settings s)) ≡ s
parse_work_settings-selected_work_settings s = settings-printed s.remote s.hybrid s.onsite
