-- ===== src/Tui/Popup/Selected.antt =====
-- The selected item of a menu is in its window.
use jobscout.Prelude.{
  ℕ, suc, ◌+◌, ◌-◌, ◌≤◌, ◌<◌, leb, inl, inr, ◌≡◌, refl, ap, ◌∙◌, false, List, [], ◌∷◌, arith,
  is_empty, length, map, get_elem?, if◌then◌else◌, Bool-cases,
}
use jobscout.Prelude.Int.{ℤ, pos, negsuc, add_ℤ, sub_ℤ}
use jobscout.Text.{Text}
use jobscout.Tui.Popup.{
  or_blank, clamp_popup_scroll, Window, viewport_window, visible, PopupMenuItem, index_in_menu,
  bounded_offset, normalize_dropdown_selected_idx, popup_menu_scroll_offset, render_popup_menu_item,
}
use jobscout.Tui.Popup.Viewport.{get_elem?-visible}

index_in_menu-normal :
    (idx : ℤ) (n : ℕ) → 0 < n → index_in_menu idx n ≡ pos (normalize_dropdown_selected_idx idx n)
unfolding normalize_dropdown_selected_idx
index_in_menu-normal (pos i) n h = ground (arith, h)
index_in_menu-normal (negsuc i) n h = ground (arith, h)

normalize-lt : (idx : ℤ) (n : ℕ) → 0 < n → normalize_dropdown_selected_idx idx n < n
unfolding normalize_dropdown_selected_idx
normalize-lt (pos i) n h = ground (arith, h)
normalize-lt (negsuc i) n h = ground (arith, h)

-- s - (m + 1) + 1
add-sub :
    (s m : ℕ)
    → add_ℤ (sub_ℤ (pos s) (pos (suc m))) (pos 1)
      ≡ (if leb m s then pos (s - m) else negsuc (m - s - 1))
add-sub s m = ground arith

sub-pos : (n m : ℕ) → m ≤ n → sub_ℤ (pos n) (pos m) ≡ pos (n - m)
sub-pos n m h = ground (arith, h)

-- The offset for a menu of more items than rows.
bounded_offset-lem :
    (s n m : ℕ)
    → s < n
    → suc m < n
    → bounded_offset (add_ℤ (sub_ℤ (pos s) (pos (suc m))) (pos 1)) (sub_ℤ (pos n) (pos (suc m)))
      ≡ pos (s - m)
bounded_offset-lem s n m h k =
    rw (add-sub s m, sub-pos n (suc m) (omega arith)) (ground (arith, h, k))

scroll-offset :
    (idx : ℤ) (n m : ℕ)
    → 0 < n
    → popup_menu_scroll_offset idx n (pos (suc m))
      ≡ pos (normalize_dropdown_selected_idx idx n - (if leb n (suc m) then n else m))
unfolding popup_menu_scroll_offset
scroll-offset idx n m h = elim (Bool-cases (leb n (suc m))) [
  | inl e ↦ rw e (ground (arith, e, normalize-lt idx n h))
  | inr e ↦
      rw (e, index_in_menu-normal idx n h)
        (ground (
          arith,
          e,
          bounded_offset-lem (normalize_dropdown_selected_idx idx n) n m (normalize-lt idx n h),
        ))
]

module _ (lines : List Text) (filled : is_empty lines ≡ false) (idx : ℤ) (m : ℕ) where
  abbrev chosen : ℕ
  chosen = normalize_dropdown_selected_idx idx (length lines)

  abbrev menu_window : Window
  menu_window =
      viewport_window lines (pos (suc m))
        (popup_menu_scroll_offset idx (length lines) (pos (suc m)))

  or_blank-lines : or_blank lines ≡ lines
  or_blank-lines = or_blank_filled lines filled
    where
      or_blank_filled : (xs : List Text) → is_empty xs ≡ false → or_blank xs ≡ xs
      or_blank_filled [] h = cc
      or_blank_filled (x ∷ xs) h = refl

  some_lines : 0 < length lines
  some_lines = positive lines filled
    where
      positive : (xs : List Text) → is_empty xs ≡ false → 0 < length xs
      positive [] h = cc
      positive (x ∷ xs) h = omega arith

  chosen-in_window : (menu_window.first ≤ chosen) × (chosen < menu_window.end)
  unfolding viewport_window clamp_popup_scroll
  chosen-in_window =
      rw (or_blank-lines, scroll-offset idx (length lines) m some_lines)
        (ground (arith, normalize-lt idx (length lines) some_lines))

  all-lines : menu_window.all ≡ lines
  unfolding viewport_window
  all-lines = or_blank-lines

  chosen-visible :
      get_elem? (visible menu_window) (chosen - menu_window.first) ≡ get_elem? lines chosen
  chosen-visible =
      let back : menu_window.first + (chosen - menu_window.first) ≡ chosen =
        omega (arith, chosen-in_window) in
      get_elem?-visible menu_window (chosen - menu_window.first) (omega (arith, chosen-in_window))
      ∙ (ap (get_elem? menu_window.all) back ∙ ap (λ xs. get_elem? xs chosen) all-lines)

is_empty-map :
    (f : PopupMenuItem → Text) (items : List PopupMenuItem)
    → is_empty (map f items) ≡ is_empty items
is_empty-map f [] = refl
is_empty-map f (item ∷ items) = refl

module _ (hint active inactive : Text → Text) (width_of : Text → ℕ)
    (truncate : Text → ℕ → Text) where
  -- A menu that has items and at least one row scrolls so that its selected item is shown, whatever
  -- index is given: the item at that index, or the nearest one that there is, stands in the window,
  -- in the row that the offset says.
  pub menu_shows_selected :
      (items : List PopupMenuItem) (idx : ℤ) (m : ℕ)
      → is_empty items ≡ false
      → let lines = map (render_popup_menu_item width_of truncate hint active inactive) items in
        let w =
          viewport_window lines
            (pos (suc m))
            (popup_menu_scroll_offset idx (length lines) (pos (suc m))) in
        let sel = normalize_dropdown_selected_idx idx (length lines) in
        ((w.first ≤ sel) × (sel < w.end))
        × (get_elem? (visible w) (sel - w.first) ≡ get_elem? lines sel)
  menu_shows_selected items idx m filled =
      let some : is_empty
            (map (render_popup_menu_item width_of truncate hint active inactive) items)
          ≡ false =
        is_empty-map (render_popup_menu_item width_of truncate hint active inactive) items
        ∙ filled in
      (chosen-in_window _ some idx m, chosen-visible _ some idx m)
