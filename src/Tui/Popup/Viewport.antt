-- ===== src/Tui/Popup/Viewport.antt =====
-- What a popup shows of its lines is a full window of them.
use jobscout.Prelude.{
  ℕ, zero, suc, ◌+◌, ◌-◌, ◌≤◌, ◌<◌, ◌≡◌, refl, ap, ◌∙◌, Bool, List, [], ◌∷◌, arith, length, take,
  drop, length-take, length-map, get_elem?, min,
}
use jobscout.Prelude.Int.{ℤ, pos, negsuc, pos_part}
use jobscout.Text.{Text}
use jobscout.Tui.Popup.{
  at_least, or_blank, clamp_popup_scroll, Window, viewport_window, visible, thumb, viewport_rows,
  with_bar,
}

module _ {A : Type 0} where
  length-drop : (n : ℕ) (xs : List A) → length (drop n xs) ≡ length xs - n
  length-drop zero xs = omega arith
  length-drop (suc n) [] = omega arith
  length-drop (suc n) (x ∷ xs) = omega (arith, length-drop n xs)

  get_elem?-drop : (n i : ℕ) (xs : List A) → get_elem? (drop n xs) i ≡ get_elem? xs (n + i)
  get_elem?-drop zero i xs = ap (get_elem? xs) (omega arith)
  get_elem?-drop (suc n) i [] = refl
  get_elem?-drop (suc n) i (x ∷ xs) =
      get_elem?-drop n i xs ∙ ap (get_elem? (x ∷ xs)) (next_index n i)
    where
      next_index : (n i : ℕ) → suc (n + i) ≡ suc n + i
      next_index n i = omega arith

  get_elem?-take : (n i : ℕ) (xs : List A) → i < n → get_elem? (take n xs) i ≡ get_elem? xs i
  get_elem?-take zero i xs h = absurd (omega arith)
  get_elem?-take (suc n) i [] h = refl
  get_elem?-take (suc n) zero (x ∷ xs) h = refl
  get_elem?-take (suc n) (suc i) (x ∷ xs) h = get_elem?-take n i xs (omega arith)

at_least-pos : (v : ℤ) → 0 < at_least 1 v
at_least-pos v = ground arith

pub clamp-le : (offset : ℤ) (m : ℕ) → pos_part (clamp_popup_scroll offset (pos m)) ≤ m
unfolding clamp_popup_scroll
clamp-le (pos n) m = ground arith
clamp-le (negsuc n) m = ground arith

length-or_blank : (lines : List Text) → 0 < length (or_blank lines)
length-or_blank [] = omega arith
length-or_blank (line ∷ lines) = omega arith

-- A window of as many lines as fit, one at least, that begins at an offset in range.
pub record IsFull (max_lines : ℤ) (w : Window) : Type 0 where
  pub offset_fits : w.first ≤ w.last_offset
  pub ends : w.first + min (length w.all) (at_least 1 max_lines) ≡ w.end
  pub end_fits : w.end ≤ length w.all
  pub shows_some : w.first < w.end

module _ (lines : List Text) (max_lines offset : ℤ) where
  pub viewport_window-IsFull : IsFull max_lines (viewport_window lines max_lines offset)
  unfolding viewport_window
  viewport_window-IsFull = record {
    offset_fits = at_most;
    ends = ground (arith, at_most, some_rows, some_lines);
    end_fits = ground (arith, at_most, some_rows, some_lines);
    shows_some = ground (arith, at_most, some_rows, some_lines);
  }
    where
      some_rows : 0 < at_least 1 max_lines
      some_rows = at_least-pos max_lines

      some_lines : 0 < length (or_blank lines)
      some_lines = length-or_blank lines

      at_most :
          pos_part
            (clamp_popup_scroll offset (pos (length (or_blank lines) - at_least 1 max_lines)))
          ≤ length (or_blank lines) - at_least 1 max_lines
      at_most = clamp-le offset (length (or_blank lines) - at_least 1 max_lines)

pub get_elem?-visible :
    (w : Window) (i : ℕ)
    → i < w.end - w.first
    → get_elem? (visible w) i ≡ get_elem? w.all (w.first + i)
get_elem?-visible w i h =
    get_elem?-take (w.end - w.first) i (drop w.first w.all) h ∙ get_elem?-drop w.first i w.all

length-visible : (w : Window) → w.end ≤ length w.all → length (visible w) ≡ w.end - w.first
length-visible w h =
    length-take (w.end - w.first) (drop w.first w.all) (omega (arith, length-drop w.first w.all))

module _ (width_of : Text → ℕ) (truncate : Text → ℕ → Text) (scaled : ℕ → ℕ → ℕ → ℕ)
    (scrollbar : Bool → Text) where
  length-with_bar :
      (styler : Text → Text) (width : ℕ) (filled : ℕ × ℕ) (i : ℕ) (lines : List Text)
      → length (with_bar width_of truncate scaled scrollbar styler width filled i lines)
        ≡ length lines
  unfolding with_bar
  length-with_bar styler width filled i [] = refl
  length-with_bar styler width filled i (line ∷ lines) =
      ap suc (length-with_bar styler width filled (suc i) lines)

  module _ (lines : List Text) (max_lines offset width : ℤ) (styler : Text → Text) where
    abbrev shown_window : Window
    shown_window = viewport_window lines max_lines offset

    length-viewport_rows :
        length
          (viewport_rows width_of truncate scaled scrollbar styler width max_lines shown_window)
        ≡ shown_window.end - shown_window.first
    unfolding viewport_rows
    length-viewport_rows =
        let w = shown_window in
        let full = viewport_window-IsFull lines max_lines offset in
        ground (
          arith,
          length-visible w full.end_fits,
          length-map styler (visible w),
          length-with_bar styler (at_least 10 width) (thumb width_of truncate scaled scrollbar w) 0
              (visible w),
        )

    -- Whatever the offset and the height that are asked for, a popup shows as many rows as there are
    -- lines and as it is high, but no fewer than one; row `i` shows the line `i` rows below the offset
    -- that it uses, which is in range; and its scroll bar, where the scaling of the offset stays below
    -- the height, has a filled part that is not empty and does not leave the bar.
    pub viewport_rows-IsFull :
        scaled shown_window.first (length shown_window.all) (shown_window.end - shown_window.first)
          < shown_window.end - shown_window.first
        → let w = shown_window in
          let filled = thumb width_of truncate scaled scrollbar w in
          ((length (viewport_rows width_of truncate scaled scrollbar styler width max_lines w)
              ≡ min (length w.all) (at_least 1 max_lines))
            × ((w.first ≤ w.last_offset)
                × ((i : ℕ)
                    → i < w.end - w.first
                    → get_elem? (visible w) i ≡ get_elem? w.all (w.first + i))))
          × ((filled.0 < filled.1) × (filled.1 ≤ w.end - w.first))
    unfolding thumb
    viewport_rows-IsFull below =
        let w = shown_window in
        let full = viewport_window-IsFull lines max_lines offset in
        (
          (
            omega (arith, length-viewport_rows, full.ends),
            (full.offset_fits, λ i h. get_elem?-visible w i h),
          ),
          ground (arith, below),
        )
