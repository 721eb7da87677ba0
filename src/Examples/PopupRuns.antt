-- ===== src/Examples/PopupRuns.antt =====
-- Popups that show part of their lines.
use jobscout.Prelude.{
  drop, ℕ, ◌-◌, ◌*◌, ◌/◌, ◌≤◌, ◌<◌, ◌≡◌, refl, Bool, true, false, List, [], ◌∷◌, map, length, take,
  get_elem?,
}
use jobscout.Prelude.Int.{pos}
use jobscout.Text.{Text, codes}
use jobscout.Tui.Popup.{
  viewport_window, thumb, visible, Window, PopupMenuItem, render_popup_menu_item,
  popup_menu_scroll_offset, normalize_dropdown_selected_idx,
}
use jobscout.Tui.Popup.Selected.{menu_shows_selected}

abbrev cut : Text → ℕ → Text
cut s n = take n s

abbrev scaled : ℕ → ℕ → ℕ → ℕ
scaled a n h = (a * h) / n

abbrev bar : Bool → Text
bar true = codes "#"
bar false = codes "|"

abbrev plain : Text → Text
plain s = s

abbrev five : List Text
five = codes "a" ∷ codes "b" ∷ codes "c" ∷ codes "d" ∷ codes "e" ∷ []

abbrev window : Window
window = viewport_window five (pos 3) (pos 9)

-- The last three lines are shown, and the bar is filled from its second row on.
last_three : (visible window ≡ drop 2 five) × (thumb length cut scaled bar window ≡ (1, 3))
unfolding viewport_window thumb
last_three = (refl, refl)

abbrev item : Text → PopupMenuItem
item label = record { prefix = []; label = label; detail = []; disabled = false; selected = false }

abbrev items : List PopupMenuItem
items = map item five

menu_shows_selected_example :
    (((viewport_window
          (map (render_popup_menu_item length cut plain plain plain) items)
          (pos 2)
          (popup_menu_scroll_offset (pos 3) 5 (pos 2))).first
        ≤ 3)
      × (3
          < (viewport_window
              (map (render_popup_menu_item length cut plain plain plain) items)
              (pos 2)
              (popup_menu_scroll_offset (pos 3) 5 (pos 2))).end))
    × (get_elem?
          (visible (
            viewport_window
              (map (render_popup_menu_item length cut plain plain plain) items)
              (pos 2)
              (popup_menu_scroll_offset (pos 3) 5 (pos 2))))
          (3
            - (viewport_window
                (map (render_popup_menu_item length cut plain plain plain) items)
                (pos 2)
                (popup_menu_scroll_offset (pos 3) 5 (pos 2))).first)
        ≡ get_elem? (map (render_popup_menu_item length cut plain plain plain) items) 3)
unfolding normalize_dropdown_selected_idx
menu_shows_selected_example = menu_shows_selected plain plain plain length cut items (pos 3) 1 refl
