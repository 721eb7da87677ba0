-- ===== src/Tui/Popup.antt =====
-- internal/tui/popup_viewport.go, popup_menu.go and popup_dropdown.go: what a popup shows of a list of
-- lines, and where. The display width of a text, its truncation and the terminal styles are those of
-- the packages lipgloss and ansi, and parameters, and so is `scaled a n h`, which is
-- int(float64(a) / float64(n) * float64(h)).
pub mod Viewport
pub mod Selected
use jobscout.Prelude.{
  ℕ, zero, suc, ◌+◌, ◌-◌, ◌/◌, ltb, leb, ◌≡◌, Bool, true, false, not, ◌&&◌, ◌||◌, List, [], ◌∷◌,
  ◌++◌, Option, none, some, is_empty, map, length, take, drop, eqb, get_elem?, if◌then◌else◌, min,
}
use jobscout.Prelude.Int.{ℤ, pos, negsuc, pos_part, ltb_ℤ, leb_ℤ, add_ℤ, sub_ℤ}
use jobscout.Text.{Text, codes, trim_space, split, join}

-- if v < low { v = low }
abbrev pub at_least : ℕ → ℤ → ℕ
at_least low v = if ltb_ℤ v (pos low) then low else pos_part v

unfoldable pub clamp_popup_scroll : ℤ → ℤ → ℤ
clamp_popup_scroll offset max_offset =
    if ltb_ℤ offset (pos 0) then pos 0 else if ltb_ℤ max_offset offset then max_offset else offset

-- strings.Repeat
abbrev pub repeat : ℕ → Text → Text
repeat zero s = []
repeat (suc n) s = s ++ repeat n s

unfoldable pub truncate_runes : Text → ℤ → Text
truncate_runes s max =
    let m = pos_part max in
    if ltb_ℤ max (pos 1)
    then []
    else if leb (length s) m
    then s
    else if eqb m 1
    then codes "…"
    else take (m - 1) s ++ codes "…"

pub record PopupViewport : Type 0 where
  pub content : Text
  pub max_offset : ℕ

pub record PopupMenuItem : Type 0 where
  pub prefix : Text
  pub label : Text
  pub detail : Text
  pub disabled : Bool
  pub selected : Bool

unfoldable pub normalize_dropdown_selected_idx : ℤ → ℕ → ℕ
normalize_dropdown_selected_idx selected_idx item_count =
    if eqb item_count 0
    then 0
    else if ltb_ℤ selected_idx (pos 0)
    then 0
    else if leb_ℤ (pos item_count) selected_idx
    then item_count - 1
    else pos_part selected_idx

-- the index, moved into the list
abbrev pub index_in_menu : ℤ → ℕ → ℤ
index_in_menu selected_idx item_count =
    let from_zero = if ltb_ℤ selected_idx (pos 0) then pos 0 else selected_idx in
    if leb_ℤ (pos item_count) from_zero then sub_ℤ (pos item_count) (pos 1) else from_zero

-- an offset between 0 and the largest one
abbrev pub bounded_offset : ℤ → ℤ → ℤ
bounded_offset offset max_offset =
    if ltb_ℤ offset (pos 0) then pos 0 else if ltb_ℤ max_offset offset then max_offset else offset

unfoldable pub popup_menu_scroll_offset : ℤ → ℕ → ℤ → ℤ
popup_menu_scroll_offset selected_idx item_count max_lines =
    if ltb_ℤ max_lines (pos 1) || leb_ℤ (pos item_count) max_lines
    then pos 0
    else bounded_offset (add_ℤ (sub_ℤ (index_in_menu selected_idx item_count) max_lines) (pos 1))
        (sub_ℤ (pos item_count) max_lines)

unfoldable pub dropdown_scroll_marker : ℤ → ℤ → Text
dropdown_scroll_marker offset max_offset =
    if leb_ℤ max_offset (pos 0)
    then codes " "
    else if leb_ℤ offset (pos 0)
    then codes "↓"
    else if leb_ℤ max_offset offset
    then codes "↑"
    else codes "↑ ↓"

-- what is shown of a list of lines: the first one, and the one after the last
pub record Window : Type 0 where
  pub all : List Text
  pub first : ℕ
  pub end : ℕ
  pub last_offset : ℕ

abbrev or_blank : List Text → List Text
or_blank [] = [] ∷ []
or_blank (line ∷ lines) = line ∷ lines

-- the first part of RenderPopupViewport, up to the slice
unfoldable pub viewport_window : List Text → ℤ → ℤ → Window
unfolding clamp_popup_scroll
viewport_window lines max_lines offset =
    let rows = at_least 1 max_lines in
    let all = or_blank lines in
    let last_offset = length all - rows in
    let first = pos_part (clamp_popup_scroll offset (pos last_offset)) in
    record {
      all = all;
      first = first;
      end = if ltb (length all) (first + rows) then length all else first + rows;
      last_offset = last_offset;
    }

-- lines[offset:end]
abbrev pub visible : Window → List Text
visible w = take (w.end - w.first) (drop w.first w.all)

module _ (width_of : Text → ℕ) (truncate : Text → ℕ → Text) where
  -- parts[0], since strings.Split gives at least one part
  abbrev first_line : List Text → Text → Text
  first_line [] line = line
  first_line (part ∷ parts) line = part

  unfoldable pub pad_popup_viewport_line : Text → ℕ → Text
  pad_popup_viewport_line text width =
      let line = first_line (split text 10) text in
      let cut = if ltb width (width_of line) then truncate line width else line in
      if ltb width 1 then [] else cut ++ repeat (width - width_of cut) (codes " ")

  module _ (scaled : ℕ → ℕ → ℕ → ℕ) (scrollbar : Bool → Text) where
    -- the rows of the bar that are filled: the first one, and the one after the last
    unfoldable pub thumb : Window → ℕ × ℕ
    thumb w =
        let height = w.end - w.first in
        let start_row = scaled w.first (length w.all) height in
        let end_row = scaled w.end (length w.all) height in
        let after_start = if leb end_row start_row then start_row + 1 else end_row in
        (start_row, if ltb height after_start then height else after_start)

    -- the lines with the bar behind them, from row `i`
    unfoldable pub with_bar : (Text → Text) → ℕ → ℕ × ℕ → ℕ → List Text → List Text
    with_bar styler width filled i [] = []
    with_bar styler width filled i (line ∷ lines) =
        (pad_popup_viewport_line (styler line) width
          ++ (codes " " ++ scrollbar (leb filled.0 i && ltb i filled.1)))
        ∷ with_bar styler width filled (suc i) lines

    -- the styled lines, before they are joined
    unfoldable pub viewport_rows : (Text → Text) → ℤ → ℤ → Window → List Text
    unfolding thumb with_bar
    viewport_rows styler width max_lines w =
        if leb (length w.all) (at_least 1 max_lines)
        then map styler (visible w)
        else with_bar styler (at_least 10 width) (thumb w) 0 (visible w)

    unfoldable pub render_popup_viewport : List Text → ℤ → ℤ → ℤ → (Text → Text) → PopupViewport
    unfolding viewport_window viewport_rows
    render_popup_viewport lines width max_lines offset styler =
        let w = viewport_window lines max_lines offset in
        record {
          content = join (codes "\n") (viewport_rows styler width max_lines w);
          max_offset = if leb (length w.all) (at_least 1 max_lines) then 0 else w.last_offset;
        }

  -- The styles of the menu: the hint, the selected and the other rows.
  module _ (hint active inactive : Text → Text) where
    unfoldable pub render_popup_menu_item : PopupMenuItem → Text
    render_popup_menu_item item =
        let labelled =
          if is_empty (trim_space item.prefix)
          then item.label
          else item.prefix ++ (codes " " ++ item.label) in
        let row_text =
          if is_empty (trim_space item.detail)
          then labelled
          else labelled ++ (codes " " ++ hint item.detail) in
        if item.disabled
        then hint (codes "  " ++ row_text)
        else if item.selected
        then active (codes "> " ++ row_text)
        else inactive (codes "  " ++ row_text)

    unfoldable pub render_popup_menu : List PopupMenuItem → Text
    render_popup_menu items = join (codes "\n") (map render_popup_menu_item items)

    module _ (scaled : ℕ → ℕ → ℕ → ℕ) (scrollbar : Bool → Text) where
      unfoldable pub render_popup_menu_viewport : List PopupMenuItem → ℤ → ℤ → ℤ → PopupViewport
      render_popup_menu_viewport items width max_lines selected_idx =
          let lines = map render_popup_menu_item items in
          render_popup_viewport scaled scrollbar lines width max_lines
            (popup_menu_scroll_offset selected_idx (length lines) max_lines) (λ line. line)

  unfoldable pub pad_visible_right : Text → ℤ → Text
  pad_visible_right text width =
      let cut = truncate_runes text width in
      if ltb_ℤ width (pos 1) then [] else cut ++ repeat (pos_part width - width_of cut) (codes " ")

  unfoldable pub center_visible : Text → ℤ → Text
  center_visible text width =
      let cut = truncate_runes text width in
      let left = (pos_part width - width_of cut) / 2 in
      if ltb_ℤ width (pos 1) then [] else repeat left (codes " ") ++ cut
