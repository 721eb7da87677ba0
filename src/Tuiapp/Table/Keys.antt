-- ===== src/Tuiapp/Table/Keys.antt =====
-- The keys that move the cursor of the table: update_keys.go and overlay_actions.go.
use jobscout.Prelude.{List, length, is_empty, if◌then◌else◌}
use jobscout.Prelude.Int.{ℤ, pos, ltb_ℤ, leb_ℤ, add_ℤ, sub_ℤ}
use jobscout.Domain.Job.{Job}
use jobscout.Tuiapp.Table.{Table, last_row}

-- `if m.cursor < m.yOffset { m.yOffset = m.cursor }`
abbrev pub show_above : Table → Table
show_above t = if ltb_ℤ t.cursor t.y_offset then record t { y_offset = t.cursor } else t

-- `if m.cursor >= m.yOffset+m.tableHeight { m.yOffset = m.cursor - m.tableHeight + 1 }`
abbrev pub show_below : Table → Table
show_below t =
    if leb_ℤ (add_ℤ t.y_offset t.table_height) t.cursor
    then record t { y_offset = add_ℤ (sub_ℤ t.cursor t.table_height) (pos 1) }
    else t

-- `if m.yOffset < 0 { m.yOffset = 0 }`
abbrev pub clamp_offset : Table → Table
clamp_offset t = if ltb_ℤ t.y_offset (pos 0) then record t { y_offset = pos 0 } else t

unfoldable pub key_up : Table → Table
key_up t =
    if ltb_ℤ (pos 0) t.cursor then show_above (record t { cursor = sub_ℤ t.cursor (pos 1) }) else t

unfoldable pub key_down : Table → Table
key_down t =
    if ltb_ℤ t.cursor (last_row t.filtered_jobs)
    then show_below (record t { cursor = add_ℤ t.cursor (pos 1) })
    else t

unfoldable pub key_page_up : Table → Table
key_page_up t =
    let c = sub_ℤ t.cursor t.table_height in
    show_above (record t { cursor = if ltb_ℤ c (pos 0) then pos 0 else c })

unfoldable pub key_page_down : Table → Table
key_page_down t =
    let c = add_ℤ t.cursor t.table_height in
    show_below (record t {
      cursor = if leb_ℤ (pos (length t.filtered_jobs)) c then last_row t.filtered_jobs else c;
    })

unfoldable pub key_home : Table → Table
key_home t = record t { cursor = pos 0; y_offset = pos 0 }

unfoldable pub key_end : Table → Table
key_end t =
    let c = last_row t.filtered_jobs in
    clamp_offset (record t { cursor = c; y_offset = add_ℤ (sub_ℤ c t.table_height) (pos 1) })

-- the two clamps of moveCursor
unfoldable pub clamp_row : List Job → ℤ → ℤ
clamp_row jobs c =
    let lower = if ltb_ℤ c (pos 0) then pos 0 else c in
    if leb_ℤ (pos (length jobs)) lower then last_row jobs else lower

unfoldable pub move_cursor : ℤ → Table → Table
unfolding clamp_row
move_cursor delta t =
    if is_empty t.filtered_jobs
    then record t { cursor = pos 0; y_offset = pos 0 }
    else clamp_offset (
        show_below
          (show_above (record t { cursor = clamp_row t.filtered_jobs (add_ℤ t.cursor delta) })))
