-- ===== src/Tuiapp/Table/Placed.antt =====
-- The keys keep the cursor on a row of the list, and that row in the window.
use jobscout.Prelude.{
  ℕ, ◌+◌, ◌-◌, ◌≡◌, ◌≤◌, ◌<◌, refl, true, false, List, [], ◌∷◌, arith, is_empty, length, leb,
  Bool-cases, inl, inr,
}
use jobscout.Prelude.Int.{ℤ, pos, negsuc, ltb_ℤ, leb_ℤ, add_ℤ}
use jobscout.Tuiapp.Table.{Table}
use jobscout.Tuiapp.Table.Keys.{
  key_up, key_down, key_page_up, key_page_down, key_home, key_end, move_cursor, clamp_row,
  show_above, show_below, clamp_offset,
}
use jobscout.Domain.Job.{Job}

pub record IsPlaced (s : Table) : Type 0 where
  pub at_row : leb_ℤ (pos 0) s.cursor ≡ true
  pub in_list : ltb_ℤ s.cursor (pos (length s.filtered_jobs)) ≡ true
  pub offset : leb_ℤ (pos 0) s.y_offset ≡ true
  pub from_top : leb_ℤ s.y_offset s.cursor ≡ true
  pub to_bottom : ltb_ℤ s.cursor (add_ℤ s.y_offset s.table_height) ≡ true

-- A table with the cursor on row `c`, in a window of `h` rows from row `y`.
abbrev pub placed : Table → ℕ → ℕ → ℕ → Table
placed t c y h = record t { cursor = pos c; y_offset = pos y; table_height = pos h }

module _ (t : Table) (c y h : ℕ) (row : c < length t.filtered_jobs) (top : y ≤ c)
    (bottom : c < y + h) where
  key_up-IsPlaced : IsPlaced (key_up (placed t c y h))
  unfolding key_up
  key_up-IsPlaced = record {
    at_row = ground (arith, row);
    in_list = ground (arith, row);
    offset = ground (arith, row);
    from_top = ground (arith, top);
    to_bottom = ground (arith, top, bottom);
  }

  key_down-IsPlaced : IsPlaced (key_down (placed t c y h))
  unfolding key_down
  key_down-IsPlaced = record {
    at_row = ground (arith, row);
    in_list = ground (arith, row);
    offset = ground (arith, row);
    from_top = ground (arith, top);
    to_bottom = ground (arith, top, bottom);
  }

  key_page_up-IsPlaced : IsPlaced (key_page_up (placed t c y h))
  unfolding key_page_up
  key_page_up-IsPlaced = record {
    at_row = ground (arith, row);
    in_list = ground (arith, row);
    offset = ground (arith, row);
    from_top = ground (arith, top);
    to_bottom = ground (arith, top, bottom);
  }

  key_page_down-IsPlaced : IsPlaced (key_page_down (placed t c y h))
  unfolding key_page_down
  key_page_down-IsPlaced = record {
    at_row = ground (arith, row);
    in_list = ground (arith, row);
    offset = ground (arith, row);
    from_top = ground (arith, top, bottom);
    to_bottom = ground (arith, top, bottom);
  }

  key_home-IsPlaced : IsPlaced (key_home (placed t c y h))
  unfolding key_home
  key_home-IsPlaced = record {
    at_row = ground (arith, row);
    in_list = ground (arith, row);
    offset = ground (arith, row);
    from_top = ground (arith, top);
    to_bottom = ground (arith, top, bottom);
  }

  key_end-IsPlaced : IsPlaced (key_end (placed t c y h))
  unfolding key_end
  key_end-IsPlaced = record {
    at_row = ground (arith, row);
    in_list = ground (arith, row);
    offset = ground (arith, row);
    from_top = ground (arith, top, bottom, row);
    to_bottom = ground (arith, top, bottom, row);
  }

nonempty {ℓ} : {A : Type ℓ} (xs : List A) (c : ℕ) → c < length xs → is_empty xs ≡ false
nonempty [] c h = absurd (omega (arith, h))
nonempty (x ∷ xs) c h = refl

-- A row is found for every wish, and the window is moved to it from wherever it was.
clamp_row-lt :
    (jobs : List Job) (c : ℤ)
    → 0 < length jobs
    → (u : ℕ) × (clamp_row jobs c ≡ pos u) × (u < length jobs)
unfolding clamp_row
clamp_row-lt jobs (pos n) h = elim (Bool-cases (leb (length jobs) n)) [
  | inl e ↦ (length jobs - 1, ground (arith, h), omega (arith, h))
  | inr e ↦ (n, ground arith, ground arith)
]
clamp_row-lt jobs (negsuc n) h = (0, ground (arith, h), h)

scrolled-IsPlaced :
    (t : Table) (u y h : ℕ)
    → u < length t.filtered_jobs
    → 0 < h
    → IsPlaced (clamp_offset (show_below (show_above (placed t u y h))))
scrolled-IsPlaced t u y h row room = record {
  at_row = ground (arith, row);
  in_list = ground (arith, row);
  offset = ground (arith, row);
  from_top = ground (arith, room);
  to_bottom = ground (arith, room);
}

module _ (t : Table) (c y h : ℕ) (row : c < length t.filtered_jobs) (top : y ≤ c)
    (bottom : c < y + h) where
  move_cursor-IsPlaced : (delta : ℤ) → IsPlaced (move_cursor delta (placed t c y h))
  unfolding move_cursor
  move_cursor-IsPlaced delta =
      let (u, is_u, in_list) =
        clamp_row-lt t.filtered_jobs (add_ℤ (pos c) delta) (omega (arith, row)) in
      rw (nonempty t.filtered_jobs c row, is_u)
        (scrolled-IsPlaced t u y h in_list (omega (arith, top, bottom)))

  -- When the cursor is on a row that the window shows, then so it is after each of the keys up, down,
  -- pgup, pgdown, home and end, and after a move by any number of rows.
  pub keys-IsPlaced :
      IsPlaced (key_up (placed t c y h))
      × IsPlaced (key_down (placed t c y h))
      × IsPlaced (key_page_up (placed t c y h))
      × IsPlaced (key_page_down (placed t c y h))
      × IsPlaced (key_home (placed t c y h))
      × IsPlaced (key_end (placed t c y h))
      × ((delta : ℤ) → IsPlaced (move_cursor delta (placed t c y h)))
  keys-IsPlaced = (
    key_up-IsPlaced t c y h row top bottom,
    key_down-IsPlaced t c y h row top bottom,
    key_page_up-IsPlaced t c y h row top bottom,
    key_page_down-IsPlaced t c y h row top bottom,
    key_home-IsPlaced t c y h row top bottom,
    key_end-IsPlaced t c y h row top bottom,
    move_cursor-IsPlaced,
  )
