-- ===== src/Lcd/Render.antt =====
-- The drawing of the terminal and its way to the panel, boards/esp32c6/src/lcd.rs. A frame gives
-- the colour at a column and a line. `on` tells which pixels of a line of text the font sets, at
-- their distance from the text's upper left corner, and `is_utf8` whether bytes are text.
pub mod Pixels
pub mod Shows
use mos_rust.Prelude.{
  ℕ, zero, suc, ◌+◌, ◌-◌, ◌*◌, ◌/◌, ◌≤◌, ◌<◌, List, [], ◌∷◌, Bool, true, false, ◌&&◌, ltb, leb,
  ◌==◌, if◌then◌else◌, take, get_or, length,
}
use mos_rust.Lcd.{term_rows, Terminal, dirty_count}

abbrev pub font_h : ℕ
font_h = 12

abbrev pub lcd_width : ℕ
lcd_width = 320

abbrev pub lcd_height : ℕ
lcd_height = 172

abbrev pub hardware_y_offset : ℕ
hardware_y_offset = 34

abbrev pub row_h : ℕ
row_h = 14

abbrev pub margin_left : ℕ
margin_left = 10

abbrev pub margin_top : ℕ
margin_top = 10

abbrev pub Frame : Type 0
Frame = ℕ → ℕ → ℕ

abbrev pub black : ℕ
black = 0

-- Rgb565::new(30, 40, 5)
abbrev pub term_text_color : ℕ
term_text_color = 30 * 2048 + 40 * 32 + 5

-- `&self.screen[row][..len]`
abbrev pub row_text : Terminal → ℕ → List ℕ
row_text t row = take (get_or t.lens row 0) (get_or t.screen row [])

module _ (on : List ℕ → ℕ → ℕ → Bool) (is_utf8 : List ℕ → Bool) where
  -- The set pixels of a text, the others as they were.
  abbrev pub draw_text : List ℕ → ℕ → ℕ → Frame → Frame
  draw_text line x0 y0 fb x y =
      if leb x0 x && leb y0 y && on line (x - x0) (y - y0) then term_text_color else fb x y

  -- A black rectangle over the lines of a row.
  abbrev pub erase_row : ℕ → Frame → Frame
  erase_row y0 fb x y = if ltb x lcd_width && leb y0 y && ltb y (y0 + row_h) then black else fb x y

  -- The text of a row, if it has any.
  abbrev pub draw_row : Terminal → ℕ → Frame → Frame
  draw_row t row fb =
      let text_y = margin_top + row * row_h + (row_h - font_h) / 2 in
      if ltb 0 (get_or t.lens row 0) && is_utf8 (row_text t row)
      then draw_text (row_text t row) margin_left text_y fb
      else fb

  pub render_row : Terminal → ℕ → Frame → Frame
  render_row t row fb = draw_row t row (erase_row (margin_top + row * row_h) fb)

  -- The `for` of `render_full`, with `n` rows left from `row` on.
  pub draw_rows : ℕ → ℕ → Terminal → Frame → Frame
  draw_rows zero row t fb = fb
  draw_rows (suc n) row t fb = draw_rows n (row + 1) t (draw_row t row fb)

  pub render_full : Terminal → Frame
  unfolding draw_rows
  render_full t = draw_rows term_rows 0 t (λ x y. black)

  -- `set_pixels` with the panel's window from line `y0` to `y1`.
  abbrev pub set_pixels : ℕ → ℕ → Frame → Frame → Frame
  set_pixels y0 y1 fb panel x y =
      if leb x (lcd_width - 1) && leb y0 y && leb y y1
      then fb x (y - hardware_y_offset)
      else panel x y

  pub flush_full : Frame → Frame → Frame
  flush_full fb panel = set_pixels hardware_y_offset (lcd_height - 1 + hardware_y_offset) fb panel

  pub flush_row : ℕ → Frame → Frame → Frame
  flush_row row fb panel =
      let y_start = margin_top + row * row_h in
      let y_end = y_start + row_h - 1 in
      if leb lcd_height y_end
      then panel
      else if leb ((y_end + 1) * lcd_width) (lcd_width * lcd_height)
      then set_pixels (y_start + hardware_y_offset) (y_end + hardware_y_offset) fb panel
      else panel

  -- The `for` over the changed rows in `lcd_task`, with `n` rows left from `row` on.
  pub refresh_rows : ℕ → ℕ → Terminal → Frame → Frame → Frame × Frame
  refresh_rows zero row t fb panel = (fb, panel)
  refresh_rows (suc n) row t fb panel =
      let drawn = render_row t row fb in
      let changed = refresh_rows n (row + 1) t drawn (flush_row row drawn panel) in
      let kept = refresh_rows n (row + 1) t fb panel in
      if get_or t.dirty row false then changed else kept

  -- One round of `lcd_task` on the frame and the panel.
  pub refresh : Terminal → Frame → Frame → Frame × Frame
  unfolding refresh_rows
  refresh t fb panel =
      if ltb (term_rows / 2) (dirty_count t.dirty)
      then (render_full t, flush_full (render_full t) panel)
      else refresh_rows term_rows 0 t fb panel
