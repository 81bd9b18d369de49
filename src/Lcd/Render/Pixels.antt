-- ===== src/Lcd/Render/Pixels.antt =====
-- The drawing of a row, of all rows and of the changed rows, pixel by pixel.
use mos_rust.Prelude.{
  ℕ, zero, suc, ◌+◌, ◌-◌, ◌*◌, ◌/◌, ◌≤◌, ◌<◌, ◌≡◌, refl, ap, ◌∙◌, inl, inr, List, [], Bool, true,
  false, ◌&&◌, ◌||◌, ltb, leb, ◌==◌, if◌then◌else◌, get_or, arith, Bool-cases, lt→ltb,
}
use mos_rust.Lcd.{term_rows, Terminal}
use mos_rust.Lcd.Render.{
  font_h, lcd_width, lcd_height, hardware_y_offset, row_h, margin_left, margin_top, Frame, black,
  term_text_color, row_text, erase_row, draw_row, render_row, draw_rows, render_full, flush_full,
  flush_row, refresh_rows,
}

-- A line of the screen that belongs to a row of text.
abbrev pub band : ℕ → ℕ → Bool
band row y = leb (margin_top + row * row_h) y && ltb y (margin_top + row * row_h + row_h)

-- `fits`: no pixel of a text lies further down than the font is high.
module _ (on : List ℕ → ℕ → ℕ → Bool) (is_utf8 : List ℕ → Bool)
    (fits : (line : List ℕ) (dx dy : ℕ) → on line dx dy ≡ true → dy < font_h) where
  -- A row's text sets a pixel.
  pub hit : Terminal → ℕ → ℕ → ℕ → Bool
  hit t row x y =
      (ltb 0 (get_or t.lens row 0) && is_utf8 (row_text t row))
      && (leb margin_left x
          && leb (margin_top + row * row_h + (row_h - font_h) / 2) y
          && on (row_text t row) (x - margin_left)
              (y - (margin_top + row * row_h + (row_h - font_h) / 2)))

  abbrev hits : ℕ → ℕ → Terminal → ℕ → ℕ → Bool
  hits zero row t x y = false
  hits (suc n) row t x y = hits n (row + 1) t x y || hit t row x y

  draw_row-hit :
      (t : Terminal) (row x y : ℕ) (fb : Frame)
      → draw_row on is_utf8 t row fb x y ≡ (if hit t row x y then term_text_color else fb x y)
  unfolding hit
  draw_row-hit t row x y fb =
      elim (Bool-cases (ltb 0 (get_or t.lens row 0) && is_utf8 (row_text t row))) [
        | inl e ↦ rw e refl
        | inr e ↦ rw e refl
      ]

  hit-band : (t : Terminal) (row x y : ℕ) → hit t row x y ≡ true → band row y ≡ true
  unfolding hit
  hit-band t row x y h = ground (
    arith,
    fits (row_text t row) (x - margin_left) (y - (margin_top + row * row_h + (row_h - font_h) / 2)),
  )

  draw_rows-hits :
      (n row : ℕ) (t : Terminal) (x y : ℕ) (fb : Frame)
      → draw_rows on is_utf8 n row t fb x y ≡ (if hits n row t x y then term_text_color else fb x y)
  unfolding draw_rows
  draw_rows-hits zero row t x y fb = refl
  draw_rows-hits (suc n) row t x y fb =
      draw_rows-hits n (row + 1) t x y (draw_row on is_utf8 t row fb)
      ∙ ap (λ v. if hits n (row + 1) t x y then term_text_color else v) (draw_row-hit t row x y fb)
      ∙ (elim (Bool-cases (hits n (row + 1) t x y)) [ inl e ↦ rw e refl | inr e ↦ rw e refl ])

  -- In the lines of one row only that row's text counts.
  hits-band :
      (n row r : ℕ) (t : Terminal) (x y : ℕ)
      → band r y ≡ true
      → hits n row t x y ≡ (leb row r && ltb r (row + n) && hit t r x y)
  hits-band zero row r t x y b = ground arith
  hits-band (suc n) row r t x y b =
      let next = hits-band n (row + 1) r t x y b in
      elim (Bool-cases (row == r)) [
        | inl e ↦ let is : row ≡ r = ground arith in rw is (ground (arith, rw is at next))
        | inr e ↦
            let none_here : hit t row x y ≡ false = ground (arith, hit-band t row x y) in
            rw (next, none_here) (ground arith)
      ]

  -- What the panel should show.
  abbrev pub picture : Terminal → ℕ → ℕ → ℕ
  picture t x y = render_full on is_utf8 t x y

  picture-hits :
      (t : Terminal) (x y : ℕ)
      → picture t x y ≡ (if hits term_rows 0 t x y then term_text_color else black)
  unfolding render_full
  picture-hits t x y = draw_rows-hits term_rows 0 t x y (λ x y. black)

  -- In the lines of a row the picture is that row's text on black.
  pub picture-band :
      (t : Terminal) (r x y : ℕ)
      → r < term_rows
      → band r y ≡ true
      → picture t x y ≡ (if hit t r x y then term_text_color else black)
  picture-band t r x y lt b =
      picture-hits t x y
      ∙ ap (λ h. if h then term_text_color else black)
          (hits-band term_rows 0 r t x y b ∙ ground arith)

  -- Drawing a row again makes its lines right and changes no others.
  render_row-picture :
      (t : Terminal) (r x y : ℕ) (fb : Frame)
      → r < term_rows
      → x < lcd_width
      → render_row on is_utf8 t r fb x y ≡ (if band r y then picture t x y else fb x y)
  unfolding render_row
  render_row-picture t r x y fb lt hx =
      draw_row-hit t r x y (erase_row on is_utf8 (margin_top + r * row_h) fb)
      ∙ (elim (Bool-cases (band r y)) [
        | inl e ↦ rw (e, picture-band t r x y lt e, lt→ltb x lcd_width hx, e) refl
        | inr e ↦
            let nothing : hit t r x y ≡ false = ground (arith, hit-band t r x y) in
            rw (e, nothing, lt→ltb x lcd_width hx, e) refl
      ])

  flush_row-band :
      (r x y : ℕ) (fb panel : Frame)
      → r < term_rows
      → x < lcd_width
      → flush_row on is_utf8 r fb panel x (y + hardware_y_offset)
        ≡ (if band r y then fb x y else panel x (y + hardware_y_offset))
  unfolding flush_row
  flush_row-band r x y fb panel lt hx =
      let inside : leb lcd_height (margin_top + r * row_h + row_h - 1) ≡ false = ground arith in
      let room : leb ((margin_top + r * row_h + row_h - 1 + 1) * lcd_width) (lcd_width * lcd_height)
          ≡ true =
        ground arith in
      let back : y + hardware_y_offset - hardware_y_offset ≡ y = omega arith in
      rw (inside, room, back) (ground arith)

  pub flush_full-all :
      (x y : ℕ) (fb panel : Frame)
      → x < lcd_width
      → y < lcd_height
      → flush_full on is_utf8 fb panel x (y + hardware_y_offset) ≡ fb x y
  unfolding flush_full
  flush_full-all x y fb panel hx hy =
      let back : y + hardware_y_offset - hardware_y_offset ≡ y = omega arith in
      rw back (ground arith)

  -- What the loop over the changed rows does to one pixel.
  pub record Refreshed (n row : ℕ) (t : Terminal) (x y : ℕ) (fb panel : Frame) (r : Frame × Frame)
      : Type 0 where
    pub shown : panel x (y + hardware_y_offset) ≡ fb x y → r.1 x (y + hardware_y_offset) ≡ r.0 x y
    pub keeps : fb x y ≡ picture t x y → r.0 x y ≡ picture t x y
    pub fixes :
        (q : ℕ)
        → row ≤ q
        → q < row + n
        → get_or t.dirty q false ≡ true
        → band q y ≡ true
        → r.0 x y ≡ picture t x y

  pub refresh_rows-Refreshed :
      (n row : ℕ) (t : Terminal) (x y : ℕ) (fb panel : Frame)
      → row + n ≤ term_rows
      → x < lcd_width
      → Refreshed n row t x y fb panel (refresh_rows on is_utf8 n row t fb panel)
  unfolding refresh_rows
  refresh_rows-Refreshed zero row t x y fb panel h hx = record {
    shown = λ e. e;
    keeps = λ e. e;
    fixes = λ q lo hi d b. absurd (omega arith);
  }
  refresh_rows-Refreshed (suc n) row t x y fb panel h hx =
      elim (Bool-cases (get_or t.dirty row false)) [
        | inl changed ↦
            let drawn : Frame = render_row on is_utf8 t row fb in
            let panel1 : Frame = flush_row on is_utf8 row drawn panel in
            let s = refresh_rows-Refreshed n (row + 1) t x y drawn panel1 (omega arith) hx in
            let pixel = render_row-picture t row x y fb (omega arith) hx in
            let flushed = flush_row-band row x y drawn panel (omega arith) hx in
            rw changed (record {
              shown = λ e. s.shown (ground (arith, pixel, flushed));
              keeps = λ e. s.keeps (ground (arith, pixel));
              fixes = λ q lo hi d b. elim (Bool-cases (row == q)) [
                | inl same ↦ let is : row ≡ q = ground arith in s.keeps (pixel ∙ rw (is, b) refl)
                | inr other ↦ s.fixes q (ground arith) (omega arith) d b
              ];
            })
        | inr clean ↦
            let s = refresh_rows-Refreshed n (row + 1) t x y fb panel (omega arith) hx in
            rw clean (record {
              shown = s.shown;
              keeps = s.keeps;
              fixes = λ q lo hi d b. s.fixes q (ground arith) (omega arith) d b;
            })
      ]

  -- Outside the rows of text nothing is drawn.
  abbrev pub is_margin : ℕ → Bool
  is_margin y = ltb y margin_top || leb (margin_top + term_rows * row_h) y

  hits-margin :
      (n row : ℕ) (t : Terminal) (x y : ℕ)
      → row + n ≤ term_rows
      → is_margin y ≡ true
      → hits n row t x y ≡ false
  hits-margin zero row t x y h m = refl
  hits-margin (suc n) row t x y h m =
      ground (arith, hits-margin n (row + 1) t x y (omega arith) m, hit-band t row x y)

  pub picture-margin : (t : Terminal) (x y : ℕ) → is_margin y ≡ true → picture t x y ≡ black
  picture-margin t x y m =
      picture-hits t x y
      ∙ ap (λ h. if h then term_text_color else black)
          (hits-margin term_rows 0 t x y (omega arith) m)

  pub hit-Marked :
      (t t' : Terminal) (r x y : ℕ)
      → get_or t'.lens r 0 ≡ get_or t.lens r 0
      → get_or t'.screen r [] ≡ get_or t.screen r []
      → hit t' r x y ≡ hit t r x y
  unfolding hit
  hit-Marked t t' r x y lens screen = rw (lens, screen) refl
