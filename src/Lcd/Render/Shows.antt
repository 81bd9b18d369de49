-- ===== src/Lcd/Render/Shows.antt =====
-- What the panel shows after a round of the display's task.
use mos_rust.Prelude.{
  ℕ, ◌+◌, ◌-◌, ◌/◌, ◌<◌, ◌≡◌, refl, sym, ap, ◌∙◌, inl, inr, List, Bool, true, false, ltb,
  if◌then◌else◌, get_or, arith, Bool-cases,
}
use mos_rust.Lcd.{term_rows, Terminal, create, clear_dirty, dirty_count}
use mos_rust.Lcd.Marks.{Marked}
use mos_rust.Lcd.Render.{
  font_h, lcd_width, lcd_height, hardware_y_offset, row_h, margin_top, Frame, black,
  term_text_color, draw_rows, render_full, flush_full, refresh,
}
use mos_rust.Lcd.Render.Pixels.{
  band, picture, picture-band, hit-Marked, flush_full-all, refresh_rows-Refreshed, is_margin,
  picture-margin,
}

-- `fits`: no pixel of a text lies further down than the font is high.
module _ (on : List ℕ → ℕ → ℕ → Bool) (is_utf8 : List ℕ → Bool)
    (fits : (line : List ℕ) (dx dy : ℕ) → on line dx dy ≡ true → dy < font_h) where
  -- The panel shows the frame; the frame is right but for the rows that are marked as changed.
  pub record IsShown (t : Terminal) (fb panel : Frame) : Type 0 where
    pub rows :
        (r x y : ℕ)
        → r < term_rows
        → get_or t.dirty r false ≡ false
        → x < lcd_width
        → band r y ≡ true
        → fb x y ≡ picture on is_utf8 fits t x y
    pub margins : (x y : ℕ) → x < lcd_width → is_margin on is_utf8 fits y ≡ true → fb x y ≡ black
    pub on_panel :
        (x y : ℕ) → x < lcd_width → y < lcd_height → panel x (y + hardware_y_offset) ≡ fb x y

  -- After a round the frame is right, whichever way it was drawn.
  pub refresh-drawn :
      (t : Terminal) (fb panel : Frame)
      → IsShown t fb panel
      → (x y : ℕ) → x < lcd_width
      → (refresh on is_utf8 t fb panel).0 x y ≡ picture on is_utf8 fits t x y
  unfolding refresh
  refresh-drawn t fb panel before x y hx =
      elim (Bool-cases (ltb (term_rows / 2) (dirty_count t.dirty))) [
        | inl many ↦ rw many refl
        | inr few ↦
            let s =
              refresh_rows-Refreshed on is_utf8 fits term_rows 0 t x y fb panel (omega arith) hx in
            let r = (y - margin_top) / row_h in
            rw few (elim (Bool-cases (is_margin on is_utf8 fits y)) [
              | inl m ↦
                  s.keeps (before.margins x y hx m ∙ sym (picture-margin on is_utf8 fits t x y m))
              | inr text ↦
                  let low : r < term_rows = ground arith in
                  let b : band r y ≡ true = ground arith in
                  elim (Bool-cases (get_or t.dirty r false)) [
                    | inl d ↦ s.fixes r (omega arith) (omega arith) d b
                    | inr d ↦ s.keeps (before.rows r x y low d hx b)
                  ]
            ])
      ]

  refresh-flushed :
      (t : Terminal) (fb panel : Frame)
      → IsShown t fb panel
      → (x y : ℕ) → x < lcd_width
      → y < lcd_height
      → (refresh on is_utf8 t fb panel).1 x (y + hardware_y_offset)
        ≡ (refresh on is_utf8 t fb panel).0 x y
  unfolding refresh
  refresh-flushed t fb panel before x y hx hy =
      elim (Bool-cases (ltb (term_rows / 2) (dirty_count t.dirty))) [
        | inl many ↦
            rw many (flush_full-all on is_utf8 fits x y (render_full on is_utf8 t) panel hx hy)
        | inr few ↦
            let s =
              refresh_rows-Refreshed on is_utf8 fits term_rows 0 t x y fb panel (omega arith) hx in
            rw few (s.shown (before.on_panel x y hx hy))
      ]

  -- After a round of the display's task every pixel of the panel is as if the whole terminal had
  -- been drawn anew, whether the round drew all of it or only the rows marked as changed; before the
  -- round the panel shows the frame, and the frame is right but for those rows.
  pub refresh-IsShown :
      (t : Terminal) (fb panel : Frame)
      → IsShown t fb panel
      → (x y : ℕ) → x < lcd_width
      → y < lcd_height
      → ((refresh on is_utf8 t fb panel).0 x y ≡ picture on is_utf8 fits t x y)
        × ((refresh on is_utf8 t fb panel).1 x (y + hardware_y_offset)
            ≡ picture on is_utf8 fits t x y)
  refresh-IsShown t fb panel before x y hx hy =
      let drawn = refresh-drawn t fb panel before x y hx in
      (drawn, refresh-flushed t fb panel before x y hx hy ∙ drawn)

  -- Characters leave the frame right but for the rows that are then marked.
  pub Marked-IsShown :
      {t t' : Terminal} (fb panel : Frame) → Marked t t' → IsShown t fb panel → IsShown t' fb panel
  Marked-IsShown {t} {t'} fb panel m s = record {
    rows = λ r x y lt clean hx b.
        s.rows r x y lt (m.clean r lt clean) hx b
        ∙ picture-band on is_utf8 fits t r x y lt b
        ∙ ap (λ h. if h then term_text_color else black)
            (sym (hit-Marked on is_utf8 fits t t' r x y (m.lens r lt clean) (m.screen r lt clean)))
        ∙ sym (picture-band on is_utf8 fits t' r x y lt b);
    margins = s.margins;
    on_panel = s.on_panel;
  }

  picture-clear_dirty :
      (t : Terminal) (x y : ℕ)
      → picture on is_utf8 fits (clear_dirty t) x y ≡ picture on is_utf8 fits t x y
  unfolding render_full draw_rows clear_dirty
  picture-clear_dirty t x y = refl

  -- The round ends with nothing left to draw.
  pub refresh-settles :
      (t : Terminal) (fb panel : Frame)
      → IsShown t fb panel
      → IsShown (clear_dirty t) (refresh on is_utf8 t fb panel).0 (refresh on is_utf8 t fb panel).1
  refresh-settles t fb panel s = record {
    rows =
        λ r x y lt clean hx b. refresh-drawn t fb panel s x y hx ∙ sym (picture-clear_dirty t x y);
    margins =
        λ x y hx m. refresh-drawn t fb panel s x y hx ∙ picture-margin on is_utf8 fits t x y m;
    on_panel = λ x y hx hy. refresh-flushed t fb panel s x y hx hy;
  }

  -- Where nothing is marked, the panel shows the whole terminal.
  pub IsShown-all :
      {t : Terminal} {fb panel : Frame}
      → IsShown t fb panel
      → ((r : ℕ) → r < term_rows → get_or t.dirty r false ≡ false)
      → (x y : ℕ) → x < lcd_width
      → y < lcd_height
      → panel x (y + hardware_y_offset) ≡ picture on is_utf8 fits t x y
  IsShown-all {t} s clean x y hx hy =
      let r = (y - margin_top) / row_h in
      s.on_panel x y hx hy ∙ (elim (Bool-cases (is_margin on is_utf8 fits y)) [
        | inl m ↦ s.margins x y hx m ∙ sym (picture-margin on is_utf8 fits t x y m)
        | inr text ↦
            let low : r < term_rows = ground arith in
            s.rows r x y low (clean r low) hx (ground arith)
      ])

  -- The empty terminal on a cleared panel.
  pub create-IsShown :
      (panel : Frame) → IsShown create (λ x y. black) (flush_full on is_utf8 (λ x y. black) panel)
  unfolding create render_full draw_rows
  create-IsShown panel = record {
    rows = λ r x y lt clean hx b. refl;
    margins = λ x y hx m. refl;
    on_panel = λ x y hx hy. flush_full-all on is_utf8 fits x y (λ x y. black) panel hx hy;
  }
