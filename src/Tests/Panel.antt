-- ===== src/Tests/Panel.antt =====
-- The panel with one changed row, and a font whose characters are solid blocks.
use mos_rust.Prelude.{
  ℕ, ◌+◌, ◌-◌, ◌*◌, ◌<◌, ◌≡◌, refl, ap, List, [], ◌∷◌, Bool, true, false, ◌&&◌, ltb, length, ok,
  arith,
}
use mos_rust.Lcd.{Terminal, ring, create}
use mos_rust.Lcd.Render.{Frame, hardware_y_offset, refresh, render_full}
use mos_rust.Lcd.Render.Pixels.{picture-margin}
use mos_rust.Lcd.Render.Shows.{IsShown, refresh-IsShown}
use mos_rust.Lcd.Chars.{Pending, ring-Pending}
use mos_rust.Lcd.Task.{LcdTask, start, typed, round, run}
use mos_rust.Lcd.Task.Rounds.{follow, run-shows}

abbrev solid : List ℕ → ℕ → ℕ → Bool
solid line dx dy = ltb dx (6 * length line) && ltb dy 12

abbrev any_text : List ℕ → Bool
any_text line = true

solid_fits : (line : List ℕ) (dx dy : ℕ) → solid line dx dy ≡ true → dy < 12
solid_fits line dx dy h = ground arith

-- "A" was typed in the first row.
abbrev one_line : Terminal
one_line = record {
  screen = (0x41 ∷ []) ∷ (0x42 ∷ []) ∷ [];
  lens = 1 ∷ 1 ∷ [];
  cursor_row = 0;
  cursor_col = 1;
  dirty = true ∷ false ∷ [];
}

abbrev drawn : Frame
drawn = render_full solid any_text one_line

abbrev panel : Frame
panel x y = drawn x (y - hardware_y_offset)

drawn-IsShown : IsShown solid any_text solid_fits one_line drawn panel
drawn-IsShown = record {
  rows = λ r x y lt clean hx b. refl;
  margins = λ x y hx m. picture-margin solid any_text solid_fits one_line x y m;
  on_panel = λ x y hx hy.
      let back : y + hardware_y_offset - hardware_y_offset ≡ y = omega arith in ap (drawn x) back;
}

refresh-IsShown_example :
    ((refresh solid any_text one_line drawn panel).0 12 20
      ≡ render_full solid any_text one_line 12 20)
    × ((refresh solid any_text one_line drawn panel).1 12 54
        ≡ render_full solid any_text one_line 12 20)
refresh-IsShown_example =
    refresh-IsShown solid any_text solid_fits one_line drawn panel drawn-IsShown 12 20 (omega arith)
      (omega arith)

-- "hi" and a line break are typed, and the loop goes round before and after the last of them.
run-shows_example :
    (s : LcdTask) × (waiting : List ℕ) × (run solid any_text
        (typed 0x68 ∷ typed 0x69 ∷ round ∷ typed 0x0A ∷ round ∷ [])
        (start solid any_text ring panel)
      ≡ ok s)
    × (follow (typed 0x68 ∷ typed 0x69 ∷ round ∷ typed 0x0A ∷ round ∷ []) [] create
        ≡ ok (waiting, s.term))
    × Pending s.chars waiting
    × (s.panel 12 (20 + hardware_y_offset) ≡ render_full solid any_text s.term 12 20)
run-shows_example =
    run-shows solid any_text solid_fits (typed 0x68 ∷ typed 0x69 ∷ round ∷ typed 0x0A ∷ round ∷ [])
      ring [] panel 12 20 ring-Pending (omega arith) (omega arith)
