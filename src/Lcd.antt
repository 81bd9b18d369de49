-- ===== src/Lcd.antt =====
-- The text terminal of the display, boards/esp32c6/src/lcd.rs: the ring of characters that wait to
-- be shown, and the screen's text, cursor and changed rows. Drawing is left to the display's driver.
pub mod Runs
pub mod Bounds
pub mod Render
pub mod Marks
pub mod Chars
pub mod Task
use mos_rust.Prelude.{
  ℕ, zero, suc, ◌+◌, ◌-◌, ◌/◌, ◌%◌, min, List, [], ◌∷◌, ◌++◌, Bool, true, false, Option, none, some,
  ltb, leb, ◌==◌, ◌||◌, if◌then◌else◌, length, get_elem?, set, replicate, Run, ok, stop,
  out_of_range, ◌>>=◌,
}

abbrev pub term_cols : ℕ
term_cols = (320 - 10) / 6

abbrev pub term_rows : ℕ
term_rows = (172 - 10) / 14

abbrev pub char_buf_size : ℕ
char_buf_size = 2048

-- `a[i]` and `a[i] = v`
abbrev pub read_at {ℓ} : {A : Type ℓ} → List A → ℕ → Run A
read_at xs i = elim (get_elem? xs i) [ none ↦ stop out_of_range | some a ↦ ok a ]

abbrev pub write_at {ℓ} : {A : Type ℓ} → List A → ℕ → A → Run (List A)
write_at xs i v = if ltb i (length xs) then ok (set xs i v) else stop out_of_range

pub record CharRing : Type 0 where
  pub buf : List ℕ
  pub head : ℕ
  pub tail : ℕ
  pub len : ℕ

unfoldable pub ring : CharRing
ring = record { buf = replicate char_buf_size 0; head = 0; tail = 0; len = 0 }

unfoldable pub push : CharRing → ℕ → Run CharRing
push r c =
    let stored = do
      buf ← write_at r.buf r.tail c
      ok (record r { buf = buf; tail = (r.tail + 1) % char_buf_size; len = r.len + 1 })
    in if ltb r.len char_buf_size then stored else ok r

-- The `for` of `drain`, with `n` rounds left from index `i` on.
unfoldable pub drain_from : ℕ → ℕ → CharRing → List ℕ → Run (CharRing × List ℕ)
drain_from zero i r out = ok (r, out)
drain_from (suc n) i r out = do
  c ← read_at r.buf r.head
  out1 ← write_at out i c
  drain_from n (i + 1) (record r { head = (r.head + 1) % char_buf_size }) out1

unfoldable pub drain : CharRing → List ℕ → Run (ℕ × CharRing × List ℕ)
unfolding drain_from
drain r out = do
  let n = min r.len (length out)
  (r1, out1) ← drain_from n 0 r out
  ok (n, record r1 { len = r1.len - n }, out1)

-- `cursor_row` and `cursor_col` are where the next character goes.
pub record Terminal : Type 0 where
  pub screen : List (List ℕ)
  pub lens : List ℕ
  pub cursor_row : ℕ
  pub cursor_col : ℕ
  pub dirty : List Bool

abbrev pub blank_row : List ℕ
blank_row = replicate term_cols 0x20

unfoldable pub create : Terminal
create = record {
  screen = replicate term_rows blank_row;
  lens = replicate term_rows 0;
  cursor_row = 0;
  cursor_col = 0;
  dirty = replicate term_rows false;
}

-- The `for` of `scroll_up`: each row is the next one, with `n` rounds left from row `i` on.
unfoldable pub shift_rows : ℕ → ℕ → Terminal → Run Terminal
shift_rows zero i t = ok t
shift_rows (suc n) i t = do
  row ← read_at t.screen (i + 1)
  screen ← write_at t.screen i row
  len ← read_at t.lens (i + 1)
  lens ← write_at t.lens i len
  shift_rows n (i + 1) (record t { screen = screen; lens = lens })

unfoldable pub scroll_up : Terminal → Run Terminal
unfolding shift_rows
scroll_up t = do
  t1 ← shift_rows (term_rows - 1) 0 t
  screen ← write_at t1.screen (term_rows - 1) blank_row
  lens ← write_at t1.lens (term_rows - 1) 0
  ok (record t1 { screen = screen; lens = lens; dirty = replicate term_rows true })

unfoldable pub newline : Terminal → Run Terminal
unfolding scroll_up
newline t = do
  let t1 = record t { cursor_col = 0 }
  t2 ←
      if ltb t1.cursor_row (term_rows - 1)
      then ok (record t1 { cursor_row = t1.cursor_row + 1 })
      else scroll_up t1
  dirty ← write_at t2.dirty t2.cursor_row true
  ok (record t2 { dirty = dirty })

unfoldable pub put_char : Terminal → ℕ → Run Terminal
unfolding newline
put_char t c = do
  t1 ← if leb term_cols t.cursor_col then newline t else ok t
  row ← read_at t1.screen t1.cursor_row
  row1 ← write_at row t1.cursor_col c
  screen ← write_at t1.screen t1.cursor_row row1
  let col = t1.cursor_col + 1
  len ← read_at t1.lens t1.cursor_row
  lens ← if ltb len col then write_at t1.lens t1.cursor_row (col % 256) else ok t1.lens
  dirty ← write_at t1.dirty t1.cursor_row true
  ok (record t1 { screen = screen; lens = lens; cursor_col = col; dirty = dirty })

unfoldable pub backspace : Terminal → Run Terminal
backspace t =
    let col = t.cursor_col - 1 in
    let erase = do
      row ← read_at t.screen t.cursor_row
      row1 ← write_at row col 0x20
      screen ← write_at t.screen t.cursor_row row1
      len ← read_at t.lens t.cursor_row
      lens ← if ltb col len then write_at t.lens t.cursor_row (col % 256) else ok t.lens
      dirty ← write_at t.dirty t.cursor_row true
      ok (record t { screen = screen; lens = lens; cursor_col = col; dirty = dirty })
    in if ltb 0 t.cursor_col then erase else ok t

unfoldable pub feed : Terminal → ℕ → Run Terminal
feed t c =
    let line = newline t in
    let back = backspace t in
    let shown = put_char t c in
    if c == 0x0A
    then line
    else if c == 0x0D
    then ok (record t { cursor_col = 0 })
    else if c == 0x08 || c == 0x7F
    then back
    else if leb 0x20 c
    then shown
    else ok t

unfoldable pub dirty_count : List Bool → ℕ
dirty_count [] = 0
dirty_count (d ∷ ds) = (if d then 1 else 0) + dirty_count ds

unfoldable pub clear_dirty : Terminal → Terminal
clear_dirty t = record t { dirty = replicate term_rows false }
