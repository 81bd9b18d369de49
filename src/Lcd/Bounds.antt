-- ===== src/Lcd/Bounds.antt =====
-- No character makes the terminal index out of range.
use mos_rust.Prelude.{
  ℕ, zero, suc, ◌+◌, ◌-◌, ◌%◌, ◌≤◌, ◌<◌, ◌≡◌, refl, Bool, true, false, ltb, leb, ◌==◌, ◌||◌,
  if◌then◌else◌, length, replicate, Bool-cases, inl, inr, arith, ok,
}
use mos_rust.Lcd.{
  Terminal, term_cols, term_rows, blank_row, read_at, write_at, create, shift_rows, scroll_up,
  newline, put_char, backspace, feed,
}
use mos_rust.Lcd.Runs.{
  Each, Returns, Each-replicate, read_at-Returns, write_at-Returns, bind-Returns, if-Returns, each,
}

pub record IsValid (t : Terminal) : Type 0 where
  pub rows : length t.screen ≡ term_rows
  pub cols : Each (λ r. length r ≡ term_cols) t.screen
  pub lens_rows : length t.lens ≡ term_rows
  pub lens_in : Each (λ n. n ≤ term_cols) t.lens
  pub dirty_rows : length t.dirty ≡ term_rows
  pub row_in : t.cursor_row < term_rows
  pub col_in : t.cursor_col ≤ term_cols

pub create-IsValid : IsValid create
unfolding create
create-IsValid = record {
  rows = refl;
  cols = Each-replicate (λ r. length r ≡ term_cols) term_rows blank_row refl;
  lens_rows = refl;
  lens_in = Each-replicate {A = ℕ} (λ n. n ≤ term_cols) term_rows 0 (omega arith);
  dirty_rows = refl;
  row_in = omega arith;
  col_in = omega arith;
}

-- What a scroll keeps.
abbrev Keeps : Terminal → Terminal → Type 0
Keeps t t' = IsValid t' × (t'.cursor_col ≡ t.cursor_col)

shift_rows-IsValid :
    (n i : ℕ) (t : Terminal) → i + n < term_rows → IsValid t → Returns (shift_rows n i t) (Keeps t)
unfolding shift_rows
shift_rows-IsValid zero i t h v = (t, refl, (v, refl))
shift_rows-IsValid (suc n) i t h v =
    bind-Returns (read_at t.screen (i + 1)) _
      (read_at-Returns _ t.screen (i + 1) v.cols (omega (arith, v.rows)))
      λ row hr.
        bind-Returns (write_at t.screen i row) _
          (write_at-Returns _ t.screen term_rows i row v.rows v.cols (omega arith) hr)
          λ screen hs.
            bind-Returns (read_at t.lens (i + 1)) _
              (read_at-Returns _ t.lens (i + 1) v.lens_in (omega (arith, v.lens_rows)))
              λ len hl.
                bind-Returns (write_at t.lens i len) _
                  (write_at-Returns _ t.lens term_rows i len v.lens_rows v.lens_in (omega arith) hl)
                  λ lens hn.
                    shift_rows-IsValid n (i + 1) (record t { screen = screen; lens = lens })
                      (omega arith)
                      (record {
                        rows = hs.0;
                        cols = hs.1;
                        lens_rows = hn.0;
                        lens_in = hn.1;
                        dirty_rows = v.dirty_rows;
                        row_in = v.row_in;
                        col_in = v.col_in;
                      })

scroll_up-IsValid : (t : Terminal) → IsValid t → Returns (scroll_up t) (Keeps t)
unfolding scroll_up
scroll_up-IsValid t v =
    bind-Returns (shift_rows (term_rows - 1) 0 t) _
      (shift_rows-IsValid (term_rows - 1) 0 t (omega arith) v)
      λ t1 k1.
        let v1 = k1.0 in
        bind-Returns (write_at t1.screen (term_rows - 1) blank_row) _
          (write_at-Returns _ t1.screen term_rows (term_rows - 1) blank_row v1.rows v1.cols
            (omega arith) refl)
          λ screen hs.
            bind-Returns (write_at t1.lens (term_rows - 1) 0) _
              (write_at-Returns _ t1.lens term_rows (term_rows - 1) 0 v1.lens_rows v1.lens_in
                (omega arith) (omega arith))
              λ lens hn. (
                record t1 { screen = screen; lens = lens; dirty = replicate term_rows true },
                refl,
                (
                  record {
                    rows = hs.0;
                    cols = hs.1;
                    lens_rows = hn.0;
                    lens_in = hn.1;
                    dirty_rows = refl;
                    row_in = v1.row_in;
                    col_in = v1.col_in;
                  },
                  k1.1,
                ),
              )

newline-IsValid :
    (t : Terminal) → IsValid t → Returns (newline t) (λ t'. IsValid t' × (t'.cursor_col ≡ 0))
unfolding newline
newline-IsValid t v =
    let home : Terminal = record t { cursor_col = 0 } in
    let at_home : IsValid home = record {
      rows = v.rows;
      cols = v.cols;
      lens_rows = v.lens_rows;
      lens_in = v.lens_in;
      dirty_rows = v.dirty_rows;
      row_in = v.row_in;
      col_in = omega arith;
    } in
    let moved : Returns
        (if ltb t.cursor_row (term_rows - 1)
          then ok (record home { cursor_row = t.cursor_row + 1 })
          else scroll_up home)
        (Keeps home) =
      elim (Bool-cases (ltb t.cursor_row (term_rows - 1))) [
        | inl above ↦ rw above (
          record home { cursor_row = t.cursor_row + 1 },
          refl,
          (
            record {
              rows = v.rows;
              cols = v.cols;
              lens_rows = v.lens_rows;
              lens_in = v.lens_in;
              dirty_rows = v.dirty_rows;
              row_in = ground arith;
              col_in = omega arith;
            },
            refl,
          ),
        )
        | inr last ↦ rw last (scroll_up-IsValid home at_home)
      ] in
    bind-Returns _ _ moved λ t2 k2.
      bind-Returns (write_at t2.dirty t2.cursor_row true) _
        (write_at-Returns _ t2.dirty term_rows t2.cursor_row true k2.0.dirty_rows (each t2.dirty)
          k2.0.row_in tt)
        λ dirty hd. (
          record t2 { dirty = dirty },
          refl,
          (
            record {
              rows = k2.0.rows;
              cols = k2.0.cols;
              lens_rows = k2.0.lens_rows;
              lens_in = k2.0.lens_in;
              dirty_rows = hd.0;
              row_in = k2.0.row_in;
              col_in = k2.0.col_in;
            },
            k2.1,
          ),
        )

-- A length written only where a test passes.
lens-Returns :
    (t : Terminal) (b : Bool) (n : ℕ)
    → IsValid t
    → n ≤ term_cols
    → Returns
        (if b then write_at t.lens t.cursor_row n else ok t.lens)
        (λ l. (length l ≡ term_rows) × Each (λ n. n ≤ term_cols) l)
lens-Returns t true n v le =
    write_at-Returns (λ n. n ≤ term_cols) t.lens term_rows t.cursor_row n v.lens_rows v.lens_in
      v.row_in le
lens-Returns t false n v le = (t.lens, refl, (v.lens_rows, v.lens_in))

put_char-IsValid : (t : Terminal) (c : ℕ) → IsValid t → Returns (put_char t c) IsValid
unfolding put_char
put_char-IsValid t c v =
    let fits : Returns (if leb term_cols t.cursor_col then newline t else ok t)
        (λ t'. IsValid t' × (t'.cursor_col < term_cols)) =
      elim (Bool-cases (leb term_cols t.cursor_col)) [
        | inl over ↦
            rw over
              (let (t', e, (v', zero_col)) = newline-IsValid t v in (t', e, (v', omega arith)))
        | inr inside ↦ rw inside (t, refl, (v, ground arith))
      ] in
    bind-Returns _ _ fits λ t1 k1.
      let v1 = k1.0 in
      bind-Returns (read_at t1.screen t1.cursor_row) _
        (read_at-Returns (λ r. length r ≡ term_cols) t1.screen t1.cursor_row v1.cols
          (omega (arith, v1.rows, v1.row_in)))
        λ row hr.
          bind-Returns (write_at row t1.cursor_col c) _
            (write_at-Returns (λ x. Unit) row term_cols t1.cursor_col c hr (each row) k1.1 tt)
            λ row1 hr1.
              bind-Returns (write_at t1.screen t1.cursor_row row1) _
                (write_at-Returns (λ r. length r ≡ term_cols) t1.screen term_rows t1.cursor_row row1
                  v1.rows v1.cols v1.row_in hr1.0)
                λ screen hs.
                  bind-Returns (read_at t1.lens t1.cursor_row) _
                    (read_at-Returns (λ n. n ≤ term_cols) t1.lens t1.cursor_row v1.lens_in
                      (omega (arith, v1.lens_rows, v1.row_in)))
                    λ len hl.
                      bind-Returns _ _
                        (lens-Returns t1 (ltb len (t1.cursor_col + 1)) ((t1.cursor_col + 1) % 256)
                          v1 (omega (arith, k1.1)))
                        λ lens hn.
                          bind-Returns (write_at t1.dirty t1.cursor_row true) _
                            (write_at-Returns (λ b. Unit) t1.dirty term_rows t1.cursor_row true
                              v1.dirty_rows (each t1.dirty) v1.row_in tt)
                            λ dirty hd. (
                              record t1 {
                                screen = screen;
                                lens = lens;
                                cursor_col = t1.cursor_col + 1;
                                dirty = dirty;
                              },
                              refl,
                              record {
                                rows = hs.0;
                                cols = hs.1;
                                lens_rows = hn.0;
                                lens_in = hn.1;
                                dirty_rows = hd.0;
                                row_in = v1.row_in;
                                col_in = omega (arith, k1.1);
                              },
                            )

backspace-IsValid : (t : Terminal) → IsValid t → Returns (backspace t) IsValid
unfolding backspace
backspace-IsValid t v = elim (Bool-cases (ltb 0 t.cursor_col)) [
  | inr first ↦ rw first (t, refl, v)
  | inl after ↦
      let inside : t.cursor_col - 1 < term_cols = ground (arith, v.col_in) in
      rw after (
        bind-Returns (read_at t.screen t.cursor_row) _
          (read_at-Returns (λ r. length r ≡ term_cols) t.screen t.cursor_row v.cols
            (omega (arith, v.rows, v.row_in)))
          λ row hr.
            bind-Returns (write_at row (t.cursor_col - 1) 0x20) _
              (write_at-Returns (λ x. Unit) row term_cols (t.cursor_col - 1) 0x20 hr (each row)
                inside tt)
              λ row1 hr1.
                bind-Returns (write_at t.screen t.cursor_row row1) _
                  (write_at-Returns (λ r. length r ≡ term_cols) t.screen term_rows t.cursor_row row1
                    v.rows v.cols v.row_in hr1.0)
                  λ screen hs.
                    bind-Returns (read_at t.lens t.cursor_row) _
                      (read_at-Returns (λ n. n ≤ term_cols) t.lens t.cursor_row v.lens_in
                        (omega (arith, v.lens_rows, v.row_in)))
                      λ len hl.
                        bind-Returns _ _
                          (lens-Returns t (ltb (t.cursor_col - 1) len) ((t.cursor_col - 1) % 256) v
                            (omega (arith, inside)))
                          λ lens hn.
                            bind-Returns (write_at t.dirty t.cursor_row true) _
                              (write_at-Returns (λ b. Unit) t.dirty term_rows t.cursor_row true
                                v.dirty_rows (each t.dirty) v.row_in tt)
                              λ dirty hd. (
                                record t {
                                  screen = screen;
                                  lens = lens;
                                  cursor_col = t.cursor_col - 1;
                                  dirty = dirty;
                                },
                                refl,
                                record {
                                  rows = hs.0;
                                  cols = hs.1;
                                  lens_rows = hn.0;
                                  lens_in = hn.1;
                                  dirty_rows = hd.0;
                                  row_in = v.row_in;
                                  col_in = omega (arith, inside);
                                },
                              ))
]

-- Whatever byte is fed to a valid terminal, no index is out of range, and the terminal stays valid:
-- the cursor's row is on the screen, its column at most one past the end, and no row is longer than
-- the screen is wide.
pub feed-IsValid : (t : Terminal) (c : ℕ) → IsValid t → Returns (feed t c) IsValid
unfolding feed
feed-IsValid t c v =
    let (line, line_ok, h) = newline-IsValid t v in
    if-Returns (c == 0x0A) (line, line_ok, h.0)
      (if-Returns (c == 0x0D)
        (
          record t { cursor_col = 0 },
          refl,
          record {
            rows = v.rows;
            cols = v.cols;
            lens_rows = v.lens_rows;
            lens_in = v.lens_in;
            dirty_rows = v.dirty_rows;
            row_in = v.row_in;
            col_in = omega arith;
          },
        )
        (if-Returns (c == 0x08 || c == 0x7F) (backspace-IsValid t v)
          (if-Returns (leb 0x20 c) (put_char-IsValid t c v) (t, refl, v))))
