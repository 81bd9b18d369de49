-- ===== src/Lcd/Marks.antt =====
-- Which rows the terminal marks as changed: every row that a character changes is marked.
use mos_rust.Prelude.{
  ℕ, zero, suc, ◌+◌, ◌-◌, ◌%◌, ◌<◌, ◌≡◌, ◌≢◌, refl, subst, ◌∙◌, inl, inr, List, [], Bool, true,
  false, ltb, leb, ◌==◌, ◌||◌, if◌then◌else◌, length, get_or, get_or-set, set, replicate,
  Bool-cases, ne→==_false, Run, ok, stop, ◌>>=◌, arith,
}
use mos_rust.Lcd.{
  Terminal, term_cols, term_rows, blank_row, read_at, write_at, shift_rows, scroll_up, newline,
  put_char, backspace, feed,
}

-- Whatever the run returns satisfies the predicate.
abbrev pub Sure {ℓ} : {A : Type ℓ} → Run A → (A → Type 0) → Type ℓ
Sure {A = A} r P = (a : A) → r ≡ ok a → P a

module _ {ℓ} {A : Type ℓ} where
  pub Sure-ok : (P : A → Type 0) (a : A) → P a → Sure (ok a) P
  Sure-ok P a h b e = subst P (ok-injective a b e) h
    where
      ok-injective : (a b : A) → ok a ≡ ok b → a ≡ b
      ok-injective a b e = cc

  pub Sure-bind {κ} :
      {B : Type κ} (P : A → Type 0) (Q : B → Type 0) (r : Run A) (f : A → Run B)
      → Sure r P
      → ((a : A) → P a → Sure (f a) Q)
      → Sure (r >>= f) Q
  Sure-bind P Q (ok a) f h g = g a (h a refl)
  Sure-bind P Q (stop e) f h g = λ b p. cc

  pub Sure-if :
      (P : A → Type 0) (b : Bool) (x y : Run A) → Sure x P → Sure y P → Sure (if b then x else y) P
  Sure-if P true x y h g = h
  Sure-if P false x y h g = g

  -- Nothing is known of the result.
  pub sure : (r : Run A) → Sure r (λ a. Unit)
  sure r a e = tt

module _ {A : Type 0} where
  pub write_at-Sure :
      (xs : List A) (i : ℕ) (v d : A)
      → Sure
          (write_at xs i v)
          (λ ys. (j : ℕ) → get_or ys j d ≡ (if i == j then v else get_or xs j d))
  write_at-Sure xs i v d = elim (Bool-cases (ltb i (length xs))) [
    | inl e ↦ rw e (
        Sure-ok (λ ys. (j : ℕ) → get_or ys j d ≡ (if i == j then v else get_or xs j d)) (set xs i v)
          λ j. get_or-set xs i j v d (ground arith))
    | inr e ↦ rw e (λ ys p. cc)
  ]

  pub get_or-replicate : (n i : ℕ) (a d : A) → i < n → get_or (replicate n a) i d ≡ a
  get_or-replicate zero i a d h = absurd (omega arith)
  get_or-replicate (suc n) zero a d h = refl
  get_or-replicate (suc n) (suc i) a d h = get_or-replicate n i a d (omega arith)

-- A row that is not marked after the step was not marked before, and is as it was.
pub record Marked (t t' : Terminal) : Type 0 where
  pub clean :
      (r : ℕ) → r < term_rows → get_or t'.dirty r false ≡ false → get_or t.dirty r false ≡ false
  pub lens :
      (r : ℕ)
      → r < term_rows
      → get_or t'.dirty r false ≡ false
      → get_or t'.lens r 0 ≡ get_or t.lens r 0
  pub screen :
      (r : ℕ)
      → r < term_rows
      → get_or t'.dirty r false ≡ false
      → get_or t'.screen r [] ≡ get_or t.screen r []

pub Marked-same : (t : Terminal) → Marked t t
Marked-same t = record { clean = λ r h e. e; lens = λ r h e. refl; screen = λ r h e. refl }

pub Marked-trans : {t u v : Terminal} → Marked t u → Marked u v → Marked t v
Marked-trans a b = record {
  clean = λ r h e. a.clean r h (b.clean r h e);
  lens = λ r h e. b.lens r h e ∙ a.lens r h (b.clean r h e);
  screen = λ r h e. b.screen r h e ∙ a.screen r h (b.clean r h e);
}

-- A write at one index.
abbrev Wrote : {A : Type 0} → List A → ℕ → A → A → List A → Type 0
Wrote xs i v d ys = (j : ℕ) → get_or ys j d ≡ (if i == j then v else get_or xs j d)

scroll_up-Marked : (t : Terminal) → Sure (scroll_up t) (Marked t)
unfolding scroll_up
scroll_up-Marked t =
    Sure-bind (λ u. Unit) (Marked t) (shift_rows (term_rows - 1) 0 t) _ (sure _)
      λ t1 _.
        Sure-bind (λ u. Unit) (Marked t) (write_at t1.screen (term_rows - 1) blank_row) _ (sure _)
          λ screen _.
            Sure-bind (λ u. Unit) (Marked t) (write_at t1.lens (term_rows - 1) 0) _ (sure _)
              λ lens _.
                let every =
                  λ (r : ℕ) (h : r < term_rows). get_or-replicate term_rows r true false h in
                Sure-ok (Marked t)
                  (record t1 { screen = screen; lens = lens; dirty = replicate term_rows true })
                  (record {
                    clean = λ r h e. absurd (ground (arith, every r h));
                    lens = λ r h e. absurd (ground (arith, every r h));
                    screen = λ r h e. absurd (ground (arith, every r h));
                  })

-- One row is marked besides.
marks-Marked :
    (t u : Terminal) (row : ℕ) (dirty : List Bool)
    → Marked t u
    → Wrote u.dirty row true false dirty
    → Marked t (record u { dirty = dirty })
marks-Marked t u row dirty m w = record {
  clean = λ r h e. m.clean r h (ground (arith, w r));
  lens = λ r h e. m.lens r h (ground (arith, w r));
  screen = λ r h e. m.screen r h (ground (arith, w r));
}

newline-Marked : (t : Terminal) → Sure (newline t) (Marked t)
unfolding newline
newline-Marked t =
    let home : Terminal = record t { cursor_col = 0 } in
    Sure-bind (Marked t) (Marked t) _ _
      (Sure-if (Marked t) (ltb t.cursor_row (term_rows - 1)) _ _
        (Sure-ok (Marked t) (record home { cursor_row = t.cursor_row + 1 })
          (record { clean = λ r h e. e; lens = λ r h e. refl; screen = λ r h e. refl }))
        (λ u e.
          let m = scroll_up-Marked home u e in
          record { clean = m.clean; lens = m.lens; screen = m.screen }))
      λ u m.
        Sure-bind (Wrote u.dirty u.cursor_row true false) (Marked t) _ _
          (write_at-Sure u.dirty u.cursor_row true false)
          λ dirty w.
            Sure-ok (Marked t) (record u { dirty = dirty })
              (marks-Marked t u u.cursor_row dirty m w)

-- The cursor's row is written and marked.
row-Marked :
    (t u : Terminal) (col : ℕ) (screen : List (List ℕ)) (row1 : List ℕ) (lens : List ℕ)
    (dirty : List Bool)
    → Marked t u
    → Wrote u.screen u.cursor_row row1 [] screen
    → ((j : ℕ) → u.cursor_row ≢ j → get_or lens j 0 ≡ get_or u.lens j 0)
    → Wrote u.dirty u.cursor_row true false dirty
    → Marked t (record u { screen = screen; lens = lens; cursor_col = col; dirty = dirty })
row-Marked t u col screen row1 lens dirty m ws wl wd =
    let apart : (r : ℕ) → get_or dirty r false ≡ false → u.cursor_row ≢ r =
      λ r e same. absurd (ground (arith, wd r)) in
    let old : (r : ℕ) → get_or dirty r false ≡ false → get_or u.dirty r false ≡ false =
      λ r e. ground (arith, wd r) in
    record {
      clean = λ r h e. m.clean r h (old r e);
      lens = λ r h e. wl r (apart r e) ∙ m.lens r h (old r e);
      screen = λ r h e. ws r ∙ rw (ne→==_false u.cursor_row r (apart r e)) (m.screen r h (old r e));
    }

lens-Sure :
    (u : Terminal) (b : Bool) (n : ℕ)
    → Sure
        (if b then write_at u.lens u.cursor_row n else ok u.lens)
        (λ lens. (j : ℕ) → u.cursor_row ≢ j → get_or lens j 0 ≡ get_or u.lens j 0)
lens-Sure u true n = λ lens e j ne.
    write_at-Sure u.lens u.cursor_row n 0 lens e j ∙ rw (ne→==_false u.cursor_row j ne) refl
lens-Sure u false n =
    Sure-ok (λ lens. (j : ℕ) → u.cursor_row ≢ j → get_or lens j 0 ≡ get_or u.lens j 0) u.lens
      (λ j ne. refl)

-- The end of `put_char` and of `backspace`, from the read of the cursor's row on.
abbrev edit : Terminal → ℕ → ℕ → (ℕ → Bool) → ℕ → Run Terminal
edit u at c test col = do
  row ← read_at u.screen u.cursor_row
  row1 ← write_at row at c
  screen ← write_at u.screen u.cursor_row row1
  len ← read_at u.lens u.cursor_row
  lens ← if test len then write_at u.lens u.cursor_row (col % 256) else ok u.lens
  dirty ← write_at u.dirty u.cursor_row true
  ok (record u { screen = screen; lens = lens; cursor_col = col; dirty = dirty })

edit-Marked :
    (t u : Terminal) (at c : ℕ) (test : ℕ → Bool) (col : ℕ)
    → Marked t u
    → Sure (edit u at c test col) (Marked t)
edit-Marked t u at c test col m =
    Sure-bind (λ row. Unit) (Marked t) _ _ (sure (read_at u.screen u.cursor_row))
      λ row _.
        Sure-bind (λ row. Unit) (Marked t) _ _ (sure (write_at row at c))
          λ row1 _.
            Sure-bind (Wrote u.screen u.cursor_row row1 []) (Marked t) _ _
              (write_at-Sure u.screen u.cursor_row row1 [])
              λ screen ws.
                Sure-bind (λ len. Unit) (Marked t) _ _ (sure (read_at u.lens u.cursor_row))
                  λ len _.
                    Sure-bind
                      (λ lens. (j : ℕ) → u.cursor_row ≢ j → get_or lens j 0 ≡ get_or u.lens j 0)
                      (Marked t) _ _ (lens-Sure u (test len) (col % 256))
                      λ lens wl.
                        Sure-bind (Wrote u.dirty u.cursor_row true false) (Marked t) _ _
                          (write_at-Sure u.dirty u.cursor_row true false)
                          λ dirty wd.
                            Sure-ok (Marked t)
                              (record u {
                                screen = screen;
                                lens = lens;
                                cursor_col = col;
                                dirty = dirty;
                              })
                              (row-Marked t u col screen row1 lens dirty m ws wl wd)

put_char-Marked : (t : Terminal) (c : ℕ) → Sure (put_char t c) (Marked t)
unfolding put_char
put_char-Marked t c =
    Sure-bind (Marked t) (Marked t) _ _
      (Sure-if (Marked t) (leb term_cols t.cursor_col) _ _ (newline-Marked t)
        (Sure-ok (Marked t) t (Marked-same t)))
      λ u m. edit-Marked t u u.cursor_col c (λ len. ltb len (u.cursor_col + 1)) (u.cursor_col + 1) m

backspace-Marked : (t : Terminal) → Sure (backspace t) (Marked t)
unfolding backspace
backspace-Marked t =
    Sure-if (Marked t) (ltb 0 t.cursor_col) _ _
      (edit-Marked t t (t.cursor_col - 1) 0x20 (λ len. ltb (t.cursor_col - 1) len)
        (t.cursor_col - 1) (Marked-same t))
      (Sure-ok (Marked t) t (Marked-same t))

-- Every row that a character changes is marked, and no mark is taken away.
pub feed-Marked : (t : Terminal) (c : ℕ) → Sure (feed t c) (Marked t)
unfolding feed
feed-Marked t c =
    let same = Sure-ok (Marked t) t (Marked-same t) in
    let home : Sure (ok (record t { cursor_col = 0 })) (Marked t) =
      Sure-ok (Marked t) (record t { cursor_col = 0 })
        (record { clean = λ r h e. e; lens = λ r h e. refl; screen = λ r h e. refl }) in
    Sure-if (Marked t) (c == 0x0A) _ _ (newline-Marked t) (
      Sure-if (Marked t) (c == 0x0D) _ _ home (
        Sure-if (Marked t) (c == 0x08 || c == 0x7F) _ _ (backspace-Marked t)
          (Sure-if (Marked t) (leb 0x20 c) _ _ (put_char-Marked t c) same)))
