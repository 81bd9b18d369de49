-- ===== src/Lcd/Task/Rounds.antt =====
-- The display's task from its start on: the panel keeps up with the terminal.
use mos_rust.Prelude.{
  ℕ, zero, suc, ◌+◌, ◌<◌, ◌≡◌, refl, sym, ap, subst, ◌∙◌, inl, inr, min, List, [], ◌∷◌, Bool, true,
  false, ltb, length, length-replicate, take, drop, replicate, Bool-cases, Run, ok, ◌>>=◌, arith,
}
use mos_rust.Lcd.{CharRing, drain, term_rows, Terminal, create, clear_dirty}
use mos_rust.Lcd.Bounds.{IsValid, create-IsValid, feed-IsValid}
use mos_rust.Lcd.Chars.{Pending, queued, push-Pending, drain-Drained}
use mos_rust.Lcd.Marks.{Marked, Marked-same, Marked-trans, feed-Marked, get_or-replicate}
use mos_rust.Lcd.Render.{
  Frame, font_h, lcd_width, lcd_height, hardware_y_offset, refresh, render_full,
}
use mos_rust.Lcd.Render.Shows.{
  IsShown, Marked-IsShown, refresh-settles, IsShown-all, create-IsShown,
}
use mos_rust.Lcd.Task.{feed_all, LcdTask, start, lcd_putchar, lcd_round, Event, typed, round, run}

-- The characters that are fed keep the terminal valid and mark what they change.
pub record Fed (t : Terminal) (r : Run Terminal) : Type 0 where
  pub after : Terminal
  pub returned : r ≡ ok after
  pub valid : IsValid after
  pub marked : Marked t after

feed_all-Fed : (t : Terminal) (cs : List ℕ) → IsValid t → Fed t (feed_all t cs)
unfolding feed_all
feed_all-Fed t [] v = record { after = t; returned = refl; valid = v; marked = Marked-same t }
feed_all-Fed t (c ∷ cs) v =
    let (t1, fed, v1) = feed-IsValid t c v in
    let rest = feed_all-Fed t1 cs v1 in
    record {
      after = rest.after;
      returned = ap (λ r. r >>= λ u. feed_all u cs) fed ∙ rest.returned;
      valid = rest.valid;
      marked = Marked-trans (feed-Marked t c t1 fed) rest.marked;
    }

clear_dirty-IsValid : {t : Terminal} → IsValid t → IsValid (clear_dirty t)
unfolding clear_dirty
clear_dirty-IsValid v = record {
  rows = v.rows;
  cols = v.cols;
  lens_rows = v.lens_rows;
  lens_in = v.lens_in;
  dirty_rows = refl;
  row_in = v.row_in;
  col_in = v.col_in;
}

cleared : (t : Terminal) → (clear_dirty t).dirty ≡ replicate term_rows false
unfolding clear_dirty
cleared t = refl

create-clean : create.dirty ≡ replicate term_rows false
unfolding create
create-clean = refl

nothing : (t : Terminal) → feed_all t [] ≡ ok t
unfolding feed_all
nothing t = refl

-- The terminal without its drawing: the characters that wait, and the text.
unfoldable pub follow : List Event → List ℕ → Terminal → Run (List ℕ × Terminal)
follow [] cs t = ok (cs, t)
follow (typed c ∷ events) cs t = follow events (queued cs c) t
follow (round ∷ events) cs t = do
  t1 ← feed_all t (take 128 cs)
  follow events (drop 128 cs) (clear_dirty t1)

module _ (on : List ℕ → ℕ → ℕ → Bool) (is_utf8 : List ℕ → Bool)
    (fits : (line : List ℕ) (dx dy : ℕ) → on line dx dy ≡ true → dy < font_h) where
  -- Between the rounds: the characters `cs` wait, and nothing else is left to draw.
  pub record IsReady (s : LcdTask) (cs : List ℕ) : Type 0 where
    pub pending : Pending s.chars cs
    pub buffer : length s.drain_buf ≡ 128
    pub valid : IsValid s.term
    pub clean : s.term.dirty ≡ replicate term_rows false
    pub shown : IsShown on is_utf8 fits s.term s.fb s.panel

  -- What a round leads to: the oldest characters are fed to the terminal, 128 at most.
  pub record Went (s : LcdTask) (cs : List ℕ) (r : Run LcdTask) : Type 0 where
    pub after : LcdTask
    pub term : Terminal
    pub returned : r ≡ ok after
    pub fed : feed_all s.term (take 128 cs) ≡ ok term
    pub text : after.term ≡ clear_dirty term
    pub ready : IsReady after (drop 128 cs)

  unmarked : {t : Terminal} → t.dirty ≡ replicate term_rows false → t ≡ clear_dirty t
  unfolding clear_dirty
  unmarked {t} e = ap (λ d. record t { dirty = d }) e

  lcd_round-shows :
      (s : LcdTask) (n : ℕ) (ring : CharRing) (buf : List ℕ) (t : Terminal)
      → drain s.chars s.drain_buf ≡ ok (n, ring, buf)
      → ltb 0 n ≡ true
      → feed_all s.term (take n buf) ≡ ok t
      → lcd_round on is_utf8 s
        ≡ ok (record {
          chars = ring;
          drain_buf = buf;
          term = clear_dirty t;
          fb = (refresh on is_utf8 t s.fb s.panel).0;
          panel = (refresh on is_utf8 t s.fb s.panel).1;
        })
  unfolding lcd_round
  lcd_round-shows s n ring buf t drained some_ fed = rw (drained, some_, fed) refl

  lcd_round-waits :
      (s : LcdTask) (n : ℕ) (ring : CharRing) (buf : List ℕ)
      → drain s.chars s.drain_buf ≡ ok (n, ring, buf)
      → ltb 0 n ≡ false
      → lcd_round on is_utf8 s ≡ ok (record s { chars = ring; drain_buf = buf })
  unfolding lcd_round
  lcd_round-waits s n ring buf drained none_ = rw (drained, none_) refl

  take_nothing : (n : ℕ) (buf cs : List ℕ) → ltb 0 n ≡ false → take n buf ≡ cs → cs ≡ []
  take_nothing zero buf cs h e = sym e
  take_nothing (suc n) buf cs h e = absurd (ground arith)

  -- A round does not panic. It feeds the oldest characters to the terminal, 128 at most, and leaves
  -- the others waiting; the panel is up to date then.
  pub lcd_round-Went :
      (s : LcdTask) (cs : List ℕ) → IsReady s cs → Went s cs (lcd_round on is_utf8 s)
  lcd_round-Went s cs i =
      let d = drain-Drained s.chars cs s.drain_buf i.pending in
      let n = min s.chars.len (length s.drain_buf) in
      let left : Pending d.ring (drop 128 cs) =
        subst (λ m. Pending d.ring (drop m cs)) i.buffer d.pending in
      let read : take n d.after ≡ take 128 cs = d.read ∙ ap (λ m. take m cs) i.buffer in
      elim (Bool-cases (ltb 0 n)) [
        | inl more ↦
            let f = feed_all-Fed s.term (take 128 cs) i.valid in
            record {
              after = record {
                chars = d.ring;
                drain_buf = d.after;
                term = clear_dirty f.after;
                fb = (refresh on is_utf8 f.after s.fb s.panel).0;
                panel = (refresh on is_utf8 f.after s.fb s.panel).1;
              };
              term = f.after;
              returned =
                  lcd_round-shows s n d.ring d.after f.after d.returned more
                    (ap (feed_all s.term) read ∙ f.returned);
              fed = f.returned;
              text = refl;
              ready = record {
                pending = left;
                buffer = d.size ∙ i.buffer;
                valid = clear_dirty-IsValid f.valid;
                clean = cleared f.after;
                shown =
                    refresh-settles on is_utf8 fits f.after s.fb s.panel
                      (Marked-IsShown on is_utf8 fits s.fb s.panel f.marked i.shown);
              };
            }
        | inr idle ↦ record {
          after = record s { chars = d.ring; drain_buf = d.after };
          term = s.term;
          returned = lcd_round-waits s n d.ring d.after d.returned idle;
          fed =
              ap (feed_all s.term) (take_nothing n d.after (take 128 cs) idle read)
              ∙ nothing s.term;
          text = unmarked i.clean;
          ready = record {
            pending = left;
            buffer = d.size ∙ i.buffer;
            valid = i.valid;
            clean = i.clean;
            shown = i.shown;
          };
        }
      ]

  lcd_putchar-IsReady :
      (s : LcdTask) (cs : List ℕ) (c : ℕ)
      → IsReady s cs
      → (s' : LcdTask) × (lcd_putchar s c ≡ ok s') × (s'.term ≡ s.term) × IsReady s' (queued cs c)
  unfolding lcd_putchar
  lcd_putchar-IsReady s cs c i =
      let (ring, pushed, p) = push-Pending s.chars cs c i.pending in
      (
        record s { chars = ring },
        rw pushed refl,
        refl,
        record {
          pending = p;
          buffer = i.buffer;
          valid = i.valid;
          clean = i.clean;
          shown = i.shown;
        },
      )

  pub start-IsReady :
      (chars : CharRing) (cs : List ℕ) (panel : Frame)
      → Pending chars cs
      → IsReady (start on is_utf8 chars panel) cs
  unfolding start
  start-IsReady chars cs panel p = record {
    pending = p;
    buffer = length-replicate {A = ℕ} 128 0;
    valid = create-IsValid;
    clean = create-clean;
    shown = create-IsShown on is_utf8 fits panel;
  }

  -- A run of the task, and what it did to the text.
  pub record Ran (events : List Event) (s : LcdTask) (cs : List ℕ) (r : Run LcdTask) : Type 0 where
    pub after : LcdTask
    pub waiting : List ℕ
    pub returned : r ≡ ok after
    pub text : follow events cs s.term ≡ ok (waiting, after.term)
    pub ready : IsReady after waiting

  run-Ran :
      (events : List Event) (s : LcdTask) (cs : List ℕ)
      → IsReady s cs
      → Ran events s cs (run on is_utf8 events s)
  unfolding run follow
  run-Ran [] s cs i = record { after = s; waiting = cs; returned = refl; text = refl; ready = i }
  run-Ran (typed c ∷ events) s cs i =
      let (s1, put, same, ready) = lcd_putchar-IsReady s cs c i in
      let rest = run-Ran events s1 (queued cs c) ready in
      record {
        after = rest.after;
        waiting = rest.waiting;
        returned = ap (λ r. r >>= run on is_utf8 events) put ∙ rest.returned;
        text = ap (follow events (queued cs c)) (sym same) ∙ rest.text;
        ready = rest.ready;
      }
  run-Ran (round ∷ events) s cs i =
      let w = lcd_round-Went s cs i in
      let rest = run-Ran events w.after (drop 128 cs) w.ready in
      record {
        after = rest.after;
        waiting = rest.waiting;
        returned = ap (λ r. r >>= run on is_utf8 events) w.returned ∙ rest.returned;
        text =
            ap (λ r. r >>= λ t. follow events (drop 128 cs) (clear_dirty t)) w.fed
            ∙ ap (follow events (drop 128 cs)) (sym w.text)
            ∙ rest.text;
        ready = rest.ready;
      }

  -- From its start on, with any characters that come between its rounds, the display's task does not
  -- panic. The terminal has been fed the characters in order, 128 at most in each round, but for
  -- those that came with 2048 waiting; and any pixel of the panel is as if the terminal were drawn
  -- anew.
  pub run-shows :
      (events : List Event) (chars : CharRing) (cs : List ℕ) (panel : Frame) (x y : ℕ)
      → Pending chars cs
      → x < lcd_width
      → y < lcd_height
      → (s : LcdTask) × (waiting : List ℕ) × (run on is_utf8 events (start on is_utf8 chars panel)
          ≡ ok s)
        × (follow events cs create ≡ ok (waiting, s.term))
        × Pending s.chars waiting
        × (s.panel x (y + hardware_y_offset) ≡ render_full on is_utf8 s.term x y)
  unfolding start
  run-shows events chars cs panel x y p hx hy =
      let r = run-Ran events (start on is_utf8 chars panel) cs (start-IsReady chars cs panel p) in
      (
        r.after,
        r.waiting,
        r.returned,
        r.text,
        r.ready.pending,
        IsShown-all on is_utf8 fits r.ready.shown
            (λ t h. rw r.ready.clean (get_or-replicate term_rows t false false h)) x y hx hy,
      )
