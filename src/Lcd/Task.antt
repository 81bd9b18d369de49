-- ===== src/Lcd/Task.antt =====
-- The display's task, `lcd_task` of boards/esp32c6/src/lcd.rs: what it keeps between its rounds, and
-- a round up to its delay.
pub mod Rounds
use mos_rust.Prelude.{ℕ, List, [], ◌∷◌, Bool, ltb, if◌then◌else◌, take, replicate, Run, ok, ◌>>=◌}
use mos_rust.Lcd.{CharRing, push, drain, Terminal, create, feed, clear_dirty}
use mos_rust.Lcd.Render.{Frame, black, flush_full, refresh}

-- The `for` over the characters that were read.
unfoldable pub feed_all : Terminal → List ℕ → Run Terminal
feed_all t [] = ok t
feed_all t (c ∷ cs) = do t1 ← feed t c; feed_all t1 cs

-- CHAR_RING and the variables of `lcd_task`, with what the panel shows
pub record LcdTask : Type 0 where
  pub chars : CharRing
  pub drain_buf : List ℕ
  pub term : Terminal
  pub fb : Frame
  pub panel : Frame

-- `lcd_putchar`
unfoldable pub lcd_putchar : LcdTask → ℕ → Run LcdTask
lcd_putchar s c = do chars ← push s.chars c; ok (record s { chars = chars })

-- What happens: a character comes, or the task's loop goes round.
pub data Event : Type 0 where
  typed : ℕ → Event
  round : Event

module _ (on : List ℕ → ℕ → ℕ → Bool) (is_utf8 : List ℕ → Bool) where
  -- Up to the `loop`: the characters that wait stay, the terminal is empty and the panel is cleared.
  unfoldable pub start : CharRing → Frame → LcdTask
  start chars panel = record {
    chars = chars;
    drain_buf = replicate 128 0;
    term = create;
    fb = λ x y. black;
    panel = flush_full on is_utf8 (λ x y. black) panel;
  }

  -- The body of the `loop`.
  unfoldable pub lcd_round : LcdTask → Run LcdTask
  lcd_round s = do
    (n, chars, drain_buf) ← drain s.chars s.drain_buf
    let s1 = record s { chars = chars; drain_buf = drain_buf }
    let show = do
      t ← feed_all s.term (take n drain_buf)
      let (fb, panel) = refresh on is_utf8 t s.fb s.panel
      ok (record s1 { term = clear_dirty t; fb = fb; panel = panel })
    if ltb 0 n then show else ok s1

  unfoldable pub run : List Event → LcdTask → Run LcdTask
  run [] s = ok s
  run (typed c ∷ events) s = do s1 ← lcd_putchar s c; run events s1
  run (round ∷ events) s = do s1 ← lcd_round s; run events s1
