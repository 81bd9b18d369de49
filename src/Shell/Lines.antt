-- ===== src/Shell/Lines.antt =====
-- The line editor against the text that was typed, and the clock.
use native.Mathlib.Numerals.{add-one}
use mos_rust.Config.{systick_hz, shell_buf_size}
use mos_rust.Prelude.{
  ℕ, ◌+◌, ◌-◌, ◌*◌, ◌/◌, ◌≤◌, ◌<◌, ◌≡◌, refl, ap, ap₂, ◌∙◌, List, [], ◌∷◌, ◌++◌, true, false, none,
  some, ltb, leb, ◌==◌, ◌||◌, ◌&&◌, length, length-set, set, take, get_or, get_or-set,
  take-set_above, take-append_last, arith, lt→ltb, le→leb, ok,
}
use mos_rust.Shell.{LineEditor, feed, uptime}

pub record IsValid (e : LineEditor) : Type 0 where
  pub sized : length e.buf ≡ shell_buf_size
  pub in_range : e.len < shell_buf_size

-- The text typed since the last line.
abbrev pub text : LineEditor → List ℕ
text e = take e.len e.buf

stored-text :
    (e : LineEditor) (c : ℕ) → IsValid e → take (e.len + 1) (set e.buf e.len c) ≡ text e ++ (c ∷ [])
stored-text e c v =
    let size = length-set {A = ℕ} e.buf e.len c in
    let written : get_or (set e.buf e.len c) e.len c ≡ c =
      get_or-set e.buf e.len e.len c c (omega (arith, v.sized, v.in_range)) ∙ ground arith in
    ap (λ n. take n (set e.buf e.len c)) (add-one e.len)
    ∙ take-append_last e.len (set e.buf e.len c) c (omega (arith, size, v.sized, v.in_range))
    ∙ ap₂ (λ l x. l ++ (x ∷ [])) (take-set_above e.len e.len e.buf c (omega arith)) written

-- In a valid editor with room for another character, `feed` of a printable byte other than delete
-- adds it to the end of the text; the line feed after it hands on the whole text and empties it. No
-- index is out of range, and the editor stays valid.
pub feed-text :
    (e : LineEditor) (c : ℕ)
    → IsValid e
    → 0x20 ≤ c
    → (c == 0x7F) ≡ false
    → e.len < shell_buf_size - 1
    → (e1 : LineEditor) × (e2 : LineEditor) × (feed e c ≡ ok (none, e1))
      × IsValid e1
      × (text e1 ≡ text e ++ (c ∷ []))
      × (feed e1 0x0A ≡ ok (some (text e ++ (c ∷ [])), e2))
      × IsValid e2
      × (text e2 ≡ [])
unfolding feed
feed-text e c v printable other room =
    let e1 : LineEditor = record { buf = set e.buf e.len c; len = e.len + 1 } in
    let size = length-set {A = ℕ} e.buf e.len c in
    let not_line : (c == 0x0D || c == 0x0A) ≡ false = ground arith in
    let not_back : (c == 0x08 || c == 0x7F) ≡ false = ground arith in
    let shown : (leb 0x20 c && ltb e.len (shell_buf_size - 1)) ≡ true = ground arith in
    (
      e1,
      record e1 { len = 0 },
      rw (not_line, not_back, shown, lt→ltb e.len (length e.buf) (omega (arith, v.sized, room)))
          refl,
      record { sized = size ∙ v.sized; in_range = omega (arith, room) },
      stored-text e c v,
      rw
          (
            le→leb (e.len + 1) (length (set e.buf e.len c)) (omega (arith, size, v.sized, room)),
            stored-text e c v,
          )
          refl,
      record { sized = size ∙ v.sized; in_range = omega arith },
      refl,
    )

-- Hours, minutes and seconds make up the whole seconds of the tick count, with minutes and seconds
-- below 60.
pub uptime-total :
    (ticks : ℕ)
    → let (h, m, s) = uptime ticks in
      (h * 3600 + m * 60 + s ≡ ticks / systick_hz) × (m < 60) × (s < 60)
unfolding uptime
uptime-total ticks = omega arith
