-- ===== src/Shell.antt =====
-- The shell's input, boards/esp32c6/src/shell.rs: the ring of received bytes, the line editor and
-- the clock. The commands print, and call the kernel's `Task`.
pub mod Lines
pub mod Commands
use mos_rust.Config.{systick_hz, shell_buf_size}
use mos_rust.Prelude.{
  ℕ, zero, suc, ◌+◌, ◌-◌, ◌/◌, ◌%◌, List, [], ◌∷◌, Bool, true, false, Option, none, some, ltb, leb,
  ◌==◌, ◌||◌, ◌&&◌, if◌then◌else◌, length, set, take, replicate, get_elem?, Run, ok, stop,
  out_of_range, ◌>>=◌,
}

abbrev pub input_buf_size : ℕ
input_buf_size = 256

pub record InputRing : Type 0 where
  pub buf : List ℕ
  pub head : ℕ
  pub tail : ℕ
  pub len : ℕ

unfoldable pub input_ring : InputRing
input_ring = record { buf = replicate input_buf_size 0; head = 0; tail = 0; len = 0 }

unfoldable pub push : InputRing → ℕ → Run InputRing
push r c =
    let stored : Run InputRing =
      if ltb r.tail (length r.buf)
      then ok (record r {
        buf = set r.buf r.tail c;
        tail = (r.tail + 1) % input_buf_size;
        len = r.len + 1;
      })
      else stop out_of_range in
    if ltb r.len input_buf_size then stored else ok r

unfoldable pub pop : InputRing → Run (Option ℕ × InputRing)
pop r =
    let taken : Run (Option ℕ × InputRing) = elim (get_elem? r.buf r.head) [
      | none ↦ stop out_of_range
      | some c ↦ ok (some c, record r { head = (r.head + 1) % input_buf_size; len = r.len - 1 })
    ] in
    if r.len == 0 then ok (none, r) else taken

-- The bytes, then a line feed.
unfoldable pub shell_push_input : List ℕ → InputRing → Run InputRing
unfolding push
shell_push_input [] r = push r 0x0A
shell_push_input (b ∷ bs) r = push r b >>= λ r1. shell_push_input bs r1

pub record LineEditor : Type 0 where
  pub buf : List ℕ
  pub len : ℕ

unfoldable pub create : LineEditor
create = record { buf = replicate shell_buf_size 0; len = 0 }

-- The first part of the result is the line that is handed on, to `from_utf8` and then to
-- `parse_and_run`.
unfoldable pub feed : LineEditor → ℕ → Run (Option (List ℕ) × LineEditor)
feed e c =
    let stored : Run (Option (List ℕ) × LineEditor) =
      if ltb e.len (length e.buf)
      then ok (none, record { buf = set e.buf e.len c; len = e.len + 1 })
      else stop out_of_range in
    let line : Run (Option (List ℕ) × LineEditor) =
      if leb e.len (length e.buf)
      then ok (some (take e.len e.buf), record e { len = 0 })
      else stop out_of_range in
    if c == 0x0D || c == 0x0A
    then line
    else if c == 0x08 || c == 0x7F
    then ok (none, record e { len = (if ltb 0 e.len then e.len - 1 else e.len) })
    else if leb 0x20 c && ltb e.len (shell_buf_size - 1)
    then stored
    else ok (none, e)

-- `time_cmd`: hours, minutes and seconds
unfoldable pub uptime : ℕ → ℕ × ℕ × ℕ
uptime ticks =
    let up_secs = ticks / systick_hz in (up_secs / 3600, up_secs % 3600 / 60, up_secs % 60)
