-- ===== src/Bitmap.antt =====
-- The fixed-size bit map, core/src/data_type/bitmap.rs: `N` positions over `W` words of 32 bits, a
-- position's bit counted from the high end of its word.
pub mod Access
pub mod Search
use mos_rust.Prelude.{
  ℕ, zero, suc, ◌+◌, ◌-◌, ◌*◌, ◌/◌, ◌%◌, ◌^◌, List, [], ◌∷◌, Bool, true, false, not, Option, none,
  some, ltb, ◌==◌, if◌then◌else◌, get_elem?, set, replicate, Run, ok, stop, out_of_range, ◌>>=◌,
}
use mos_rust.Prelude.Bits.{bit, not32, set_bit, clear_bit, test_bit}

-- `size` is the const parameter N; `words` has the length W.
pub record BitMap : Type 0 where
  pub size : ℕ
  pub words : List ℕ

-- `bitmap_type!(n)`: the number of words for `n` positions
abbrev pub words_for : ℕ → ℕ
words_for n = (n + 31) / 32

pub new : ℕ → ℕ → BitMap
new n w = record { size = n; words = replicate w 0 }

-- `data[index]`
pub load : List ℕ → ℕ → Run ℕ
load ws i = elim (get_elem? ws i) [ none ↦ stop out_of_range | some w ↦ ok w ]

pub set_pos : BitMap → ℕ → Run BitMap
set_pos m pos =
    let index = pos / 32 in
    let b = 31 - pos % 32 in
    if ltb pos m.size
    then (do w ← load m.words index; ok (record m { words = set m.words index (set_bit w b) }))
    else ok m

pub reset : BitMap → ℕ → Run BitMap
reset m pos =
    let index = pos / 32 in
    let b = 31 - pos % 32 in
    if ltb pos m.size
    then (do w ← load m.words index; ok (record m { words = set m.words index (clear_bit w b) }))
    else ok m

pub test : BitMap → ℕ → Run Bool
test m pos =
    let index = pos / 32 in
    let b = 31 - pos % 32 in
    if ltb pos m.size then (do w ← load m.words index; ok (test_bit w b)) else ok false

-- `u32::leading_zeros`, counted down from bit `k - 1`
pub leading_zeros : ℕ → ℕ → ℕ
leading_zeros zero w = 0
leading_zeros (suc k) w = if bit k w == 1 then 0 else suc (leading_zeros k w)

-- `u32::count_ones`, over the `k` low bits
pub word_ones : ℕ → ℕ → ℕ
word_ones zero w = 0
word_ones (suc k) w = bit k w + word_ones k w

-- The loops of `first_zero`, `first_one` and `count_ones`, from word `i` on.
pub first_zero_from : ℕ → List ℕ → ℕ → Option ℕ
first_zero_from n [] i = none
first_zero_from n (w ∷ ws) i =
    let pos = i * 32 + leading_zeros 32 (not32 w) in
    let rest = first_zero_from n ws (suc i) in
    if not (w == 2 ^ 32 - 1) then (if ltb pos n then some pos else rest) else rest

pub first_one_from : ℕ → List ℕ → ℕ → Option ℕ
first_one_from n [] i = none
first_one_from n (w ∷ ws) i =
    let pos = i * 32 + leading_zeros 32 w in
    let rest = first_one_from n ws (suc i) in
    if not (w == 0) then (if ltb pos n then some pos else rest) else rest

ones_from : List ℕ → ℕ → ℕ
ones_from [] total = total
ones_from (w ∷ ws) total = ones_from ws (total + word_ones 32 w)

pub first_zero : BitMap → Option ℕ
unfolding first_zero_from
first_zero m = first_zero_from m.size m.words 0

pub first_one : BitMap → Option ℕ
unfolding first_one_from
first_one m = first_one_from m.size m.words 0

pub count_ones : BitMap → ℕ
unfolding ones_from
count_ones m = ones_from m.words 0

-- `N - self.count_ones()` on `usize`, which wraps at 2^32.
pub count_zeros : BitMap → ℕ
unfolding count_ones
count_zeros m = (m.size + 2 ^ 32 - count_ones m) % 2 ^ 32
