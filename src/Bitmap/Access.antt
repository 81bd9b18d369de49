-- ===== src/Bitmap/Access.antt =====
-- What `set`, `reset` and `test` of core/src/data_type/bitmap.rs do to a well-formed bit map.
use mos_rust.Prelude.{
  ℕ, zero, suc, ◌-◌, ◌*◌, ◌/◌, ◌%◌, ◌^◌, ◌≤◌, ◌<◌, ◌≡◌, refl, List, [], ◌∷◌, Bool, true, false, ltb,
  ◌==◌, if◌then◌else◌, length, get_or, set, length-set, get_or-set, get_elem?-eq-get_or, Run, ok,
  All, arith, Bool-cases, ltb→lt, inl, inr, replicate, length-replicate,
}
use mos_rust.Prelude.Bits.{
  set_bit, clear_bit, test_bit, test_bit-set_bit, test_bit-clear_bit, set_bit-lt, clear_bit-lt,
}
use mos_rust.Bitmap.{BitMap, words_for, load, new, set_pos, reset, test}

-- There is a word for every position, and each word fits 32 bits.
pub record IsValid (m : BitMap) : Type 0 where
  pub covered : m.size ≤ 32 * length m.words
  pub fits : All (λ w. w < 2 ^ 32) m.words

-- The position's bit, where the position is in range.
abbrev pub holds : BitMap → ℕ → Bool
holds m pos =
    if ltb pos m.size then test_bit (get_or m.words (pos / 32) 0) (31 - pos % 32) else false

pub All-get_or :
    (P : ℕ → Type 0) (ws : List ℕ) (i d : ℕ) → All P ws → i < length ws → P (get_or ws i d)
All-get_or P [] i d h lt = absurd (omega arith)
All-get_or P (w ∷ ws) zero d h lt = h.0
All-get_or P (w ∷ ws) (suc i) d h lt = All-get_or P ws i d h.1 (omega arith)

All-set : (P : ℕ → Type 0) (ws : List ℕ) (i v : ℕ) → All P ws → P v → All P (set ws i v)
All-set P [] i v h hv = tt
All-set P (w ∷ ws) zero v h hv = (hv, h.1)
All-set P (w ∷ ws) (suc i) v h hv = (h.0, All-set P ws i v h.1 hv)

All-replicate : (P : ℕ → Type 0) (n v : ℕ) → P v → All P (replicate n v)
All-replicate P zero v h = tt
All-replicate P (suc n) v h = (h, All-replicate P n v h)

new-IsValid : (n : ℕ) → IsValid (new n (words_for n))
unfolding new
new-IsValid n = record {
  covered = rw (length-replicate {A = ℕ} (words_for n) 0) (omega arith);
  fits = All-replicate (λ w. w < 2 ^ 32) (words_for n) 0 (omega arith);
}

load-ok :
    (m : BitMap) (pos : ℕ)
    → IsValid m
    → pos < m.size
    → load m.words (pos / 32) ≡ ok (get_or m.words (pos / 32) 0)
unfolding load
load-ok m pos v h = rw (get_elem?-eq-get_or m.words (pos / 32) 0 (omega (arith, v.covered)), load)

-- In a valid map `test` reads the position's bit, and no index is out of range.
pub test_lem : (m : BitMap) (pos : ℕ) → IsValid m → test m pos ≡ ok (holds m pos)
unfolding test
test_lem m pos v = ground (arith, load-ok m pos v)

-- What `set` and `reset` share: one bit of one word is written.
pub record Wrote (m : BitMap) (pos : ℕ) (v : Bool) (r : Run BitMap) : Type 0 where
  pub after : BitMap
  pub returned : r ≡ ok after
  pub same_size : after.size ≡ m.size
  pub valid : IsValid after
  pub reads :
      (q : ℕ)
      → holds after q ≡ (if ltb pos m.size then (if pos == q then v else holds m q) else holds m q)

write-Wrote :
    (m : BitMap) (pos : ℕ) (v : Bool) (w : ℕ)
    → IsValid m
    → pos < m.size
    → w < 2 ^ 32
    → ((c : ℕ)
        → c < 32
        → test_bit w c
          ≡ (if 31 - pos % 32 == c then v else test_bit (get_or m.words (pos / 32) 0) c))
    → Wrote m pos v (ok (record m { words = set m.words (pos / 32) w }))
write-Wrote m pos v w valid inside fits bits = record {
  after = record m { words = set m.words (pos / 32) w };
  returned = refl;
  same_size = refl;
  valid = record {
    covered = omega (arith, length-set m.words (pos / 32) w, valid.covered);
    fits = All-set (λ x. x < 2 ^ 32) m.words (pos / 32) w valid.fits fits;
  };
  reads = λ q.
      ground (arith, get_or-set m.words (pos / 32) (q / 32) w 0, bits (31 - q % 32), valid.covered);
}

pub word-fits :
    (m : BitMap) (pos : ℕ) → IsValid m → pos < m.size → get_or m.words (pos / 32) 0 < 2 ^ 32
word-fits m pos v h =
    All-get_or (λ w. w < 2 ^ 32) m.words (pos / 32) 0 v.fits (omega (arith, v.covered))

skipped-Wrote :
    (m : BitMap) (pos : ℕ) (v : Bool) → IsValid m → ltb pos m.size ≡ false → Wrote m pos v (ok m)
skipped-Wrote m pos v valid e = record {
  after = m;
  returned = refl;
  same_size = refl;
  valid = valid;
  reads = λ q. rw e;
}

-- For a valid map, `set` stops at no index, returns a valid map of the same size in which the
-- position reads true if it is in range, and every other position reads as before.
pub set_pos-Wrote : (m : BitMap) (pos : ℕ) → IsValid m → Wrote m pos true (set_pos m pos)
unfolding set_pos
set_pos-Wrote m pos v = elim (Bool-cases (ltb pos m.size)) [
  | inl e ↦
      let inside : pos < m.size = ltb→lt pos m.size e in
      let old : ℕ = get_or m.words (pos / 32) 0 in
      rw (e, load-ok m pos v inside)
        (write-Wrote m pos true (set_bit old (31 - pos % 32)) v inside
          (set_bit-lt old (31 - pos % 32) (word-fits m pos v inside) (omega arith))
          (λ c lt. test_bit-set_bit old (31 - pos % 32) c))
  | inr e ↦ rw e (skipped-Wrote m pos true v e)
]

-- For a valid map, `reset` stops at no index, returns a valid map of the same size in which the
-- position reads false, and every other position reads as before.
pub reset-Wrote : (m : BitMap) (pos : ℕ) → IsValid m → Wrote m pos false (reset m pos)
unfolding reset
reset-Wrote m pos v = elim (Bool-cases (ltb pos m.size)) [
  | inl e ↦
      let inside : pos < m.size = ltb→lt pos m.size e in
      let old : ℕ = get_or m.words (pos / 32) 0 in
      rw (e, load-ok m pos v inside)
        (write-Wrote m pos false (clear_bit old (31 - pos % 32)) v inside
          (clear_bit-lt old (31 - pos % 32) (word-fits m pos v inside))
          (λ c lt. test_bit-clear_bit old (31 - pos % 32) c (omega arith) lt))
  | inr e ↦ rw e (skipped-Wrote m pos false v e)
]
