-- ===== src/Bitmap/Search.antt =====
-- The scans of core/src/data_type/bitmap.rs: the first position that reads false, or true.
use mos_rust.Prelude.{
  ℕ, zero, suc, ◌+◌, ◌-◌, ◌*◌, ◌/◌, ◌%◌, ◌^◌, ◌≤◌, ◌<◌, ◌≡◌, ◌≢◌, refl, List, [], ◌∷◌, Bool, true,
  false, not, Option, none, some, ◌∙◌, ◌↔◌, ltb, ◌==◌, if◌then◌else◌, length, get_or, All, arith,
  Bool-cases, inl, inr, ltb→lt, ==_iff,
}
use mathlib.Core.Bool.{false≢true}
use native.Mathlib.Decide.{dec_lt}
use mos_rust.Prelude.Bits.{
  bit, bit-le, bit_of_zero, not32, test_bit_lem, bit-complement, eq_zero_of_bits,
}
use mos_rust.Bitmap.{BitMap, leading_zeros, first_zero_from, first_one_from, first_zero, first_one}
use mos_rust.Bitmap.Access.{IsValid, holds, word-fits}

leading_zeros-le : (k w : ℕ) → leading_zeros k w ≤ k
unfolding leading_zeros
leading_zeros-le zero w = omega arith
leading_zeros-le (suc k) w = ground (arith, leading_zeros-le k w)

-- Bits are counted from the top: those before the result are 0, the one at it is 1.
leading_zeros-before : (k w j : ℕ) → j < leading_zeros k w → bit (k - 1 - j) w ≡ 0
unfolding leading_zeros
leading_zeros-before zero w j h = absurd (omega arith)
leading_zeros-before (suc k) w zero h = ground (arith, bit-le k w)
leading_zeros-before (suc k) w (suc j) h =
    let same : suc k - 1 - suc j ≡ k - 1 - j = omega arith in
    rw same (ground (arith, leading_zeros-before k w j))

top : (k : ℕ) → suc k - 1 - 0 ≡ k
top k = omega arith

lower : (k j : ℕ) → suc k - 1 - suc j ≡ k - 1 - j
lower k j = omega arith

leading_zeros_at : (k w : ℕ) → leading_zeros k w < k → bit (k - 1 - leading_zeros k w) w ≡ 1
unfolding leading_zeros
leading_zeros_at zero w h = absurd (omega arith)
leading_zeros_at (suc k) w h = elim (Bool-cases (bit k w == 1)) [
  | inl e ↦ rw (e, leading_zeros) (rw (top k) ((==_iff (bit k w) 1).0 e))
  | inr e ↦
      rw (e, leading_zeros) (rw (lower k (leading_zeros k w)) (leading_zeros_at k w (ground arith)))
]

-- A word that is not 0 has a bit set.
leading_zeros-lt : (w : ℕ) → w < 2 ^ 32 → w ≢ 0 → leading_zeros 32 w < 32
leading_zeros-lt w fits ne = elim (dec_lt (leading_zeros 32 w) 32) [
  | yes h ↦ h
  | no h ↦ absurd (
      ne (
        eq_zero_of_bits 32 w fits λ c lt.
          let full : 31 - c < leading_zeros 32 w = omega arith in
          let index : 32 - 1 - (31 - c) ≡ c = omega arith in
          rw index at (leading_zeros-before 32 w (31 - c) full)))
]

-- Whether the bit that `g` turns over reads 1 at position `q`, where `ws` starts at word `i`.
abbrev hits : (ℕ → ℕ) → List ℕ → ℕ → ℕ → ℕ
hits g ws i q = bit (31 - q % 32) (g (get_or ws (q / 32 - i) 0))

-- What a scan from word `i` returns: the first position that is hit, below `n`.
abbrev First : (ℕ → ℕ) → ℕ → List ℕ → ℕ → Option ℕ → Type 0
First g n ws i none = (q : ℕ) → 32 * i ≤ q → q < n → q < 32 * (i + length ws) → hits g ws i q ≡ 0
First g n ws i (some p) =
    (32 * i ≤ p)
    × (p < n)
    × (p < 32 * (i + length ws))
    × (hits g ws i p ≡ 1)
    × ((q : ℕ) → 32 * i ≤ q → q < p → hits g ws i q ≡ 0)

-- Positions of word `i` see the head of the list, later ones the tail.
module _ (g : ℕ → ℕ) (w : ℕ) (ws : List ℕ) (i : ℕ) where
  hits-head : (q : ℕ) → 32 * i ≤ q → q < 32 * i + 32 → hits g (w ∷ ws) i q ≡ bit (31 - q % 32) (g w)
  hits-head q lo hi = let index : q / 32 - i ≡ 0 = omega arith in rw index

  hits-tail : (q : ℕ) → 32 * suc i ≤ q → hits g (w ∷ ws) i q ≡ hits g ws (suc i) q
  hits-tail q lo = let index : q / 32 - i ≡ suc (q / 32 - suc i) = omega arith in rw index

  -- The scan goes on: no position of word `i` below `n` is hit.
  First-later :
      (n : ℕ) (o : Option ℕ)
      → ((q : ℕ) → 32 * i ≤ q → q < n → q < 32 * i + 32 → bit (31 - q % 32) (g w) ≡ 0)
      → First g n ws (suc i) o
      → First g n (w ∷ ws) i o
  First-later n none clear later = λ q lo hi inside. elim (dec_lt q (32 * i + 32)) [
    | yes here ↦ hits-head q lo here ∙ clear q lo hi here
    | no beyond ↦ hits-tail q (omega arith) ∙ later q (omega arith) hi (omega arith)
  ]
  First-later n (some p) clear (lo, hi, inside, hit, before) = (
    omega arith,
    hi,
    omega arith,
    hits-tail p lo ∙ hit,
    λ q lq lt. elim (dec_lt q (32 * i + 32)) [
      | yes here ↦ hits-head q lq here ∙ clear q lq (omega arith) here
      | no beyond ↦ hits-tail q (omega arith) ∙ before q (omega arith) lt
    ],
  )

  -- The bits of the word before its leading one.
  clear-before :
      (q : ℕ)
      → 32 * i ≤ q
      → q < 32 * i + 32
      → q < i * 32 + leading_zeros 32 (g w)
      → bit (31 - q % 32) (g w) ≡ 0
  clear-before q lo hi lt =
      let index : 31 - q % 32 ≡ 32 - 1 - (q - 32 * i) = omega arith in
      rw index (leading_zeros-before 32 (g w) (q - 32 * i) (omega arith))

  First-here :
      (n : ℕ)
      → g w < 2 ^ 32
      → g w ≢ 0
      → i * 32 + leading_zeros 32 (g w) < n
      → First g n (w ∷ ws) i (some (i * 32 + leading_zeros 32 (g w)))
  First-here n fits ne hi =
      let lt = leading_zeros-lt (g w) fits ne in
      let index : 31 - (i * 32 + leading_zeros 32 (g w)) % 32 ≡ 32 - 1 - leading_zeros 32 (g w) =
        omega arith in
      (
        omega arith,
        hi,
        omega arith,
        hits-head (i * 32 + leading_zeros 32 (g w)) (omega arith) (omega arith)
            ∙ rw index (leading_zeros_at 32 (g w) lt),
        λ q lq ltq. hits-head q lq (omega arith) ∙ clear-before q lq (omega arith) ltq,
      )

  -- One round of a scan, whose test `b` asks whether the word has no hit.
  First-step :
      (n : ℕ) (o : Option ℕ) (b : Bool)
      → g w < 2 ^ 32
      → (b ≡ true) ↔ (g w ≡ 0)
      → First g n ws (suc i) o
      → First g n (w ∷ ws) i (
          if not b
          then (if ltb (i * 32 + leading_zeros 32 (g w)) n
              then some (i * 32 + leading_zeros 32 (g w))
              else o)
          else o)
  First-step n o true fits test later =
      First-later n o (λ q lo hi inside. rw (test.0 refl) (bit_of_zero (31 - q % 32))) later
  First-step n o false fits test later =
      elim (Bool-cases (ltb (i * 32 + leading_zeros 32 (g w)) n)) [
        | inl lt ↦ rw lt (First-here n fits (λ z. false≢true (test.1 z)) (ltb→lt _ _ lt))
        | inr ge ↦
            rw ge
              (First-later n o (λ q lo hi inside. clear-before q lo inside (ground arith)) later)
      ]

first_one_from-First :
    (n : ℕ) (ws : List ℕ) (i : ℕ)
    → All (λ w. w < 2 ^ 32) ws
    → First (λ w. w) n ws i (first_one_from n ws i)
unfolding first_one_from
first_one_from-First n [] i f = λ q lo hi inside. absurd (omega arith)
first_one_from-First n (w ∷ ws) i f =
    First-step (λ w. w) w ws i n _ (w == 0) f.0 (==_iff w 0) (first_one_from-First n ws (suc i) f.1)

full_word : (w : ℕ) → w < 2 ^ 32 → ((w == 2 ^ 32 - 1) ≡ true) ↔ (not32 w ≡ 0)
full_word w h = (λ e. ground arith, λ e. ground arith)

first_zero_from-First :
    (n : ℕ) (ws : List ℕ) (i : ℕ)
    → All (λ w. w < 2 ^ 32) ws
    → First not32 n ws i (first_zero_from n ws i)
unfolding first_zero_from
first_zero_from-First n [] i f = λ q lo hi inside. absurd (omega arith)
first_zero_from-First n (w ∷ ws) i f =
    First-step not32 w ws i n _ (w == 2 ^ 32 - 1) (omega arith) (full_word w f.0)
      (first_zero_from-First n ws (suc i) f.1)

-- What a search for the first position that reads `v` returns, in terms of reads alone.
abbrev pub FirstReading : BitMap → Bool → Option ℕ → Type 0
FirstReading m v none = (q : ℕ) → q < m.size → holds m q ≡ not v
FirstReading m v (some p) = (p < m.size) × (holds m p ≡ v) × ((q : ℕ) → q < p → holds m q ≡ not v)

holds-bit : (m : BitMap) (q : ℕ) → q < m.size → holds m q ≡ (hits (λ w. w) m.words 0 q == 1)
holds-bit m q h = ground (arith, test_bit_lem (get_or m.words (q / 32) 0) (31 - q % 32))

not32-bit :
    (m : BitMap) (q : ℕ)
    → IsValid m
    → q < m.size
    → hits not32 m.words 0 q ≡ 1 - hits (λ w. w) m.words 0 q
not32-bit m q v h =
    let index : q / 32 - 0 ≡ q / 32 = omega arith in
    let word : ℕ = get_or m.words (q / 32) 0 in
    rw index (bit-complement 32 (31 - q % 32) word (omega arith) (word-fits m q v h))

First-one :
    (m : BitMap) (o : Option ℕ)
    → IsValid m
    → First (λ w. w) m.size m.words 0 o
    → FirstReading m true o
First-one m none v f =
    λ q h. ground (arith, holds-bit m q h, f q (omega arith) h (omega (arith, v.covered)))
First-one m (some p) v (lo, hi, inside, hit, before) = (
  hi,
  ground (arith, holds-bit m p hi),
  λ q lt. ground (arith, holds-bit m q (omega arith), before q (omega arith) lt),
)

First-zero :
    (m : BitMap) (o : Option ℕ)
    → IsValid m
    → First not32 m.size m.words 0 o
    → FirstReading m false o
First-zero m none v f = λ q h. ground (
  arith,
  holds-bit m q h,
  not32-bit m q v h,
  bit-le (31 - q % 32) (get_or m.words (q / 32) 0),
  f q (omega arith) h (omega (arith, v.covered)),
)
First-zero m (some p) v (lo, hi, inside, hit, before) = (
  hi,
  ground (arith, holds-bit m p hi, not32-bit m p v hi),
  λ q lt. ground (
    arith,
    holds-bit m q (omega arith),
    not32-bit m q v (omega arith),
    bit-le (31 - q % 32) (get_or m.words (q / 32) 0),
    before q (omega arith) lt,
  ),
)

-- In a valid map `first_one` returns the lowest position that reads true, and `none` exactly when
-- every position reads false.
pub first_one-FirstReading : (m : BitMap) → IsValid m → FirstReading m true (first_one m)
unfolding first_one
first_one-FirstReading m v = First-one m _ v (first_one_from-First m.size m.words 0 v.fits)

-- In a valid map `first_zero` returns the lowest position that reads false, and `none` exactly when
-- every position reads true.
pub first_zero-FirstReading : (m : BitMap) → IsValid m → FirstReading m false (first_zero m)
unfolding first_zero
first_zero-FirstReading m v = First-zero m _ v (first_zero_from-First m.size m.words 0 v.fits)

-- In a valid map `first_one` returns the lowest position that reads true and `first_zero` the
-- lowest that reads false, and `none` exactly when there is no such position.
pub searches-FirstReading :
    (m : BitMap)
    → IsValid m
    → FirstReading m true (first_one m) × FirstReading m false (first_zero m)
searches-FirstReading m v = (first_one-FirstReading m v, first_zero-FirstReading m v)
