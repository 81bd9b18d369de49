-- ===== src/Prelude/Bits.antt =====
-- The bits of machine words: single bits of `&`, `|`, `!` and `1 << b`, at every width.
use Prim.Native.Nat.{ℕ, zero, suc, ◌+◌, ◌-◌, ◌*◌, ◌/◌, ◌%◌, ◌^◌, ◌≤◌, ◌<◌, min, max}
use Prim.Native.Nat.{bit_and, bit_or, digits, bit_and-bitwise, bit_or-bitwise}
use mathlib.Core.Path.{◌≡◌, refl, ap}
use mathlib.Core.Bool.{Bool, true, false, not}
use native.Mathlib.Nat.{pow-suc, one-le-pow, le_refl, lt_of_le_of_lt, pow-le-pow_right}
use native.Mathlib.Omega.{arith}
use mos_rust.Prelude.Tests.{◌==◌, if◌then◌else◌}

-- Bit `c` of a word, 0 or 1.
abbrev pub bit : ℕ → ℕ → ℕ
bit zero w = w % 2
bit (suc c) w = bit c (w / 2)

-- `!w`, `w | (1 << b)`, `w & !(1 << b)` and `w & (1 << b) != 0` on a u32, at `b < 32`.
abbrev pub not32 : ℕ → ℕ
not32 w = 2 ^ 32 - 1 - w

pub set_bit : ℕ → ℕ → ℕ
set_bit w b = bit_or w (2 ^ b)

unfoldable pub clear_bit : ℕ → ℕ → ℕ
clear_bit w b = bit_and w (not32 (2 ^ b))

pub test_bit : ℕ → ℕ → Bool
test_bit w b = not (bit_and w (2 ^ b) == 0)

-- Two amounts of fuel that are both enough give the same digits.
module _ (z : ℕ → ℕ) (f : ℕ → ℕ → ℕ) where
  digits_enough : (n m a b : ℕ) → a ≤ n → a ≤ m → digits z f n a b ≡ digits z f m a b
  digits_enough zero zero a b p q = refl
  digits_enough (suc n) zero zero b p q = refl
  digits_enough zero (suc m) zero b p q = refl
  digits_enough (suc n) (suc m) zero b p q = refl
  digits_enough (suc n) (suc m) (suc a) b p q =
      omega (arith, digits_enough n m (suc a / 2) (b / 2) (omega arith) (omega arith))
  digits_enough n m (suc a) b p q = absurd (omega arith)

bit_and_low : (a b : ℕ) → bit_and a b ≡ bit_and (a / 2) (b / 2) * 2 + min (a % 2) (b % 2)
bit_and_low zero b = simp bit_and-bitwise (omega arith)
bit_and_low (suc a) b = simp bit_and-bitwise (
    omega (
      arith,
      digits_enough (λ y. 0) min a (suc a / 2) (suc a / 2) (b / 2) (omega arith) (le_refl _),
    ))

bit_or_low : (a b : ℕ) → bit_or a b ≡ bit_or (a / 2) (b / 2) * 2 + max (a % 2) (b % 2)
bit_or_low zero b = simp bit_or-bitwise (omega arith)
bit_or_low (suc a) b = simp bit_or-bitwise (
    omega (
      arith,
      digits_enough (λ y. y) max a (suc a / 2) (suc a / 2) (b / 2) (omega arith) (le_refl _),
    ))

pub bit-bit_and : (c a b : ℕ) → bit c (bit_and a b) ≡ min (bit c a) (bit c b)
bit-bit_and zero a b = omega (arith, bit_and_low a b)
bit-bit_and (suc c) a b =
    let half : bit_and a b / 2 ≡ bit_and (a / 2) (b / 2) = omega (arith, bit_and_low a b) in
    rw half (bit-bit_and c (a / 2) (b / 2))

pub bit-bit_or : (c a b : ℕ) → bit c (bit_or a b) ≡ max (bit c a) (bit c b)
bit-bit_or zero a b = omega (arith, bit_or_low a b)
bit-bit_or (suc c) a b =
    let half : bit_or a b / 2 ≡ bit_or (a / 2) (b / 2) = omega (arith, bit_or_low a b) in
    rw half (bit-bit_or c (a / 2) (b / 2))

pub bit-le : (c w : ℕ) → bit c w ≤ 1
bit-le zero w = omega arith
bit-le (suc c) w = bit-le c (w / 2)

pub bit_of_zero : (c : ℕ) → bit c 0 ≡ 0
bit_of_zero zero = refl
bit_of_zero (suc c) = bit_of_zero c

pub bit-pow : (c b : ℕ) → bit c (2 ^ b) ≡ (if b == c then 1 else 0)
bit-pow zero zero = refl
bit-pow zero (suc b) = ground (arith, pow-suc 2 b)
bit-pow (suc c) zero = ground (arith, bit_of_zero c)
bit-pow (suc c) (suc b) =
    let half : 2 ^ suc b / 2 ≡ 2 ^ b = omega (arith, pow-suc 2 b) in
    rw half (ground (arith, bit-pow c b))

pub bit-complement : (k c w : ℕ) → c < k → w < 2 ^ k → bit c (2 ^ k - 1 - w) ≡ 1 - bit c w
bit-complement zero c w h hw = absurd (omega arith)
bit-complement (suc k) zero w h hw = omega (arith, pow-suc 2 k)
bit-complement (suc k) (suc c) w h hw =
    let half : (2 ^ suc k - 1 - w) / 2 ≡ 2 ^ k - 1 - w / 2 = omega (arith, pow-suc 2 k) in
    rw half (bit-complement k c (w / 2) (omega arith) (omega (arith, pow-suc 2 k)))

bit_and-zero : (n w : ℕ) → w ≤ n → bit_and w 0 ≡ 0
bit_and-zero n zero h = refl
bit_and-zero zero (suc w) h = absurd (omega arith)
bit_and-zero (suc n) (suc w) h =
    omega (arith, bit_and_low (suc w) 0, bit_and-zero n (suc w / 2) (omega arith))

pub bit_and-pow : (b w : ℕ) → bit_and w (2 ^ b) ≡ bit b w * 2 ^ b
bit_and-pow zero w = omega (arith, bit_and_low w 1, bit_and-zero (w / 2) (w / 2) (le_refl _))
bit_and-pow (suc b) w =
    let half : 2 ^ suc b / 2 ≡ 2 ^ b = omega (arith, pow-suc 2 b) in
    let low : bit_and w (2 ^ suc b) ≡ bit_and (w / 2) (2 ^ b) * 2 =
      rw (bit_and_low w (2 ^ suc b), half) (omega (arith, pow-suc 2 b)) in
    let double = ap (λ (t : ℕ). bit b (w / 2) * t) (pow-suc 2 b) in
    omega (arith, low, double, bit_and-pow b (w / 2))

pub bit_or-lt : (k a b : ℕ) → a < 2 ^ k → b < 2 ^ k → bit_or a b < 2 ^ k
bit_or-lt zero zero zero ha hb = omega arith
bit_or-lt zero a b ha hb = absurd (omega arith)
bit_or-lt (suc k) a b ha hb = omega (
  arith,
  bit_or_low a b,
  pow-suc 2 k,
  bit_or-lt k (a / 2) (b / 2) (omega (arith, pow-suc 2 k)) (omega (arith, pow-suc 2 k)),
)

pub bit_and-lt : (k a b : ℕ) → a < 2 ^ k → bit_and a b < 2 ^ k
bit_and-lt zero zero b ha = let none_left : bit_and 0 b ≡ 0 = bit_and-bitwise 0 b in omega arith
bit_and-lt zero (suc a) b ha = absurd (omega arith)
bit_and-lt (suc k) a b ha =
    omega (
      arith,
      bit_and_low a b,
      pow-suc 2 k,
      bit_and-lt k (a / 2) (b / 2) (omega (arith, pow-suc 2 k)),
    )

-- A word with no bit set is 0.
pub eq_zero_of_bits : (k w : ℕ) → w < 2 ^ k → ((c : ℕ) → c < k → bit c w ≡ 0) → w ≡ 0
eq_zero_of_bits zero w h z = omega arith
eq_zero_of_bits (suc k) w h z =
    let high : w / 2 ≡ 0 =
      eq_zero_of_bits k (w / 2) (omega (arith, pow-suc 2 k)) (λ c lt. z (suc c) (omega arith)) in
    omega (arith, z 0 (omega arith))

pow-lt : (b : ℕ) → b < 32 → 2 ^ b < 2 ^ 32
pow-lt b h =
    lt_of_le_of_lt (pow-le-pow_right {n = 2} (omega arith) {i = b} {j = 31} (omega arith))
      (omega arith)

-- How the four operations read back.
pub test_bit_lem : (w b : ℕ) → test_bit w b ≡ (bit b w == 1)
unfolding test_bit
test_bit_lem w b = ground (arith, bit_and-pow b w, bit-le b w, one-le-pow b 2)

pub test_bit-set_bit :
    (w b c : ℕ) → test_bit (set_bit w b) c ≡ (if b == c then true else test_bit w c)
unfolding set_bit
test_bit-set_bit w b c = ground (
  arith,
  test_bit_lem (bit_or w (2 ^ b)) c,
  test_bit_lem w c,
  bit-bit_or c w (2 ^ b),
  bit-pow c b,
  bit-le c w,
)

pub test_bit-clear_bit :
    (w b c : ℕ)
    → b < 32
    → c < 32
    → test_bit (clear_bit w b) c ≡ (if b == c then false else test_bit w c)
unfolding clear_bit
test_bit-clear_bit w b c hb hc = ground (
  arith,
  test_bit_lem (bit_and w (not32 (2 ^ b))) c,
  test_bit_lem w c,
  bit-bit_and c w (not32 (2 ^ b)),
  bit-complement 32 c (2 ^ b) hc (pow-lt b hb),
  bit-pow c b,
  bit-le c w,
)

pub set_bit-lt : (w b : ℕ) → w < 2 ^ 32 → b < 32 → set_bit w b < 2 ^ 32
unfolding set_bit
set_bit-lt w b hw hb = bit_or-lt 32 w (2 ^ b) hw (pow-lt b hb)

pub clear_bit-lt : (w b : ℕ) → w < 2 ^ 32 → clear_bit w b < 2 ^ 32
unfolding clear_bit
clear_bit-lt w b hw = bit_and-lt 32 w (not32 (2 ^ b)) hw

pub bit_all_ones : (c : ℕ) → c < 32 → bit c (2 ^ 32 - 1) ≡ 1
bit_all_ones c h = rw (bit_of_zero c) at (bit-complement 32 c 0 h (omega arith))

-- The low bits of a word that has no others.
pub bit_and-mask : (k w : ℕ) → w < 2 ^ k → bit_and w (2 ^ k - 1) ≡ w
bit_and-mask zero w h = let low : w ≡ 0 = omega arith in rw low refl
bit_and-mask (suc k) w h =
    let half : (2 ^ suc k - 1) / 2 ≡ 2 ^ k - 1 = omega (arith, pow-suc 2 k, one-le-pow k 2) in
    let low : bit_and w (2 ^ suc k - 1) ≡ bit_and (w / 2) (2 ^ k - 1) * 2 + min (w % 2) 1 =
      rw (bit_and_low w (2 ^ suc k - 1), half)
        (ap (λ (x : ℕ). bit_and (w / 2) (2 ^ k - 1) * 2 + min (w % 2) x)
          (omega (arith, pow-suc 2 k, one-le-pow k 2))) in
    omega (arith, low, bit_and-mask k (w / 2) (omega (arith, pow-suc 2 k)))

bit_or-zero : (n w : ℕ) → w ≤ n → bit_or w 0 ≡ w
bit_or-zero n zero h = refl
bit_or-zero zero (suc w) h = absurd (omega arith)
bit_or-zero (suc n) (suc w) h =
    omega (arith, bit_or_low (suc w) 0, bit_or-zero n (suc w / 2) (omega arith))

-- `(high << k) | low`
pub bit_or_join : (k high low : ℕ) → low < 2 ^ k → bit_or (high * 2 ^ k) low ≡ high * 2 ^ k + low
bit_or_join zero high low h =
    let nothing : low ≡ 0 = omega arith in
    rw nothing (omega (arith, bit_or-zero (high * 1) (high * 1) (le_refl _)))
bit_or_join (suc k) high low h =
    let double = ap (λ (t : ℕ). high * t) (pow-suc 2 k) in
    let half : high * 2 ^ suc k / 2 ≡ high * 2 ^ k = omega (arith, double) in
    let even : high * 2 ^ suc k % 2 ≡ 0 = omega (arith, double) in
    let low_bits = bit_or_low (high * 2 ^ suc k) low in
    let next = bit_or_join k high (low / 2) (omega (arith, pow-suc 2 k)) in
    let same : bit_or (high * 2 ^ suc k / 2) (low / 2) ≡ bit_or (high * 2 ^ k) (low / 2) =
      ap (λ (t : ℕ). bit_or t (low / 2)) half in
    omega (arith, double, even, low_bits, next, same)

-- `w & 0x5`
pub bit_and_five : (w : ℕ) → bit_and w 5 ≡ bit 0 w + 4 * bit 2 w
bit_and_five w =
    let one : bit_and (w / 2) 2 ≡ bit 1 (w / 2) * 2 = bit_and-pow 1 (w / 2) in
    omega (arith, bit_and_low w 5, one)
