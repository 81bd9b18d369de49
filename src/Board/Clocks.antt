-- ===== src/Board/Clocks.antt =====
-- The repair of the clocks that the radio's code turns off, `recover_peripheral_clocks` and
-- `ensure_systimer_clock` of boards/esp32c6/src/bsp.rs.
use Prim.Native.Nat.{bit_and, bit_or}
use mos_rust.Prelude.{
  ℕ, ◌^◌, ◌≡◌, ◌≢◌, refl, ap, ◌∙◌, subst, Bool, true, false, not, ltb, leb, ◌&&◌, ◌||◌, ◌==◌, inl,
  inr, Bool-cases, if◌then◌else◌, arith,
}
use native.Mathlib.Nat.{one-le-pow}
use mos_rust.Prelude.Bits.{bit, bit-bit_or, bit-bit_and, bit-le, bit_and-pow, bit_and_five, not32}
use mos_rust.Board.Regs
use mos_rust.Board.{
  Board, has, pcr_mspi_conf, pcr_cache_conf, write, ensure_systimer_clock,
  recover_peripheral_clocks,
}

pub has-bit : (w c : ℕ) → has w (2 ^ c) ≡ (bit c w == 1)
has-bit w c = ground (arith, bit_and-pow c w, bit-le c w, one-le-pow c 2)

bit_of_set : (w c : ℕ) → has w (2 ^ c) ≡ true → bit c w ≡ 1
bit_of_set w c e = ground (arith, has-bit w c)

-- The test that the code makes of a clock's word.
abbrev pub clock_bad : ℕ → Bool
clock_bad w = not (has w 0x1) || has w 0x2

clock_good : (w : ℕ) → clock_bad w ≡ false → (bit 0 w ≡ 1) × (bit 1 w ≡ 0)
clock_good w e = ground (arith, has-bit w 0, has-bit w 1, bit-le 0 w, bit-le 1 w)

clock_fine : (w : ℕ) → bit 0 w ≡ 1 → bit 1 w ≡ 0 → clock_bad w ≡ false
clock_fine w h0 h1 = rw (has-bit w 0, has-bit w 1, h0, h1) refl

-- `(w | 0x1) & !0x2`
clock_on :
    (w : ℕ)
    → (bit 0 (bit_and (bit_or w 0x1) (not32 0x2)) ≡ 1)
      × (bit 1 (bit_and (bit_or w 0x1) (not32 0x2)) ≡ 0)
clock_on w = (
  omega (arith, bit-bit_and 0 (bit_or w 1) (not32 2), bit-bit_or 0 w 1),
  omega (arith, bit-bit_and 1 (bit_or w 1) (not32 2)),
)

-- `(w | 0x5) & !0x2`
clocks_on :
    (w : ℕ)
    → (bit 0 (bit_and (bit_or w 0x5) (not32 0x2)) ≡ 1)
      × (bit 1 (bit_and (bit_or w 0x5) (not32 0x2)) ≡ 0)
      × (bit 2 (bit_and (bit_or w 0x5) (not32 0x2)) ≡ 1)
clocks_on w = (
  omega (arith, bit-bit_and 0 (bit_or w 5) (not32 2), bit-bit_or 0 w 5, bit-le 0 w),
  omega (arith, bit-bit_and 1 (bit_or w 5) (not32 2)),
  omega (arith, bit-bit_and 2 (bit_or w 5) (not32 2), bit-bit_or 2 w 5, bit-le 2 w),
)

-- The timer has its clocks.
pub record IsTimed (b : Board) : Type 0 where
  pub on : bit 0 (b.regs Regs.pcr_systimer_conf) ≡ 1
  pub no_reset : bit 1 (b.regs Regs.pcr_systimer_conf) ≡ 0
  pub func_clk : bit 22 (b.regs Regs.pcr_systimer_func_clk) ≡ 1

pub ensure_systimer_clock-IsTimed : (b : Board) → IsTimed (ensure_systimer_clock b).1
unfolding ensure_systimer_clock
ensure_systimer_clock-IsTimed b =
    let conf = b.regs Regs.pcr_systimer_conf in
    let func = b.regs Regs.pcr_systimer_func_clk in
    let (set, cleared) = clock_on conf in
    let top : bit 22 (bit_or func (2 ^ 22)) ≡ 1 =
      ground (arith, bit-bit_or 22 func (2 ^ 22), bit-le 22 func) in
    elim (Bool-cases (not (has conf 0x1) || has conf 0x2)) [
      | inl e ↦ elim (Bool-cases (has func (2 ^ 22))) [
        | inl f ↦
            rw (e, f) (record { on = set; no_reset = cleared; func_clk = bit_of_set func 22 f })
        | inr f ↦ rw (e, f) (record { on = set; no_reset = cleared; func_clk = top })
      ]
      | inr e ↦
          let (good, fine) = clock_good conf e in
          elim (Bool-cases (has func (2 ^ 22))) [
            | inl f ↦
                rw (e, f) (record { on = good; no_reset = fine; func_clk = bit_of_set func 22 f })
            | inr f ↦ rw (e, f) (record { on = good; no_reset = fine; func_clk = top })
          ]
    ]

ensure_systimer_clock-done : (b : Board) → IsTimed b → ensure_systimer_clock b ≡ (false, b)
unfolding ensure_systimer_clock
ensure_systimer_clock-done b t =
    let fine = clock_fine (b.regs Regs.pcr_systimer_conf) t.on t.no_reset in
    let func : has (b.regs Regs.pcr_systimer_func_clk) (2 ^ 22) ≡ true =
      rw (has-bit (b.regs Regs.pcr_systimer_func_clk) 22, t.func_clk) refl in
    rw (fine, func) refl

-- The clocks of the timer, the flash and its cache run.
pub record IsClocked (b : Board) : Type 0 where
  pub timed : IsTimed b
  pub mspi_0 : bit 0 (b.regs pcr_mspi_conf) ≡ 1
  pub mspi_1 : bit 1 (b.regs pcr_mspi_conf) ≡ 0
  pub mspi_2 : bit 2 (b.regs pcr_mspi_conf) ≡ 1
  pub cache_0 : bit 0 (b.regs pcr_cache_conf) ≡ 1
  pub cache_1 : bit 1 (b.regs pcr_cache_conf) ≡ 0

abbrev pub mspi_bad : ℕ → Bool
mspi_bad w = not (bit_and w 0x5 == 0x5) || has w 0x2

mspi_good : (w : ℕ) → mspi_bad w ≡ false → (bit 0 w ≡ 1) × (bit 1 w ≡ 0) × (bit 2 w ≡ 1)
mspi_good w e = ground (arith, bit_and_five w, has-bit w 1, bit-le 0 w, bit-le 1 w, bit-le 2 w)

mspi_fine : (w : ℕ) → bit 0 w ≡ 1 → bit 1 w ≡ 0 → bit 2 w ≡ 1 → mspi_bad w ≡ false
mspi_fine w h0 h1 h2 = rw (bit_and_five w, has-bit w 1, h0, h1, h2) refl

-- The two steps of the repair that follow the timer's.
abbrev repair_mspi : Board → Board
repair_mspi b =
    if mspi_bad (b.regs pcr_mspi_conf)
    then write pcr_mspi_conf (bit_and (bit_or (b.regs pcr_mspi_conf) 0x5) (not32 0x2)) b
    else b

abbrev repair_cache : Board → Board
repair_cache b =
    if clock_bad (b.regs pcr_cache_conf)
    then write pcr_cache_conf (bit_and (bit_or (b.regs pcr_cache_conf) 0x1) (not32 0x2)) b
    else b

repair_mspi-good :
    (b : Board)
    → (bit 0 ((repair_mspi b).regs pcr_mspi_conf) ≡ 1)
      × (bit 1 ((repair_mspi b).regs pcr_mspi_conf) ≡ 0)
      × (bit 2 ((repair_mspi b).regs pcr_mspi_conf) ≡ 1)
repair_mspi-good b = elim (Bool-cases (mspi_bad (b.regs pcr_mspi_conf))) [
  | inl e ↦ rw e (clocks_on (b.regs pcr_mspi_conf))
  | inr e ↦ rw e (mspi_good (b.regs pcr_mspi_conf) e)
]

repair_mspi-others : (b : Board) (a : ℕ) → a ≢ pcr_mspi_conf → (repair_mspi b).regs a ≡ b.regs a
repair_mspi-others b a ne = elim (Bool-cases (mspi_bad (b.regs pcr_mspi_conf))) [
  | inl e ↦ rw e (ground arith)
  | inr e ↦ rw e refl
]

repair_cache-good :
    (b : Board)
    → (bit 0 ((repair_cache b).regs pcr_cache_conf) ≡ 1)
      × (bit 1 ((repair_cache b).regs pcr_cache_conf) ≡ 0)
repair_cache-good b = elim (Bool-cases (clock_bad (b.regs pcr_cache_conf))) [
  | inl e ↦ rw e (clock_on (b.regs pcr_cache_conf))
  | inr e ↦ rw e (clock_good (b.regs pcr_cache_conf) e)
]

repair_cache-others : (b : Board) (a : ℕ) → a ≢ pcr_cache_conf → (repair_cache b).regs a ≡ b.regs a
repair_cache-others b a ne = elim (Bool-cases (clock_bad (b.regs pcr_cache_conf))) [
  | inl e ↦ rw e (ground arith)
  | inr e ↦ rw e refl
]

repaired-IsClocked : (b : Board) → IsTimed b → IsClocked (repair_cache (repair_mspi b))
repaired-IsClocked b t =
    let m = repair_mspi b in
    let d = repair_cache m in
    let (m0, m1, m2) = repair_mspi-good b in
    let (c0, c1) = repair_cache-good m in
    let same : (a : ℕ) → a ≢ pcr_mspi_conf → a ≢ pcr_cache_conf → d.regs a ≡ b.regs a =
      λ a h1 h2. repair_cache-others m a h2 ∙ repair_mspi-others b a h1 in
    let kept : d.regs pcr_mspi_conf ≡ m.regs pcr_mspi_conf =
      repair_cache-others m pcr_mspi_conf (λ e. absurd (omega (arith, e))) in
    let conf : d.regs Regs.pcr_systimer_conf ≡ b.regs Regs.pcr_systimer_conf =
      same _ (λ e. absurd (omega (arith, e))) (λ e. absurd (omega (arith, e))) in
    let func : d.regs Regs.pcr_systimer_func_clk ≡ b.regs Regs.pcr_systimer_func_clk =
      same _ (λ e. absurd (omega (arith, e))) (λ e. absurd (omega (arith, e))) in
    record {
      timed = record {
        on = ap (bit 0) conf ∙ t.on;
        no_reset = ap (bit 1) conf ∙ t.no_reset;
        func_clk = ap (bit 22) func ∙ t.func_clk;
      };
      mspi_0 = ap (bit 0) kept ∙ m0;
      mspi_1 = ap (bit 1) kept ∙ m1;
      mspi_2 = ap (bit 2) kept ∙ m2;
      cache_0 = c0;
      cache_1 = c1;
    }

-- `recover_peripheral_clocks`, by its steps.
in_flash : ℕ → Bool
in_flash mepc = leb 0x4200_0000 mepc && ltb mepc 0x4400_0000

record Recovered (b : Board) (mepc : ℕ) (r : Bool × Board) : Type 0 where
  clocked : IsClocked r.1
  quiet : (in_flash mepc && not (r.1.last_fenced_mepc == mepc)) ≡ false

recover_peripheral_clocks-Recovered :
    (b : Board) (mepc : ℕ) → Recovered b mepc (recover_peripheral_clocks b mepc)
unfolding recover_peripheral_clocks in_flash
recover_peripheral_clocks-Recovered b mepc =
    let (timer, b1) = ensure_systimer_clock b in
    let b3 = repair_cache (repair_mspi b1) in
    let good = repaired-IsClocked b1 (ensure_systimer_clock-IsTimed b) in
    let test =
      timer
      || mspi_bad (b1.regs pcr_mspi_conf)
      || clock_bad ((repair_mspi b1).regs pcr_cache_conf)
      || (in_flash mepc && not (b3.last_fenced_mepc == mepc)) in
    elim (Bool-cases test) [
      | inl e ↦ rw e (record {
        clocked = record {
          timed = record {
            on = good.timed.on;
            no_reset = good.timed.no_reset;
            func_clk = good.timed.func_clk;
          };
          mspi_0 = good.mspi_0;
          mspi_1 = good.mspi_1;
          mspi_2 = good.mspi_2;
          cache_0 = good.cache_0;
          cache_1 = good.cache_1;
        };
        quiet = ground arith;
      })
      | inr e ↦ rw e (record { clocked = good; quiet = ground arith })
    ]

recover_peripheral_clocks-done :
    (b : Board) (mepc : ℕ)
    → IsClocked b
    → (in_flash mepc && not (b.last_fenced_mepc == mepc)) ≡ false
    → recover_peripheral_clocks b mepc ≡ (false, b)
unfolding recover_peripheral_clocks in_flash
recover_peripheral_clocks-done b mepc c quiet =
    let timer = ensure_systimer_clock-done b c.timed in
    let mspi = mspi_fine (b.regs pcr_mspi_conf) c.mspi_0 c.mspi_1 c.mspi_2 in
    let cache = clock_fine (b.regs pcr_cache_conf) c.cache_0 c.cache_1 in
    rw (timer, mspi, cache, quiet) refl

-- After the repair the clocks of the timer, the flash and the cache run, and a fault that comes
-- again at the same address right after it finds nothing to repair: no fault is repaired for ever.
pub recover_peripheral_clocks-settles :
    (b : Board) (mepc : ℕ)
    → let after = (recover_peripheral_clocks b mepc).1 in
      IsClocked after × (recover_peripheral_clocks after mepc ≡ (false, after))
recover_peripheral_clocks-settles b mepc =
    let r = recover_peripheral_clocks-Recovered b mepc in
    (
      r.clocked,
      recover_peripheral_clocks-done (recover_peripheral_clocks b mepc).1 mepc r.clocked r.quiet,
    )

ensure_systimer_clock-intact :
    (b : Board) → (ensure_systimer_clock b).0 ≡ false → (ensure_systimer_clock b).1 ≡ b
unfolding ensure_systimer_clock
ensure_systimer_clock-intact b e = ground arith

-- With nothing to repair all the clocks ran before.
pub recover_peripheral_clocks-intact :
    (b : Board) (mepc : ℕ) → (recover_peripheral_clocks b mepc).0 ≡ false → IsClocked b
unfolding recover_peripheral_clocks
recover_peripheral_clocks-intact b mepc e =
    let b1 = (ensure_systimer_clock b).1 in
    let timer : (ensure_systimer_clock b).0 ≡ false = ground arith in
    let mspi : mspi_bad (b1.regs pcr_mspi_conf) ≡ false = ground arith in
    let cache : clock_bad ((repair_mspi b1).regs pcr_cache_conf) ≡ false = ground arith in
    let same : repair_cache (repair_mspi b1) ≡ b =
      rw (cache, mspi) (ensure_systimer_clock-intact b timer) in
    subst IsClocked same (repaired-IsClocked b1 (ensure_systimer_clock-IsTimed b))
