-- ===== src/Board/Alarm.antt =====
-- The timer interrupt, `systick_isr` of boards/esp32c6/src/bsp.rs: which alarm it sets next.
use Prim.Native.Nat.{bit_and, bit_or}
use mos_rust.Prelude.{
  ℕ, zero, suc, ◌+◌, ◌-◌, ◌*◌, ◌/◌, ◌^◌, ◌≤◌, ◌<◌, ◌≡◌, ◌≢◌, refl, ltb, leb, inl, inr, Bool-cases,
  arith,
}
use mos_rust.Prelude.Bits.{bit, bit-bit_or, bit-pow, bit-le, bit_and-mask, bit_or_join}
use mos_rust.Kernel.{u32_mod}
use mos_rust.Board.Regs
use mos_rust.Board.{
  Board, systimer_period, next_alarm, skip_missed, ensure_systimer_clock, systick_isr,
}

-- The value of the counter that two words give.
abbrev pub value : ℕ → ℕ → ℕ
value lo hi = hi * 2 ^ 32 + lo

abbrev pub period : ℕ
period = systimer_period

next_alarm-value :
    (lo hi : ℕ)
    → lo < u32_mod
    → value lo hi + period < 2 ^ 52
    → (value (next_alarm lo hi).0 (next_alarm lo hi).1 ≡ value lo hi + period)
      × ((next_alarm lo hi).0 < u32_mod)
unfolding next_alarm
next_alarm-value lo hi h fits = elim (Bool-cases (leb u32_mod (lo + systimer_period))) [
  | inl e ↦
      let up : bit_and (hi + 1) 0xF_FFFF ≡ hi + 1 = bit_and-mask 20 (hi + 1) (ground arith) in
      rw (e, up) (ground arith, omega arith)
  | inr e ↦ rw e (ground arith, omega arith)
]

-- What the loop leads to: `m` periods are skipped, 101 at most, and if fewer, the alarm lies after
-- the counter, and at most one period after it if any was skipped.
pub record Skipped (cur lo hi missed : ℕ) (r : ℕ × ℕ × ℕ) : Type 0 where
  pub count_up : missed ≤ r.2
  pub bounded : r.2 ≤ 101
  pub alarm : value r.0 r.1 ≡ value lo hi + period * (r.2 - missed)
  pub low_word : r.0 < u32_mod
  pub ahead : r.2 < 101 → cur < value r.0 r.1
  pub near : missed < r.2 → value r.0 r.1 ≤ cur + period

skip_missed-Skipped :
    (fuel cur lo hi missed : ℕ)
    → lo < u32_mod
    → value lo hi + period * fuel < 2 ^ 52
    → fuel + missed ≡ 101
    → Skipped cur lo hi missed (skip_missed fuel cur lo hi missed)
unfolding skip_missed
skip_missed-Skipped zero cur lo hi missed h fits all = record {
  count_up = omega arith;
  bounded = omega arith;
  alarm = omega arith;
  low_word = h;
  ahead = λ lt. absurd (omega arith);
  near = λ lt. absurd (omega arith);
}
skip_missed-Skipped (suc fuel) cur lo hi missed h fits all =
    let joined : bit_or (hi * 2 ^ 32) lo ≡ value lo hi = bit_or_join 32 hi lo h in
    let (up, small) = next_alarm-value lo hi h (omega arith) in
    elim (Bool-cases (ltb cur (value lo hi))) [
      | inl over ↦
          rw (joined, over)
            (record {
              count_up = omega arith;
              bounded = omega arith;
              alarm = omega arith;
              low_word = h;
              ahead = λ lt. ground arith;
              near = λ lt. absurd (omega arith);
            })
      | inr behind ↦ elim (Bool-cases (ltb 100 (missed + 1))) [
        | inl last ↦
            rw (joined, behind, last)
              (record {
                count_up = omega arith;
                bounded = ground arith;
                alarm = omega (arith, up);
                low_word = small;
                ahead = λ lt. absurd (ground arith);
                near = λ lt. ground (arith, up);
              })
        | inr more ↦
            let s =
              skip_missed-Skipped fuel cur (next_alarm lo hi).0 (next_alarm lo hi).1 (missed + 1)
                small (omega (arith, up)) (omega arith) in
            rw (joined, behind, more)
              (record {
                count_up = omega (arith, s.count_up);
                bounded = s.bounded;
                alarm = omega (arith, s.alarm, up, s.count_up);
                low_word = s.low_word;
                ahead = s.ahead;
                near = λ lt. ground (arith, s.near, s.alarm, up, behind, s.count_up);
              })
      ]
    ]

-- The check of the timer's clock leaves the other registers.
pub ensure_systimer_clock-others :
    (b : Board) (a : ℕ)
    → a ≢ Regs.pcr_systimer_conf
    → a ≢ Regs.pcr_systimer_func_clk
    → (ensure_systimer_clock b).1.regs a ≡ b.regs a
unfolding ensure_systimer_clock
ensure_systimer_clock-others b a h1 h2 = ground arith

-- What the handler leaves behind, `missed` ticks after the one that fired.
pub record Rearmed (b : Board) (cur : ℕ) (missed : ℕ) (b' : Board) : Type 0 where
  pub bounded : missed ≤ 101
  pub alarm :
      value (b'.regs Regs.target0_lo) (b'.regs Regs.target0_hi)
      ≡ value (b.regs Regs.real_target0_lo) (b.regs Regs.real_target0_hi) + period * (missed + 1)
  pub ahead : missed < 101 → cur < value (b'.regs Regs.target0_lo) (b'.regs Regs.target0_hi)
  pub exact :
      missed < 101
      → value (b.regs Regs.real_target0_lo) (b.regs Regs.real_target0_hi) ≤ cur
      → missed ≡ (cur - value (b.regs Regs.real_target0_lo) (b.regs Regs.real_target0_hi)) / period
  pub cleared : b'.regs Regs.int_clr ≡ 1
  pub loaded : b'.regs Regs.comp0_load ≡ 1
  pub running : bit 24 (b'.regs Regs.conf) ≡ 1
  pub enabled : bit 0 (b'.regs Regs.int_ena) ≡ 1

bit_or_self : (w c : ℕ) → bit c (bit_or w (2 ^ c)) ≡ 1
bit_or_self w c = ground (arith, bit-bit_or c w (2 ^ c), bit-pow c c, bit-le c w)

-- The board after the loop came to `r`.
isr_end :
    (b : Board) (cur_lo cur_hi : ℕ)
    → let lo = b.regs Regs.real_target0_lo in
      let hi = b.regs Regs.real_target0_hi in
      let first = next_alarm lo hi in
      let r = skip_missed 101 (bit_or (cur_hi * 2 ^ 32) cur_lo) first.0 first.1 0 in
      let b' = (systick_isr b cur_lo cur_hi).1 in
      ((systick_isr b cur_lo cur_hi).0 ≡ r.2)
      × (b'.regs Regs.target0_lo ≡ r.0)
      × (b'.regs Regs.target0_hi ≡ r.1)
      × (b'.regs Regs.int_clr ≡ 1)
      × (b'.regs Regs.comp0_load ≡ 1)
      × (bit 24 (b'.regs Regs.conf) ≡ 1)
      × (bit 0 (b'.regs Regs.int_ena) ≡ 1)
unfolding systick_isr
isr_end b cur_lo cur_hi =
    let lo =
      ensure_systimer_clock-others b Regs.real_target0_lo (λ e. absurd (omega (arith, e)))
        (λ e. absurd (omega (arith, e))) in
    let hi =
      ensure_systimer_clock-others b Regs.real_target0_hi (λ e. absurd (omega (arith, e)))
        (λ e. absurd (omega (arith, e))) in
    rw (lo, hi) (refl, refl, refl, refl, refl, bit_or_self _ 24, bit_or_self _ 0)

whole_periods :
    (n t c : ℕ)
    → t ≤ c
    → c < t + period * (n + 1)
    → (0 < n → t + period * (n + 1) ≤ c + period)
    → n ≡ (c - t) / period
whole_periods zero t c past over near = omega arith
whole_periods (suc n) t c past over near = omega (arith, near (omega arith))

-- The timer interrupt loses no tick and counts none twice. With the counter's 52 bits not about to
-- wrap, at most 101 rounds set the next alarm one period after the one that fired and the missed
-- ones; if fewer than 101 were missed, it lies after the counter, and if the counter is past the
-- alarm that fired, the missed ones are the whole periods between the two. The interrupt is
-- cleared, and the comparator is loaded, running and enabled.
pub systick_isr-Rearmed :
    (b : Board) (cur_lo cur_hi : ℕ)
    → b.regs Regs.real_target0_lo < u32_mod
    → value (b.regs Regs.real_target0_lo) (b.regs Regs.real_target0_hi) + period * 102 < 2 ^ 52
    → cur_lo < u32_mod
    → Rearmed b
        (value cur_lo cur_hi)
        (systick_isr b cur_lo cur_hi).0
        (systick_isr b cur_lo cur_hi).1
systick_isr-Rearmed b cur_lo cur_hi h fits low =
    let lo = b.regs Regs.real_target0_lo in
    let hi = b.regs Regs.real_target0_hi in
    let cur = bit_or (cur_hi * 2 ^ 32) cur_lo in
    let joined : cur ≡ value cur_lo cur_hi = bit_or_join 32 cur_hi cur_lo low in
    let (up, small) = next_alarm-value lo hi h (omega (arith, fits)) in
    let s =
      skip_missed-Skipped 101 cur (next_alarm lo hi).0 (next_alarm lo hi).1 0 small
        (omega (arith, up, fits)) refl in
    let (m, tl, th, clr, load, run, ena) = isr_end b cur_lo cur_hi in
    let b' = (systick_isr b cur_lo cur_hi).1 in
    let n = (systick_isr b cur_lo cur_hi).0 in
    let at : value (b'.regs Regs.target0_lo) (b'.regs Regs.target0_hi)
        ≡ value lo hi + period * (n + 1) =
      omega (arith, tl, th, m, s.alarm, up) in
    let over : n < 101
        → value cur_lo cur_hi < value (b'.regs Regs.target0_lo) (b'.regs Regs.target0_hi) =
      λ lt. omega (arith, tl, th, m, joined, s.ahead (omega (arith, m))) in
    record {
      bounded = omega (arith, m, s.bounded);
      alarm = at;
      ahead = over;
      exact = λ lt past.
          whole_periods n (value lo hi) (value cur_lo cur_hi) past (omega (arith, at, over lt))
            (λ pos. omega (arith, at, tl, th, m, joined, s.near (omega (arith, m))));
      cleared = clr;
      loaded = load;
      running = run;
      enabled = ena;
    }
