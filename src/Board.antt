-- ===== src/Board.antt =====
-- The timer and the clocks of the chip, boards/esp32c6/src/bsp.rs. A peripheral's register is a word
-- at its address; what the chip's counter shows, once it was asked for, is a parameter.
pub mod Regs
pub mod Alarm
pub mod Clocks
use Prim.Native.Nat.{bit_and, bit_or}
use mos_rust.Prelude.{
  ℕ, zero, suc, ◌+◌, ◌-◌, ◌*◌, ◌%◌, ◌^◌, ◌<◌, Bool, true, false, not, ◌&&◌, ◌||◌, ltb, leb, ◌==◌,
  if◌then◌else◌, update,
}
use mos_rust.Prelude.Bits.{not32}
use mos_rust.Kernel.{u32_mod}
use mos_rust.Board.Regs

abbrev pub systimer_period : ℕ
systimer_period = 16000

abbrev pub systick_cpu_int : ℕ
systick_cpu_int = 20

abbrev pub mxint_enable : ℕ
mxint_enable = 0x2000_1000

abbrev pub pcr_mspi_conf : ℕ
pcr_mspi_conf = 0x6009_6018

abbrev pub pcr_cache_conf : ℕ
pcr_cache_conf = 0x6009_6104

-- `mie` stands for the bits of the status registers that `csrrs` and `csrsi` set; `fences` counts
-- the `fence.i`.
pub record Board : Type 0 where
  pub regs : ℕ → ℕ
  pub mie : ℕ
  pub global_enable : Bool
  pub last_fenced_mepc : ℕ
  pub fences : ℕ

abbrev pub write : ℕ → ℕ → Board → Board
write a v b = record b { regs = update b.regs a v }

-- `w & m != 0`
abbrev pub has : ℕ → ℕ → Bool
has w m = not (bit_and w m == 0)

-- `enable_cpu_int_and_mie`
pub enable_cpu_int_and_mie : Board → Board
enable_cpu_int_and_mie b =
    let b1 = write mxint_enable (bit_or (b.regs mxint_enable) (2 ^ systick_cpu_int)) b in
    record b1 { mie = bit_or b1.mie (2 ^ 11) }

unfoldable pub ensure_systimer_clock : Board → Bool × Board
ensure_systimer_clock b =
    let conf = b.regs Regs.pcr_systimer_conf in
    let bad = not (has conf 0x1) || has conf 0x2 in
    let b1 =
      if bad then write Regs.pcr_systimer_conf (bit_and (bit_or conf 0x1) (not32 0x2)) b else b in
    let func_clk = b1.regs Regs.pcr_systimer_func_clk in
    let off = not (has func_clk (2 ^ 22)) in
    let b2 = if off then write Regs.pcr_systimer_func_clk (bit_or func_clk (2 ^ 22)) b1 else b1 in
    (bad || off, b2)

-- The next alarm, one period after a value of the 52-bit counter.
pub next_alarm : ℕ → ℕ → ℕ × ℕ
next_alarm lo hi = (
  (lo + systimer_period) % u32_mod,
  if leb u32_mod (lo + systimer_period) then bit_and (hi + 1) 0xF_FFFF else hi,
)

-- The `loop`, with `fuel` rounds left; the test `missed > 100` ends it within 101 rounds.
pub skip_missed : ℕ → ℕ → ℕ → ℕ → ℕ → ℕ × ℕ × ℕ
skip_missed zero cur_val lo hi missed = (lo, hi, missed)
skip_missed (suc fuel) cur_val lo hi missed =
    let (nl, nh) = next_alarm lo hi in
    let rest = skip_missed fuel cur_val nl nh (missed + 1) in
    if ltb cur_val (bit_or (hi * 2 ^ 32) lo)
    then (lo, hi, missed)
    else if ltb 100 (missed + 1)
    then (nl, nh, missed + 1)
    else rest

-- `ensure_systick_enabled`; what it reads of the counter is given as for `systick_isr`.
pub ensure_systick_enabled : Board → ℕ → ℕ → Bool × Board
unfolding next_alarm ensure_systimer_clock
ensure_systick_enabled b cur_lo cur_hi =
    let (fixed, b1) = ensure_systimer_clock b in
    let en = b1.regs mxint_enable in
    let off = not (has en (2 ^ systick_cpu_int)) in
    let b2 = if off then write mxint_enable (bit_or en (2 ^ systick_cpu_int)) b1 else b1 in
    let int_ena = b2.regs Regs.int_ena in
    let masked = not (has int_ena 0x1) in
    let b3 = if masked then write Regs.int_ena (bit_or int_ena 0x1) b2 else b2 in
    let conf = b3.regs Regs.conf in
    let stopped = not (has conf (2 ^ 24)) in
    let (next_lo, next_hi) = next_alarm cur_lo cur_hi in
    let armed = write Regs.conf (bit_or conf (2 ^ 24)) (
      write Regs.comp0_load 1 (
        write Regs.target0_hi next_hi
          (write Regs.target0_lo next_lo (write Regs.unit0_op (2 ^ 30) b3)))) in
    let b4 = if stopped then armed else b3 in
    (fixed || off || masked || stopped, record b4 { global_enable = true })

-- `cur_lo` and `cur_hi` are what the counter shows. The first component is the number of ticks
-- that were missed.
unfoldable pub systick_isr : Board → ℕ → ℕ → ℕ × Board
unfolding next_alarm skip_missed ensure_systimer_clock
systick_isr b cur_lo cur_hi =
    let b1 = (ensure_systimer_clock b).1 in
    let b2 = write Regs.int_clr 0x1 b1 in
    let b3 = write Regs.conf (bit_and (b2.regs Regs.conf) (not32 (2 ^ 24))) b2 in
    let (lo, hi) = next_alarm (b3.regs Regs.real_target0_lo) (b3.regs Regs.real_target0_hi) in
    let b4 = write Regs.unit0_op (2 ^ 30) b3 in
    let (next_lo, next_hi, missed) = skip_missed 101 (bit_or (cur_hi * 2 ^ 32) cur_lo) lo hi 0 in
    let b5 =
      write Regs.comp0_load 1 (write Regs.target0_hi next_hi (write Regs.target0_lo next_lo b4)) in
    let b6 = write Regs.conf (bit_or (b5.regs Regs.conf) (2 ^ 24)) b5 in
    (missed, write Regs.int_ena (bit_or (b6.regs Regs.int_ena) 0x1) b6)

-- `recover_peripheral_clocks`, with the clocks of the flash and of its cache
pub recover_peripheral_clocks : Board → ℕ → Bool × Board
recover_peripheral_clocks b mepc =
    let (timer, b1) = ensure_systimer_clock b in
    let mspi = b1.regs pcr_mspi_conf in
    let bad_mspi = not (bit_and mspi 0x5 == 0x5) || has mspi 0x2 in
    let b2 =
      if bad_mspi then write pcr_mspi_conf (bit_and (bit_or mspi 0x5) (not32 0x2)) b1 else b1 in
    let cache = b2.regs pcr_cache_conf in
    let bad_cache = not (has cache 0x1) || has cache 0x2 in
    let b3 =
      if bad_cache then write pcr_cache_conf (bit_and (bit_or cache 0x1) (not32 0x2)) b2 else b2 in
    let in_flash = leb 0x4200_0000 mepc && ltb mepc 0x4400_0000 in
    let fenced = record b3 { fences = b3.fences + 1; last_fenced_mepc = mepc } in
    if timer || bad_mspi || bad_cache || (in_flash && not (b3.last_fenced_mepc == mepc))
    then (true, fenced)
    else (false, b3)
