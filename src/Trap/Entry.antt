-- ===== src/Trap/Entry.antt =====
-- `_mos_trap_dispatch` of boards/esp32c6/src/trap.rs as a whole: the board's part of each interrupt,
-- and the way to the interrupts and to the exceptions.
use Prim.Native.Nat.{bit_and, bit_or}
use mos_rust.Prelude.{
  ℕ, ◌%◌, ◌^◌, ◌<◌, ◌≡◌, ◌≢◌, ◌⊎◌, refl, ap, ◌∙◌, inl, inr, true, Option, none, some, not, leb,
  ◌==◌, if◌then◌else◌, Bool-cases, Run, ok, ◌>>=◌, arith,
}
use mos_rust.Prelude.Bits.{
  bit, bit-le, bit-bit_or, bit-pow, not32, clear_bit, test_bit_lem, test_bit-clear_bit,
}
use mos_rust.TaskList.{HeaplessVec}
use mos_rust.Kernel.{Kernel}
use mos_rust.Board.{
  Board, write, has, systick_cpu_int, mxint_enable, ensure_systimer_clock, systick_isr,
}
use mos_rust.Board.Clocks.{IsTimed, ensure_systimer_clock-IsTimed, has-bit}
use mos_rust.Trap.{Trap, is_esp_hal_cpu_int, dispatch}
use mos_rust.Trap.Fault.{Frame, dispatch_exception}

abbrev pub mxint_clear : ℕ
mxint_clear = 0x2000_1008

-- The end of the branches for the other interrupts: the timer has its clocks and its interrupt.
pub keep_systick : Board → Board
keep_systick b =
    let b1 = (ensure_systimer_clock b).1 in
    let en = b1.regs mxint_enable in
    if not (has en (2 ^ systick_cpu_int))
    then write mxint_enable (bit_or en (2 ^ systick_cpu_int)) b1
    else b1

-- An interrupt that nobody handles is cleared and disabled. A shift by 32 or more takes the low
-- bits of `code`.
pub silence : Board → ℕ → Board
silence b code =
    let b1 = write mxint_clear (2 ^ (code % 32)) b in
    keep_systick (write mxint_enable (bit_and (b1.regs mxint_enable) (not32 (2 ^ (code % 32)))) b1)

module _ (hal : ℕ → Board → Board) where
  -- What interrupt `code` does to the board, and how many ticks were missed; `hal` is what the
  -- package's handlers do.
  pub board_interrupt : Board → ℕ → ℕ → ℕ → ℕ × Board
  board_interrupt b cur_lo cur_hi code =
      if code == systick_cpu_int
      then systick_isr b cur_lo cur_hi
      else if is_esp_hal_cpu_int code
      then (0, keep_systick (hal code b))
      else (0, silence b code)

  module _ ⦃vec : HeaplessVec⦄ where
    -- The result 1 asks for a switch; `none` is the endless loop after a fault.
    pub mos_trap_dispatch :
        (ℕ → Kernel × Trap → Kernel × Trap)
        → Kernel
        → Trap
        → Board
        → ℕ
        → ℕ
        → ℕ
        → Frame
        → Run (Option (ℕ × Kernel × Trap × Board × Frame))
    mos_trap_dispatch handler k t b cur_lo cur_hi mcause frame =
        let code = mcause % 2 ^ 31 in
        let (missed, b1) = board_interrupt b cur_lo cur_hi code in
        let interrupt = do
          (ret, k1, t1) ← dispatch systick_cpu_int handler k t mcause code missed
          ok (some (ret, k1, t1, b1, frame))
        in let exception : Option (ℕ × Kernel × Trap × Board × Frame) =
            elim (dispatch_exception b code frame) [
              | none ↦ none
              | some (yields, frame1, b2) ↦ some (if yields then 1 else 0, k, t, b2, frame1)
            ] in
          if leb (2 ^ 31) mcause then interrupt else ok exception

abbrev IsEnabled : Board → Type 0
IsEnabled b = bit systick_cpu_int (b.regs mxint_enable) ≡ 1

ensure_systimer_clock-mxint :
    (b : Board) → (ensure_systimer_clock b).1.regs mxint_enable ≡ b.regs mxint_enable
unfolding ensure_systimer_clock
ensure_systimer_clock-mxint b = ground arith

keep_systick-IsEnabled : (b : Board) → IsEnabled (keep_systick b)
unfolding keep_systick
keep_systick-IsEnabled b =
    let en = (ensure_systimer_clock b).1.regs mxint_enable in
    elim (Bool-cases (has en (2 ^ systick_cpu_int))) [
      | inl on ↦ rw on (ground (arith, has-bit en systick_cpu_int))
      | inr off ↦ rw off (
          ground (
            arith,
            bit-bit_or systick_cpu_int en (2 ^ systick_cpu_int),
            bit-le systick_cpu_int en,
            bit-pow systick_cpu_int systick_cpu_int,
          ))
    ]

keep_systick-IsTimed : (b : Board) → IsTimed (keep_systick b)
unfolding keep_systick
keep_systick-IsTimed b =
    let t = ensure_systimer_clock-IsTimed b in
    elim (Bool-cases (has ((ensure_systimer_clock b).1.regs mxint_enable) (2 ^ systick_cpu_int))) [
      | inl on ↦ rw on t
      | inr off ↦ rw off (record { on = t.on; no_reset = t.no_reset; func_clk = t.func_clk })
    ]

-- Another interrupt's enable bit stays.
keep_systick-others :
    (b : Board) (c : ℕ)
    → c ≢ systick_cpu_int
    → bit c ((keep_systick b).regs mxint_enable) ≡ bit c (b.regs mxint_enable)
unfolding keep_systick
keep_systick-others b c ne =
    let en = (ensure_systimer_clock b).1.regs mxint_enable in
    let same = ensure_systimer_clock-mxint b in
    elim (Bool-cases (has en (2 ^ systick_cpu_int))) [
      | inl on ↦ rw on (ap (bit c) same)
      | inr off ↦ rw off (
          ground
            (arith, bit-bit_or c en (2 ^ systick_cpu_int), bit-le c en, bit-pow c systick_cpu_int)
          ∙ ap (bit c) same)
    ]

-- Of the lines other than the timer's, only the silenced one is off.
silence-lines :
    (b : Board) (c line : ℕ)
    → c < 32
    → line < 32
    → line ≢ systick_cpu_int
    → bit line ((silence b c).regs mxint_enable)
      ≡ (if line == c then 0 else bit line (b.regs mxint_enable))
unfolding silence clear_bit
silence-lines b c line h hl ne =
    let low : c % 32 ≡ c = omega arith in
    let b1 = write mxint_clear (2 ^ c) b in
    let en = b1.regs mxint_enable in
    let b2 = write mxint_enable (bit_and en (not32 (2 ^ c))) b1 in
    rw low (
      keep_systick-others b2 line ne
      ∙ ground (
        arith,
        test_bit-clear_bit en c line h hl,
        test_bit_lem (clear_bit en c) line,
        test_bit_lem en line,
        bit-le line (clear_bit en c),
        bit-le line en,
      ))

systick_isr-kept :
    (b : Board) (lo hi : ℕ)
    → IsEnabled b
    → IsTimed (systick_isr b lo hi).1 × IsEnabled (systick_isr b lo hi).1
unfolding systick_isr
systick_isr-kept b lo hi on =
    let t = ensure_systimer_clock-IsTimed b in
    (
      record { on = t.on; no_reset = t.no_reset; func_clk = t.func_clk },
      ap (bit systick_cpu_int) (ensure_systimer_clock-mxint b) ∙ on,
    )

-- After each of the interrupts 0 to 31 that comes with the timer's line enabled in the interrupt
-- controller, the timer's clocks run and that line is enabled, whatever the package's handlers do to
-- the board; what they do to the timer's own registers is not undone. An interrupt that is neither
-- the timer's nor the package's is disabled there, and no other line is enabled or disabled with it.
pub board_interrupt-keeps :
    (hal : ℕ → Board → Board) (b : Board) (cur_lo cur_hi code line : ℕ)
    → code < 32
    → line < 32
    → line ≢ systick_cpu_int
    → IsEnabled b
    → IsTimed (board_interrupt hal b cur_lo cur_hi code).1
      × IsEnabled (board_interrupt hal b cur_lo cur_hi code).1
      × ((code ≡ systick_cpu_int)
          ⊎ (is_esp_hal_cpu_int code ≡ true)
          ⊎ (bit line ((board_interrupt hal b cur_lo cur_hi code).1.regs mxint_enable)
              ≡ (if line == code then 0 else bit line (b.regs mxint_enable))))
unfolding board_interrupt silence
board_interrupt-keeps hal b cur_lo cur_hi code line h hl ne on =
    elim (Bool-cases (code == systick_cpu_int)) [
      | inl timer ↦
          let (timed, still) = systick_isr-kept b cur_lo cur_hi on in
          rw timer (timed, still, inl (ground arith))
      | inr other ↦ elim (Bool-cases (is_esp_hal_cpu_int code)) [
        | inl known ↦
            rw (other, known)
              (
                keep_systick-IsTimed (hal code b),
                keep_systick-IsEnabled (hal code b),
                inr (inl refl),
              )
        | inr unknown ↦
            let b1 = write mxint_clear (2 ^ (code % 32)) b in
            let b2 =
              write mxint_enable (bit_and (b1.regs mxint_enable) (not32 (2 ^ (code % 32)))) b1 in
            rw (other, unknown)
              (
                keep_systick-IsTimed b2,
                keep_systick-IsEnabled b2,
                inr (inr (silence-lines b code line h hl ne)),
              )
      ]
    ]
