-- ===== src/Tests/Boards.antt =====
-- The timer, the clocks and the exceptions at concrete registers.
use mos_rust.Prelude.{◌+◌, ◌≡◌, ◌⊎◌, ◌^◌, ℕ, refl, true, false, if◌then◌else◌, ◌==◌, arith}
use mos_rust.Prelude.Bits.{bit}
use mos_rust.Board.Regs
use mos_rust.Board.{Board, mxint_enable, systick_cpu_int, systick_isr, recover_peripheral_clocks}
use mos_rust.Board.Alarm.{Rearmed, systick_isr-Rearmed}
use mos_rust.Board.Clocks.{IsTimed, IsClocked, recover_peripheral_clocks-settles}
use mos_rust.Trap.{is_esp_hal_cpu_int}
use mos_rust.Trap.Entry.{board_interrupt, board_interrupt-keeps}
use mos_rust.Trap.Fault.{Frame, Handled, dispatch_exception-Handled}

-- An alarm at 2^32 - 1000 fired; the timer's clock is off.
abbrev board : Board
board = record {
  regs = λ a. if a == Regs.real_target0_lo then 4294966296 else 0;
  mie = 0;
  global_enable = false;
  last_fenced_mepc = 0;
  fences = 0;
}

-- Three periods later the counter's high word is 1.
systick_isr-Rearmed_example :
    Rearmed board 4295015000 (systick_isr board 47704 1).0 (systick_isr board 47704 1).1
systick_isr-Rearmed_example =
    systick_isr-Rearmed board 47704 1 (omega arith) (omega arith) (omega arith)

recover_peripheral_clocks-settles_example :
    let after = (recover_peripheral_clocks board 0x4200_1234).1 in
    IsClocked after × (recover_peripheral_clocks after 0x4200_1234 ≡ (false, after))
recover_peripheral_clocks-settles_example = recover_peripheral_clocks-settles board 0x4200_1234

abbrev frame : Frame
frame = record { mepc = 0x4200_1234; ra = 0x4200_5678 }

-- A load fault in the flash with the clocks off.
dispatch_exception-Handled_example : Handled board 5 frame
dispatch_exception-Handled_example = dispatch_exception-Handled board 5 frame

-- The timer's interrupt and number 31 are enabled, and 31 comes.
abbrev noisy : Board
noisy = record board { regs = λ a. if a == mxint_enable then 2 ^ 31 + 2 ^ 20 else 0 }

board_interrupt-keeps_example :
    IsTimed (board_interrupt (λ c b. b) noisy 0 0 31).1
    × (bit systick_cpu_int ((board_interrupt (λ c b. b) noisy 0 0 31).1.regs mxint_enable) ≡ 1)
    × ((◌≡◌ {A = ℕ} 31 systick_cpu_int)
        ⊎ (is_esp_hal_cpu_int 31 ≡ true)
        ⊎ (bit 31 ((board_interrupt (λ c b. b) noisy 0 0 31).1.regs mxint_enable)
            ≡ (if 31 == 31 then 0 else bit 31 (noisy.regs mxint_enable))))
board_interrupt-keeps_example =
    board_interrupt-keeps (λ c b. b) noisy 0 0 31 31 (omega arith) (omega arith)
      (λ e. absurd (omega (arith, e))) refl
