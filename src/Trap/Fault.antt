-- ===== src/Trap/Fault.antt =====
-- The exceptions, the branch of `_mos_trap_dispatch` in boards/esp32c6/src/trap.rs that is not for
-- interrupts: the call for a switch, the recovery from faults, and the endless loop.
use mos_rust.Prelude.{
  ℕ, ◌+◌, ◌%◌, ◌≡◌, ◌≢◌, Bool, true, false, Option, none, some, ltb, ◌==◌, ◌&&◌, ◌||◌, ◌⊎◌, inl,
  inr, Bool-cases, if◌then◌else◌, arith,
}
use mos_rust.Kernel.{u32_mod}
use mos_rust.Board.{Board, recover_peripheral_clocks}
use mos_rust.Board.Clocks.{
  IsClocked, recover_peripheral_clocks-settles, recover_peripheral_clocks-intact,
}

-- The two words of the saved frame that the branch uses.
pub record Frame : Type 0 where
  pub mepc : ℕ
  pub ra : ℕ

-- The result asks for a switch or not; `none` is the endless loop after the printed diagnosis.
pub dispatch_exception : Board → ℕ → Frame → Option (Bool × Frame × Board)
dispatch_exception b code frame =
    let (repaired, b1) = recover_peripheral_clocks b frame.mepc in
    let recoverable = code == 1 || code == 2 || code == 5 || code == 7 in
    if code == 11
    then some (true, record frame { mepc = (frame.mepc + 4) % u32_mod }, b)
    else if (code == 1 || code == 2) && ltb frame.mepc 0x4000_0000
    then some (false, record frame { mepc = frame.ra }, b)
    else if recoverable && repaired
    then some (false, frame, b1)
    else none

-- The exceptions that a repair may cure: fetch, illegal instruction, load, store.
abbrev pub is_recoverable : ℕ → Bool
is_recoverable code = code == 1 || code == 2 || code == 5 || code == 7

abbrev pub is_wild_jump : ℕ → ℕ → Bool
is_wild_jump code mepc = (code == 1 || code == 2) && ltb mepc 0x4000_0000

-- What the branch does with exception `code`: it switches, it returns from the jump, it tries the
-- instruction again with all clocks running, or it stops.
abbrev pub Handled : Board → ℕ → Frame → Type 0
Handled b code frame =
    ((code ≡ 11)
      × (dispatch_exception b code frame
          ≡ some (true, record frame { mepc = (frame.mepc + 4) % u32_mod }, b)))
    ⊎ ((is_wild_jump code frame.mepc ≡ true)
        × (dispatch_exception b code frame ≡ some (false, record frame { mepc = frame.ra }, b)))
    ⊎ ((is_wild_jump code frame.mepc ≡ false)
        × (is_recoverable code ≡ true)
        × ((b1 : Board) × (dispatch_exception b code frame ≡ some (false, frame, b1))
            × IsClocked b1
            × (dispatch_exception b1 code frame ≡ none)))
    ⊎ ((code ≢ 11)
        × (is_wild_jump code frame.mepc ≡ false)
        × ((is_recoverable code ≡ false) ⊎ IsClocked b)
        × (dispatch_exception b code frame ≡ none))

-- An ecall asks for a switch and goes on after the instruction. A jump to an address that holds no
-- code goes back to the return address. Any other fetch, instruction, load or store fault is either
-- tried again, with the clocks of the timer, the flash and the cache running, and then ends in the
-- loop if it comes right again at the same address; or it ends in the loop at once, and then all these
-- clocks ran when it came. Every other exception ends in the loop.
pub dispatch_exception-Handled : (b : Board) (code : ℕ) (frame : Frame) → Handled b code frame
unfolding dispatch_exception
dispatch_exception-Handled b code frame =
    let (clocked, settled) = recover_peripheral_clocks-settles b frame.mepc in
    let b1 = (recover_peripheral_clocks b frame.mepc).1 in
    elim (Bool-cases (code == 11)) [
      | inl call ↦ inl (ground arith, ground arith)
      | inr other ↦ elim (Bool-cases (is_wild_jump code frame.mepc)) [
        | inl wild ↦ inr (inl (wild, ground arith))
        | inr sane ↦ elim (Bool-cases (is_recoverable code)) [
          | inr lost ↦ inr (inr (inr (ground arith, sane, inl lost, ground arith)))
          | inl may ↦ elim (Bool-cases (recover_peripheral_clocks b frame.mepc).0) [
            | inl fixed ↦
                inr (inr (inl (sane, may, (b1, ground arith, clocked, ground (arith, settled)))))
            | inr intact ↦ inr (
                inr (
                  inr (
                    ground arith,
                    sane,
                    inr (recover_peripheral_clocks-intact b frame.mepc intact),
                    ground arith,
                  )))
          ]
        ]
      ]
    ]
