-- ===== src/Tests/Display.antt =====
-- The deadline of a timer at a concrete input.
use mos_rust.Prelude.{◌+◌, ◌%◌, ◌≡◌, leb, arith}
use mos_rust.Kernel.{u32_mod}
use mos_rust.Async.{has_come, delay_for}
use mos_rust.Async.Timing.{timer_ready}

-- Made 6 ticks before the wrap, for 10 ticks.
timer_ready_example : has_come ((4294967290 + 9) % u32_mod) (delay_for 4294967290 10) ≡ leb 10 9
timer_ready_example = timer_ready 4294967290 10 9 (omega arith) (omega arith) (omega arith)
