-- ===== src/Board/Regs.antt =====
-- The addresses of the timer's registers, `mod regs` of boards/esp32c6/src/bsp.rs.
use mos_rust.Prelude.{ℕ, ◌+◌}

abbrev pub base : ℕ
base = 0x6000_a000

abbrev pub conf : ℕ
conf = base + 0x00

abbrev pub unit0_op : ℕ
unit0_op = base + 0x04

abbrev pub target0_hi : ℕ
target0_hi = base + 0x1C

abbrev pub target0_lo : ℕ
target0_lo = base + 0x20

abbrev pub comp0_load : ℕ
comp0_load = base + 0x50

abbrev pub real_target0_lo : ℕ
real_target0_lo = base + 0x74

abbrev pub real_target0_hi : ℕ
real_target0_hi = base + 0x78

abbrev pub int_ena : ℕ
int_ena = base + 0x64

abbrev pub int_clr : ℕ
int_clr = base + 0x6C

abbrev pub pcr_systimer_conf : ℕ
pcr_systimer_conf = 0x6009_6054

abbrev pub pcr_systimer_func_clk : ℕ
pcr_systimer_func_clk = 0x6009_6058
