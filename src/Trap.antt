-- ===== src/Trap.antt =====
-- The dispatch of interrupts, boards/esp32c6/src/trap.rs. `missed` is what the board's timer handler
-- returns, and `handler` is what the handlers of the other interrupts do.
pub mod Ticks
pub mod Fault
pub mod Entry
use Prim.Native.Nat.{bit_or}
use mos_rust.Prelude.{
  ℕ, zero, suc, ◌+◌, ◌%◌, Bool, true, false, ltb, leb, ◌==◌, ◌||◌, ◌&&◌, if◌then◌else◌, Run, ok,
  ◌>>=◌,
}
use mos_rust.TaskList.{HeaplessVec}
use mos_rust.Kernel.{Kernel, u32_mod}
use mos_rust.Kernel.Sched.{systick_tick}

-- The statics that the dispatch writes.
pub record Trap : Type 0 where
  pub in_isr : Bool
  pub yield_from_isr : Bool
  pub int_count : ℕ
  pub last_mcause : ℕ
  pub systick_count : ℕ

-- `yield_task_from_isr` of core/src/arch/riscv.rs: the switch is put off to the end of the interrupt.
pub yield_task_from_isr : Trap → Trap
yield_task_from_isr t = record t { yield_from_isr = true }

unfoldable pub is_esp_hal_cpu_int : ℕ → Bool
is_esp_hal_cpu_int code =
    code == 1 || code == 2 || code == 5 || code == 6 || (leb 9 code && leb code 19)

module _ ⦃vec : HeaplessVec⦄ where
  -- The `for` over the ticks, with `n` left.
  unfoldable pub catch_up : ℕ → ℕ → Kernel → Run (ℕ × Kernel)
  catch_up zero r k = ok (r, k)
  catch_up (suc n) r k = do (x, k1) ← systick_tick k; catch_up n (bit_or r x) k1

  module _ (systick_cpu_int : ℕ) (handler : ℕ → Kernel × Trap → Kernel × Trap) where
    -- `_mos_trap_dispatch` of the interrupt `code`; the result 1 asks for a switch.
    pub dispatch : Kernel → Trap → ℕ → ℕ → ℕ → Run (ℕ × Kernel × Trap)
    unfolding catch_up is_esp_hal_cpu_int
    dispatch k t mcause code missed = do
      let t1 = record t {
        in_isr = true;
        int_count = (t.int_count + 1) % u32_mod;
        last_mcause = mcause;
      }
      let ticks = record t1 {
        systick_count = (t1.systick_count + (1 + missed) % u32_mod) % u32_mod;
      }
      (ret, k1, t2) ←
          if code == systick_cpu_int
          then (catch_up (suc missed) 0 k >>= λ (r, j). ok (r, j, ticks))
          else if is_esp_hal_cpu_int code
          then (let (j, u) = handler code (k, t1) in ok (0, j, u))
          else ok (0, k, t1)
      ok (
        if t2.yield_from_isr then 1 else ret,
        k1,
        record t2 { yield_from_isr = false; in_isr = false },
      )
