-- ===== src/Trap/Ticks.antt =====
-- The timer interrupt counts every tick, the missed ones too.
use Prim.Native.Nat.{bit_or}
use mos_rust.Prelude.{
  ℕ, zero, suc, ◌+◌, ◌-◌, ◌%◌, ◌<◌, ◌≡◌, refl, ap, ◌∙◌, not, ◌||◌, ltb, ◌==◌, if◌then◌else◌,
  Bool-cases, inl, inr, arith, ok, ◌>>=◌,
}
use mos_rust.TaskList.{HeaplessVec, is_empty}
use mos_rust.Kernel.{Kernel, u32_mod, set_time_slice}
use mos_rust.Kernel.Invariant.{IsValid}
use mos_rust.Kernel.Invariant.Moves.{set_time_slice-IsValid}
use mos_rust.Kernel.Sched.{systick_tick}
use mos_rust.Kernel.Task.Block.{IsLive}
use mos_rust.Trap.{catch_up}

module _ ⦃vec : HeaplessVec⦄ where
  -- The tick counter goes on by one, and the task by one tick of its time slice.
  abbrev pub ticked : Kernel → Kernel
  ticked k = record k { os_ticks = (k.os_ticks + 1) % u32_mod }

  abbrev pub spent : Kernel → ℕ → Kernel
  spent k c =
      if ltb 0 (k.tcbs c).time_slice
      then set_time_slice (ticked k) c ((k.tcbs c).time_slice - 1)
      else ticked k

  ticked-IsValid : {k : Kernel} → IsValid k → IsValid (ticked k)
  ticked-IsValid v = record {
    once = v.once;
    small = v.small;
    runs = v.runs;
    waits = v.waits;
    used = v.used;
    owned = v.owned;
    here = v.here;
    by_priority = v.by_priority;
    by_wake = v.by_wake;
  }

  pub spent-IsLive : {k : Kernel} (c : ℕ) → IsLive k c → IsLive (spent k c) c
  spent-IsLive {k} c live = elim (Bool-cases (ltb 0 (k.tcbs c).time_slice)) [
    | inl some_left ↦ rw some_left (record {
      valid = set_time_slice-IsValid (ticked-IsValid live.valid) c ((k.tcbs c).time_slice - 1);
      runs_now = live.runs_now;
      started = live.started;
    })
    | inr over ↦ rw over (record {
      valid = ticked-IsValid live.valid;
      runs_now = live.runs_now;
      started = live.started;
    })
  ]

  pub systick_tick-spent :
      {k : Kernel} (c : ℕ) → IsLive k c → (r : ℕ) × (systick_tick k ≡ ok (r, spent k c))
  unfolding systick_tick
  systick_tick-spent {k} c live = (
    (if ((spent k c).tcbs c).time_slice == 0 || not (is_empty (spent k c).sleeping_list)
        then 1
        else 0),
    ground (arith, live.valid.here c live.runs_now),
  )

  -- In a running system the handling of `n` ticks does not panic, moves the tick counter on by `n`,
  -- wrapping at 32 bits, and keeps the invariant and the running task.
  pub catch_up-os_ticks :
      (n r c : ℕ) {k : Kernel}
      → IsLive k c
      → k.os_ticks < u32_mod
      → (r' : ℕ) × (k' : Kernel) × (catch_up n r k ≡ ok (r', k'))
        × IsLive k' c
        × (k'.os_ticks ≡ (k.os_ticks + n) % u32_mod)
  unfolding catch_up
  catch_up-os_ticks zero r c {k} live h = (r, k, refl, live, omega arith)
  catch_up-os_ticks (suc n) r c {k} live h =
      let (x, e) = systick_tick-spent c live in
      let at : (spent k c).os_ticks ≡ (k.os_ticks + 1) % u32_mod = ground arith in
      let (r', k', done, live', count_) =
        catch_up-os_ticks n (bit_or r x) c (spent-IsLive c live) (omega (arith, at)) in
      (
        r',
        k',
        ap (λ y. y >>= λ p. catch_up n (bit_or r p.0) p.1) e ∙ done,
        live',
        omega (arith, count_, at),
      )
