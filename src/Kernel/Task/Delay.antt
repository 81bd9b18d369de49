-- ===== src/Kernel/Task/Delay.antt =====
-- `Task::delay` of core/src/kernel/task.rs, up to and with the switch away from the task.
use mos_rust.Prelude.{
  ℕ, suc, ◌+◌, ◌%◌, ◌<◌, ◌≡◌, ◌≢◌, refl, ap, ◌∙◌, subst, true, count, count-insert_before, arith,
  ok, leb, ltb, if◌then◌else◌, ◌>>=◌,
}
use mos_rust.TaskList.{HeaplessVec}
use mos_rust.Kernel.{
  blocked, Kernel, u32_mod, set_status, set_wake_point, ready_remove, sleeping_insert,
}
use mos_rust.Kernel.Invariant.{IsValid, is_runnable, parked, listed, current_tid-ok}
use mos_rust.Kernel.Invariant.Moves.{
  set_status-IsValid, set_wake_point-IsValid, ready_remove-IsValid, ready_remove-listed,
  sleeping_insert-IsValid, sleeping_insert_lem,
}
use mos_rust.Kernel.Sched.{yield_task}
use mos_rust.Kernel.Sched.Wake.{count-sleep_on}
use mos_rust.Kernel.Sched.Switch.{Elected, next_tcb-Switched}
use mos_rust.Kernel.Task.{delay}
use mos_rust.Kernel.Task.Block.{IsLive}
use mos_rust.Kernel.Task.Leave.{left-others, yield_started}

module _ ⦃vec : HeaplessVec⦄ where
  -- The task set to wake at `w` and taken off the ready list.
  abbrev pub drowsy : Kernel → ℕ → ℕ → Kernel
  drowsy k c w = set_status (set_wake_point (ready_remove k c) c w) c blocked

  abbrev pub asleep : Kernel → ℕ → ℕ → Kernel
  asleep k c w = sleeping_insert (drowsy k c w) c w

  module _ {k : Kernel} (c : ℕ) (live : IsLive k c) (run : is_runnable (k.tcbs c).status ≡ true)
      (w : ℕ) where
    awake : parked k c ≡ 0
    awake = ground (arith, live.valid.waits c)

    out : listed (drowsy k c w) c ≡ 0
    out = ready_remove-listed live.valid c awake

    drowsy-IsValid : IsValid (drowsy k c w)
    drowsy-IsValid =
        set_status-IsValid
          (set_wake_point-IsValid (ready_remove-IsValid live.valid c) c w (ground (arith, awake))) c
          blocked (λ p. cc) (λ p. ground arith) (λ h. absurd (omega (arith, out))) (λ h. refl)

    pub asleep-IsValid : IsValid (asleep k c w)
    asleep-IsValid =
        let at : ((drowsy k c w).tcbs c).wake_point ≡ w = ground arith in
        subst (λ x. IsValid (sleeping_insert (drowsy k c w) c x)) at
          (sleeping_insert-IsValid drowsy-IsValid c (live.valid.here c live.runs_now).1 out
            (ground arith))

    asleep-count : count c (asleep k c w).sleeping_list ≡ 1
    asleep-count =
        ap (λ j. count c j.sleeping_list)
          (sleeping_insert_lem drowsy-IsValid c (live.valid.here c live.runs_now).1 out w)
        ∙ ground (
          arith,
          out,
          count-insert_before c c (λ u. ltb w ((drowsy k c w).tcbs u).wake_point) k.sleeping_list,
        )

  pub delay-zero : (k : Kernel) → delay k 0 ≡ ok k
  unfolding delay
  delay-zero k = refl

  pub delay-eq :
      {k : Kernel} (c n : ℕ)
      → IsLive k c
      → delay k (suc n) ≡ yield_task (asleep k c ((k.os_ticks + suc n) % u32_mod))
  unfolding delay
  delay-eq {k} c n live =
      ap (λ r. r >>= λ cr. yield_task (asleep k cr ((k.os_ticks + suc n) % u32_mod)))
        (current_tid-ok live.valid c live.runs_now)

  -- In a running system whose current task is runnable and with some other task ready, `delay` of
  -- at least one tick does not panic, keeps the invariant, and a
  -- task of the highest ready priority runs next. If the tick counter plus the delay fits 32 bits,
  -- the caller is then in the sleeping list once and not in the ready list; if the sum wraps, the
  -- caller is not in the sleeping list, and is in the ready list at once.
  pub delay-Elected :
      {k : Kernel} (c n i : ℕ)
      → IsLive k c
      → is_runnable (k.tcbs c).status ≡ true
      → k.os_ticks < u32_mod
      → suc n < u32_mod
      → i ≢ c
      → 0 < count i k.ready_list
      → (k' : Kernel) × (st : ℕ) × (delay k (suc n) ≡ ok k')
        × Elected k' st
        × (count c k'.sleeping_list ≡ (if ltb (k.os_ticks + suc n) u32_mod then 1 else 0))
        × (count c k'.ready_list ≡ (if ltb (k.os_ticks + suc n) u32_mod then 0 else 1))
  delay-Elected {k} c n i live run now_fits fits ne h =
      let w = (k.os_ticks + suc n) % u32_mod in
      let v2 = asleep-IsValid c live run w in
      let others = left-others live.valid c run i ne h in
      let (k', st, s) = next_tcb-Switched v2 c live.runs_now i others in
      let j = asleep k c w in
      let one = asleep-count c live run w in
      let sleeps : count c k'.sleeping_list ≡ (if leb w k.os_ticks then 0 else 1) =
        ap (count c) s.sleepers
        ∙ count-sleep_on k.os_ticks j c j.sleeping_list
        ∙ ground (arith, one) in
      let wakes : leb w k.os_ticks ≡ true → 0 < count c k'.ready_list =
        λ e. s.woken c (ground (arith, one)) in
      (
        k',
        st,
        delay-eq c n live ∙ yield_started j live.started ∙ s.returned,
        s.elected,
        ground (arith, sleeps),
        ground (arith, sleeps, wakes, s.elected.valid.once c),
      )
