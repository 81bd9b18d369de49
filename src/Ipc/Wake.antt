-- ===== src/Ipc/Wake.antt =====
-- `try_wake_up` of core/src/kernel/ipc.rs: the task that has waited longest, of those of the highest
-- priority, stops sleeping and becomes ready.
use mos_rust.Config.{task_max}
use mos_rust.Prelude.{
  ℕ, ◌<◌, ◌≡◌, refl, sym, ap, ◌∙◌, List, [], ◌∷◌, none, some, ltb, if◌then◌else◌, count, arith, ok,
  ◌>>=◌,
}
use mos_rust.TaskList.{HeaplessVec, pop_front}
use mos_rust.Kernel.{blocked, Kernel, set_wake_point, sleeping_remove}
use mos_rust.Kernel.Invariant.{listed}
use mos_rust.Kernel.Invariant.Moves.{
  set_wake_point-IsValid, sleeping_remove-IsValid, sleeping_remove-listed,
}
use mos_rust.Kernel.Sched.{yield_task}
use mos_rust.Kernel.Task.{preempt_woken}
use mos_rust.Kernel.Task.Block.{IsLive, preempt_woken-eq}
use mos_rust.Kernel.Task.Rouse.{roused, Roused, rouse-Roused}
use mos_rust.Ipc.{awaken, rouse, try_wake_up}

module _ ⦃vec : HeaplessVec⦄ where
  -- The task taken off the sleeping list.
  abbrev pub stirred : Kernel → ℕ → Kernel
  stirred k w = set_wake_point (sleeping_remove k w) w 0xFFFF_FFFF

  module _ {k : Kernel} (c w : ℕ) (live : IsLive k c) (h : 0 < count w k.sleeping_list) where
    pub stirred-listed : listed (stirred k w) w ≡ 0
    stirred-listed = sleeping_remove-listed live.valid w h

    pub stirred-IsLive : IsLive (stirred k w) c
    stirred-IsLive = record {
      valid =
          set_wake_point-IsValid (sleeping_remove-IsValid live.valid w) w 0xFFFF_FFFF
            (ground (arith, stirred-listed));
      runs_now = live.runs_now;
      started = live.started;
    }

    rouse-eq :
        rouse k w
        ≡ preempt_woken (roused (stirred k w) w) ((roused (stirred k w) w).tcbs w).priority
    unfolding rouse
    rouse-eq =
        let j = awaken k w in
        let p = (j.tcbs w).priority in
        let own : (j.tcbs c).tid ≡ c = ground (arith, live.valid.here c live.runs_now) in
        ap
          (λ o. elim o [
            | none ↦ ok j
            | some d ↦ if ltb p (j.tcbs (j.tcbs d).tid).priority then yield_task j else ok j
          ])
          live.runs_now
        ∙ ap (λ t. if ltb p (j.tcbs t).priority then yield_task j else ok j) own
        ∙ sym (preempt_woken-eq j c p live.runs_now)

    pub wake_up-eq :
        (rest : List ℕ)
        → try_wake_up k (w ∷ rest) ≡ (
            preempt_woken (roused (stirred k w) w) ((roused (stirred k w) w).tcbs w).priority
            >>= λ k2. ok (k2, rest))
    unfolding try_wake_up pop_front
    wake_up-eq rest = rw (vec.remove_at [] rest w, rouse-eq) refl

    -- In a running system, if the first task of a wait list sleeps with a time-out, `try_wake_up`
    -- does not panic: it takes the task off that list and off the sleeping list and makes it ready,
    -- and lets it run, or a task of at least its priority, if its priority is above the current
    -- task's. The invariant is kept.
    pub try_wake_up-Roused :
        (rest : List ℕ)
        → (k' : Kernel) × (try_wake_up k (w ∷ rest) ≡ ok (k', rest))
          × (count w k'.sleeping_list ≡ 0)
          × Roused (stirred k w) c w (ok k')
    try_wake_up-Roused rest =
        let lt : w < task_max = ground (arith, live.valid.small w) in
        let was : (k.tcbs w).status ≡ blocked = ground (arith, live.valid.waits w) in
        let r = rouse-Roused c w stirred-IsLive lt stirred-listed (ground (arith, was)) in
        (
          r.after,
          wake_up-eq rest ∙ ap (λ y. y >>= λ k2. ok (k2, rest)) r.returned,
          ground (arith, r.valid.once w, r.is_ready),
          record {
            after = r.after;
            returned = refl;
            valid = r.valid;
            is_ready = r.is_ready;
            others = r.others;
            priority = r.priority;
            next = r.next;
          },
        )
