-- ===== src/Kernel/Task/End.antt =====
-- `Task::terminate` and `Task::exit_current` of core/src/kernel/task.rs: the id is free afterwards.
use mos_rust.Config.{task_max}
use mos_rust.Prelude.{
  ℕ, ◌<◌, ◌≡◌, ◌≢◌, subst, sym, ap, ◌∙◌, true, false, count, count-erase, arith, ok, Run, ◌>>=◌,
}
use mos_rust.Prelude.Bits.{test_bit, test_bit-clear_bit}
use mos_rust.TaskList.{HeaplessVec}
use mos_rust.TaskList.Laws.{remove_lem}
use mos_rust.Kernel.{terminated, Kernel, ready_remove, blocked_remove, sleeping_remove, free_tid}
use mos_rust.Kernel.Invariant.{IsValid, is_runnable, listed, current_tid-ok}
use mos_rust.Kernel.Invariant.Ids.{free-listed, free_tid-IsValid}
use mos_rust.Kernel.Invariant.Moves.{
  ready_remove-IsValid, ready_remove-listed, blocked_remove-IsValid, sleeping_remove-IsValid,
}
use mos_rust.Kernel.Sched.{yield_task}
use mos_rust.Kernel.Sched.Switch.{Elected, next_tcb-Switched, count-front}
use mos_rust.Kernel.Task.{terminate, exit_current}
use mos_rust.Kernel.Task.Block.{IsLive}
use mos_rust.Kernel.Task.Leave.{yield_started}

-- `free_tid` changes the bit map and one status.
pub free_tid-keeps :
    (k : Kernel) (t : ℕ)
    → ((free_tid k t).current ≡ k.current)
      × ((free_tid k t).sched_ready ≡ k.sched_ready)
      × ((free_tid k t).ready_list ≡ k.ready_list)
      × ((free_tid k t).stacks ≡ k.stacks)
      × ((free_tid k t).os_ticks ≡ k.os_ticks)
unfolding free_tid
free_tid-keeps k t = (ground arith, ground arith, ground arith, ground arith, ground arith)

free_tid-test_bit :
    (k : Kernel) (t : ℕ) → t < task_max → test_bit (free_tid k t).tid_bitmap t ≡ false
unfolding free_tid
free_tid-test_bit k t lt = ground (arith, test_bit-clear_bit k.tid_bitmap t t)

module _ ⦃vec : HeaplessVec⦄ where
  -- What becomes of task `t` when it ends by the call that returned `r`.
  pub record Ended (t : ℕ) (r : Run Kernel) : Type 0 where
    pub after : Kernel
    pub next : ℕ
    pub returned : r ≡ ok after
    pub elected : Elected after next
    pub free : test_bit after.tid_bitmap t ≡ false
    pub gone : listed after t ≡ 0
    pub other : next ≢ t

  freed-Ended :
      {k : Kernel} (c t i : ℕ)
      → IsLive k c
      → t < task_max
      → listed k t ≡ 0
      → 0 < count i k.ready_list
      → Ended t (yield_task (free_tid k t))
  freed-Ended {k} c t i live lt out h =
      let (at, started, list, _, _) = free_tid-keeps k t in
      let v2 = free_tid-IsValid live.valid t out in
      let (k', st, s) = next_tcb-Switched v2 c (at ∙ live.runs_now) i (rw list h) in
      let free = ap (λ b. test_bit b t) s.bitmap ∙ free_tid-test_bit k t lt in
      let gone = free-listed s.elected.valid t lt free in
      record {
        after = k';
        next = st;
        returned = yield_started (free_tid k t) (started ∙ live.started) ∙ s.returned;
        elected = s.elected;
        free = free;
        gone = gone;
        other = λ e. absurd (
            ground (
              arith,
              count-front st k'.ready_list s.elected.first,
              gone,
              ap (λ u. count u k'.ready_list) e,
            ));
      }

  -- The task taken off every list.
  abbrev pub unlisted : Kernel → ℕ → Kernel
  unlisted k t = blocked_remove (sleeping_remove (ready_remove k t) t) t

  pub unlisted-IsValid : {k : Kernel} (t : ℕ) → IsValid k → IsValid (unlisted k t)
  unlisted-IsValid t v =
      blocked_remove-IsValid (sleeping_remove-IsValid (ready_remove-IsValid v t) t) t

  pub unlisted-listed : {k : Kernel} (t : ℕ) → IsValid k → listed (unlisted k t) t ≡ 0
  unlisted-listed {k} t v =
      rw (remove_lem k.ready_list t, remove_lem k.sleeping_list t, remove_lem k.blocked_list t)
        (ground (
          arith,
          v.once t,
          count-erase t t k.ready_list,
          count-erase t t k.sleeping_list,
          count-erase t t k.blocked_list,
        ))

  pub unlisted-others :
      (k : Kernel) (t i : ℕ)
      → i ≢ t
      → 0 < count i k.ready_list
      → 0 < count i (unlisted k t).ready_list
  unlisted-others k t i ne h =
      rw (remove_lem k.ready_list t) (ground (arith, count-erase i t k.ready_list))

  pub terminate-eq :
      (k : Kernel) (tid : ℕ)
      → tid < task_max
      → (k.tcbs tid).status ≢ terminated
      → terminate k tid ≡ yield_task (free_tid (unlisted k tid) tid)
  unfolding terminate
  terminate-eq k tid lt was = ground arith

  pub terminate-terminated :
      (k : Kernel) (tid : ℕ)
      → tid < task_max
      → (k.tcbs tid).status ≡ terminated
      → terminate k tid ≡ ok k
  unfolding terminate
  terminate-terminated k tid lt was = ground arith

  pub exit_current-eq :
      {k : Kernel} (c : ℕ)
      → IsLive k c
      → exit_current k ≡ yield_task (free_tid (ready_remove k c) c)
  unfolding exit_current
  exit_current-eq {k} c live =
      ap (λ r. r >>= λ d. yield_task (free_tid (ready_remove k d) d))
        (current_tid-ok live.valid c live.runs_now)

  -- In a running system with some other task ready, `terminate` of a task that has not ended does
  -- not panic. Its id is free again, it is in no list, and a task of the highest ready priority
  -- runs next; the invariant is kept.
  pub terminate-Ended :
      {k : Kernel} (c tid i : ℕ)
      → IsLive k c
      → tid < task_max
      → (k.tcbs tid).status ≢ terminated
      → i ≢ tid
      → 0 < count i k.ready_list
      → Ended tid (terminate k tid)
  terminate-Ended {k} c tid i live lt was ne h =
      let next =
        freed-Ended c tid i
          (record {
            valid = unlisted-IsValid tid live.valid;
            runs_now = live.runs_now;
            started = live.started;
          })
          lt (unlisted-listed tid live.valid) (unlisted-others k tid i ne h) in
      subst (Ended tid) (sym (terminate-eq k tid lt was)) next

  -- In a running system whose current task is runnable, and with some other task ready,
  -- `exit_current` does not panic: the current task's id is free again, it is in no list, and a
  -- task of the highest ready priority runs next; the invariant is kept.
  pub exit_current-Ended :
      {k : Kernel} (c i : ℕ)
      → IsLive k c
      → is_runnable (k.tcbs c).status ≡ true
      → i ≢ c
      → 0 < count i k.ready_list
      → Ended c (exit_current k)
  exit_current-Ended {k} c i live run ne h =
      let next =
        freed-Ended c c i
          (record {
            valid = ready_remove-IsValid live.valid c;
            runs_now = live.runs_now;
            started = live.started;
          })
          (live.valid.here c live.runs_now).1
          (ready_remove-listed live.valid c (ground (arith, live.valid.waits c)))
          (unlisted-others k c i ne h) in
      subst (Ended c) (sym (exit_current-eq c live)) next
