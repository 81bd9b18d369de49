-- ===== src/Kernel/Task/Leave.antt =====
-- A task that leaves the ready list: the step that `block`, `delay`, the semaphores and the other
-- waits share.
use mos_rust.Config.{task_max}
use mos_rust.Prelude.{ℕ, ◌<◌, ◌≡◌, ◌≢◌, refl, true, count, count-erase, arith}
use mos_rust.TaskList.{HeaplessVec}
use mos_rust.TaskList.Laws.{remove_lem}
use mos_rust.Kernel.{blocked, Kernel, set_status, ready_remove}
use mos_rust.Kernel.Invariant.{IsValid, is_runnable, parked, listed}
use mos_rust.Kernel.Invariant.Moves.{set_status-IsValid, ready_remove-IsValid, ready_remove-listed}
use mos_rust.Kernel.Sched.{next_tcb, yield_task}

module _ ⦃vec : HeaplessVec⦄ where
  -- The source sets the status first; the order of the two writes makes no difference.
  abbrev pub left : Kernel → ℕ → Kernel
  left k t = set_status (ready_remove k t) t blocked

  module _ {k : Kernel} (v : IsValid k) (t : ℕ) (run : is_runnable (k.tcbs t).status ≡ true) where
    runnable-parked : parked k t ≡ 0
    runnable-parked = ground (arith, v.waits t)

    pub left-listed : listed (left k t) t ≡ 0
    left-listed = ready_remove-listed v t runnable-parked

    pub left-IsValid : IsValid (left k t)
    left-IsValid =
        set_status-IsValid (ready_remove-IsValid v t) t blocked (λ p. cc) (λ p. ground arith)
          (λ h. absurd (omega (arith, left-listed))) (λ h. refl)

    pub left-range : 0 < count t k.ready_list → t < task_max
    left-range h = ground (arith, v.small t)

    -- The other ready tasks stay ready.
    pub left-others : (u : ℕ) → u ≢ t → 0 < count u k.ready_list → 0 < count u (left k t).ready_list
    left-others u ne h =
        rw (remove_lem k.ready_list t) (ground (arith, count-erase u t k.ready_list))

  pub yield_started : (k : Kernel) → k.sched_ready ≡ true → yield_task k ≡ next_tcb k
  unfolding yield_task
  yield_started k h = rw h refl
