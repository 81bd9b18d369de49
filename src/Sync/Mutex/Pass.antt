-- ===== src/Sync/Mutex/Pass.antt =====
-- A mutex that is given back while tasks wait for it.
use mos_rust.Config.{task_max, pri_inv}
use mos_rust.Prelude.{ℕ, ◌<◌, ◌≡◌, refl, ap, ◌∙◌, List, [], ◌∷◌, ok, ◌>>=◌}
use mos_rust.TaskList.{HeaplessVec}
use mos_rust.Kernel.{blocked, Kernel}
use mos_rust.Kernel.Invariant.{listed, current_tid-ok}
use mos_rust.Kernel.Task.{preempt_woken}
use mos_rust.Kernel.Task.Block.{IsLive, preempt_woken-eq}
use mos_rust.Kernel.Task.Rouse.{roused, Roused, rouse-Roused}
use mos_rust.Sync.Mutex.{restore, unlock}
use mos_rust.Sync.Mutex.Inherit.{taken}

module _ ⦃vec : HeaplessVec⦄ where
  pub restore-own : (k : Kernel) (c : ℕ) → (k.tcbs c).sub_priority ≡ pri_inv → restore k c ≡ k
  unfolding restore
  restore-own k c own = rw (own, restore) refl

  unlock-eq :
      (k : Kernel) (c w : ℕ) (rest : List ℕ)
      → IsLive k c
      → (k.tcbs c).sub_priority ≡ pri_inv
      → unlock k (taken c 1 (w ∷ rest)) ≡ (
          preempt_woken (roused k w) ((roused k w).tcbs w).priority >>= λ k2.
          ok (k2, taken w 1 rest))
  unfolding unlock
  unlock-eq k c w rest live own =
      rw
        (
          current_tid-ok live.valid c live.runs_now,
          restore-own k c own,
          vec.remove_at [] rest w,
          preempt_woken-eq (roused k w) c ((roused k w).tcbs w).priority live.runs_now,
        )
        refl

  -- In a running system the current task, which has inherited no priority, gives a mutex back that
  -- it holds once and that others wait for; the first of them is blocked and in no list of the
  -- kernel. It does not panic: that task holds the mutex then, and has left its queue. It is ready.
  -- Either its priority is not above the caller's, and the caller goes on, or it is above, and a
  -- task of at least that priority runs next. The invariant and all priorities are kept, and the
  -- other blocked tasks in no list of the kernel stay as they are.
  pub unlock-Roused :
      {k : Kernel} (c w : ℕ) (rest : List ℕ)
      → IsLive k c
      → (k.tcbs c).sub_priority ≡ pri_inv
      → w < task_max
      → listed k w ≡ 0
      → (k.tcbs w).status ≡ blocked
      → (k' : Kernel) × (unlock k (taken c 1 (w ∷ rest)) ≡ ok (k', taken w 1 rest))
        × Roused k c w (ok k')
  unlock-Roused {k} c w rest live own lt out waited =
      let r = rouse-Roused c w live lt out waited in
      (
        r.after,
        unlock-eq k c w rest live own ∙ ap (λ y. y >>= λ k2. ok (k2, taken w 1 rest)) r.returned,
        record {
          after = r.after;
          returned = refl;
          valid = r.valid;
          is_ready = r.is_ready;
          others = r.others;
          priority = r.priority;
          next = r.next;
        },
      )
