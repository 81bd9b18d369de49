-- ===== src/System/Running.antt =====
-- What holds of the kernel from `launch` on, and the switch to another task.
use mos_rust.Config.{page_size_words}
use mos_rust.Prelude.{
  ℕ, ◌≤◌, ◌<◌, ◌≡◌, ap, ◌∙◌, Bool, true, count, length, All-count, arith, Run, ok,
}
use mos_rust.TaskList.{HeaplessVec}
use mos_rust.Kernel.{Kernel, u32_mod}
use mos_rust.Kernel.Invariant.{is_runnable}
use mos_rust.Kernel.Sched.{yield_task}
use mos_rust.Kernel.Sched.Switch.{next_tcb-Switched, count-front}
use mos_rust.Kernel.Task.Block.{IsLive}
use mos_rust.Kernel.Task.Leave.{yield_started}

-- Every task's own stack has the length of a page, and the tick counter fits its 32 bits.
pub record IsSized (k : Kernel) : Type 0 where
  pub stacked : (t : ℕ) → length (k.stacks t) ≡ page_size_words
  pub clocked : k.os_ticks < u32_mod

module _ ⦃vec : HeaplessVec⦄ where
  -- Task `c` runs: it is in the ready list with a status that suits it, the idle task is ready
  -- too, and, where `strict` is set, no ready task has a higher priority.
  pub record IsRunning (strict : Bool) (idle : ℕ) (k : Kernel) (c : ℕ) : Type 0 where
    pub live : IsLive k c
    pub sized : IsSized k
    pub fit : is_runnable (k.tcbs c).status ≡ true
    pub present : 0 < count c k.ready_list
    pub idle_ready : 0 < count idle k.ready_list
    pub highest :
        strict ≡ true
        → (t : ℕ) → 0 < count t k.ready_list
        → (k.tcbs c).priority ≤ (k.tcbs t).priority

  -- A call that returns with some task running.
  pub record Runs (strict : Bool) (idle : ℕ) (r : Run Kernel) : Type 0 where
    pub after : Kernel
    pub task : ℕ
    pub returned : r ≡ ok after
    pub running : IsRunning strict idle after task

  -- With the idle task ready, the switch does not panic and leaves some task running.
  pub yield_task-Runs :
      {strict : Bool} {idle : ℕ} {k : Kernel} (c : ℕ)
      → IsLive k c
      → IsSized k
      → 0 < count idle k.ready_list
      → Runs strict idle (yield_task k)
  yield_task-Runs {strict} {idle} {k} c live sized h =
      let (k', st, s) = next_tcb-Switched live.valid c live.runs_now idle h in
      record {
        after = k';
        task = st;
        returned = yield_started k live.started ∙ s.returned;
        running = record {
          live = record {
            valid = s.elected.valid;
            runs_now = s.elected.runs_now;
            started = s.started ∙ live.started;
          };
          sized = record {
            stacked = λ t. ap (λ f. length (f t)) s.stacks ∙ sized.stacked t;
            clocked = ground (arith, s.ticks, sized.clocked);
          };
          fit = s.elected.fit;
          present = count-front st k'.ready_list s.elected.first;
          idle_ready = s.kept idle h;
          highest = λ b t ht. All-count _ t k'.ready_list s.elected.highest ht;
        };
      }
