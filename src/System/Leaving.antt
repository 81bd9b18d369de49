-- ===== src/System/Leaving.antt =====
-- The calls by which a task leaves the ready list: `block`, `delay`, `terminate` and
-- `exit_current` of core/src/kernel/task.rs, and `Sema::down` of core/src/kernel/sync.rs.
use mos_rust.Config.{task_max}
use mos_rust.Prelude.{
  ℕ, zero, suc, ◌+◌, ◌%◌, ◌<◌, ◌≡◌, ◌≢◌, inl, inr, refl, sym, subst, Bool, ap, ◌∙◌, length, count,
  Bool-cases, arith, ok, ◌>>=◌,
}
use mos_rust.TaskList.{HeaplessVec}
use mos_rust.Kernel.{terminated, status_eq, Kernel, u32_mod, free_tid}
use mos_rust.Kernel.Invariant.{is_runnable, listed}
use mos_rust.Kernel.Invariant.Ids.{free_tid-IsValid}
use mos_rust.Kernel.Invariant.Moves.{
  blocked_push-IsValid, ready_remove-IsValid, ready_remove-listed,
}
use mos_rust.Kernel.Task.{block, terminate, delay, exit_current}
use mos_rust.Kernel.Sched.{yield_task}
use mos_rust.Kernel.Task.Block.{IsLive, block-runnable, block_other}
use mos_rust.Kernel.Task.Delay.{asleep-IsValid, delay-zero, delay-eq}
use mos_rust.Kernel.Task.End.{
  free_tid-keeps, unlisted-IsValid, unlisted-listed, unlisted-others, terminate-terminated,
  terminate-eq, exit_current-eq,
}
use mos_rust.Kernel.Task.Leave.{left-listed, left-IsValid, left-others}
use mos_rust.Sync.Sema.{Sema, is_negative, decrement, down}
use mos_rust.Sync.Sema.Waits.{kernel_of, joined, down-takes, down-waits}
use mos_rust.System.Running.{IsSized, IsRunning, Runs, yield_task-Runs}

module _ ⦃vec : HeaplessVec⦄ where
  -- A call that does nothing leaves the task running.
  pub still-Runs :
      {strict : Bool} {idle c : ℕ} {k : Kernel}
      → IsRunning strict idle k c
      → Runs strict idle (ok k)
  still-Runs {strict} {idle} {c} {k} run = record {
    after = k;
    task = c;
    returned = refl;
    running = run;
  }

  freed-Runs :
      {strict : Bool} {idle c : ℕ} {k : Kernel} (t : ℕ)
      → IsLive k c
      → IsSized k
      → listed k t ≡ 0
      → 0 < count idle k.ready_list
      → Runs strict idle (yield_task (free_tid k t))
  freed-Runs {strict} {idle} {c} {k} t live sized out h =
      let (at, started, list, stacks, ticks) = free_tid-keeps k t in
      yield_task-Runs c
        (record {
          valid = free_tid-IsValid live.valid t out;
          runs_now = at ∙ live.runs_now;
          started = started ∙ live.started;
        })
        (record {
          stacked = λ u. ap (λ f. length (f u)) stacks ∙ sized.stacked u;
          clocked = ground (arith, ticks, sized.clocked);
        })
        (rw list h)

  module _ {strict : Bool} {idle c : ℕ} {k : Kernel} (run : IsRunning strict idle k c) where
    open run use {live, sized, fit, present, idle_ready}

    pub block-Runs : (tid : ℕ) → tid < task_max → tid ≢ idle → Runs strict idle (block k tid)
    block-Runs tid lt ne = elim (Bool-cases (is_runnable (k.tcbs tid).status)) [
      | inl fits ↦
          let v =
            blocked_push-IsValid (left-IsValid live.valid tid fits) tid lt
              (left-listed live.valid tid fits) (ground arith) in
          subst (Runs strict idle) (sym (block-runnable k tid lt fits)) (
            yield_task-Runs c
              (record { valid = v; runs_now = live.runs_now; started = live.started })
              (record { stacked = sized.stacked; clocked = sized.clocked })
              (left-others live.valid tid fits idle (λ e. ne (sym e)) idle_ready))
      | inr other ↦
          subst (Runs strict idle) (sym (block_other k tid lt (ground (arith, other))))
            (still-Runs run)
    ]

    pub terminate-Runs :
        (tid : ℕ) → tid < task_max → tid ≢ idle → Runs strict idle (terminate k tid)
    terminate-Runs tid lt ne = elim (Bool-cases (status_eq (k.tcbs tid).status terminated)) [
      | inl over ↦
          subst (Runs strict idle) (sym (terminate-terminated k tid lt (ground arith)))
            (still-Runs run)
      | inr lives ↦ subst (Runs strict idle) (sym (terminate-eq k tid lt (ground arith))) (
          freed-Runs tid
            (record {
              valid = unlisted-IsValid tid live.valid;
              runs_now = live.runs_now;
              started = live.started;
            })
            (record { stacked = sized.stacked; clocked = sized.clocked })
            (unlisted-listed tid live.valid)
            (unlisted-others k tid idle (λ e. ne (sym e)) idle_ready))
    ]

    pub exit_current-Runs : c ≢ idle → Runs strict idle (exit_current k)
    exit_current-Runs ne = subst (Runs strict idle) (sym (exit_current-eq c live)) (
        freed-Runs c
          (record {
            valid = ready_remove-IsValid live.valid c;
            runs_now = live.runs_now;
            started = live.started;
          })
          (record { stacked = sized.stacked; clocked = sized.clocked })
          (ready_remove-listed live.valid c (ground (arith, live.valid.waits c)))
          (unlisted-others k c idle (λ e. ne (sym e)) idle_ready))

    pub delay-Runs : (ticks : ℕ) → c ≢ idle → Runs strict idle (delay k ticks)
    delay-Runs zero ne = subst (Runs strict idle) (sym (delay-zero k)) (still-Runs run)
    delay-Runs (suc n) ne =
        let w = (k.os_ticks + suc n) % u32_mod in
        subst (Runs strict idle) (sym (delay-eq c n live)) (
          yield_task-Runs c
            (record {
              valid = asleep-IsValid c live fit w;
              runs_now = live.runs_now;
              started = live.started;
            })
            (record { stacked = sized.stacked; clocked = sized.clocked })
            (left-others live.valid c fit idle (λ e. ne (sym e)) idle_ready))

    pub down-Runs : (s : Sema) → c ≢ idle → Runs strict idle (kernel_of (down k s))
    down-Runs s ne = elim (Bool-cases (is_negative (decrement s.count))) [
      | inr enough ↦
          subst (λ r. Runs strict idle (kernel_of r)) (sym (down-takes k s enough)) (still-Runs run)
      | inl short ↦
          let r =
            yield_task-Runs c
              (record {
                valid = left-IsValid live.valid c fit;
                runs_now = live.runs_now;
                started = live.started;
              })
              (record { stacked = sized.stacked; clocked = sized.clocked })
              (left-others live.valid c fit idle (λ e. ne (sym e)) idle_ready) in
          record {
            after = r.after;
            task = r.task;
            returned =
                ap kernel_of (down-waits s c live short)
                ∙ ap (λ y. kernel_of (y >>= λ k2. ok (k2, joined k s c))) r.returned;
            running = r.running;
          }
    ]
