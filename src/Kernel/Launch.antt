-- ===== src/Kernel/Launch.antt =====
-- `Scheduler::launch`, core/src/kernel/sched.rs, up to the jump into the first task.
use mos_rust.Config.{pri_min}
use mos_rust.Prelude.{ℕ, none, some, true, Run, ok, stop, panicked, ◌>>=◌, accepted, rejected}
use mos_rust.TaskList.{HeaplessVec, front}
use mos_rust.Kernel.{running, Kernel, set_status}
use mos_rust.Kernel.Task.{create}

module _ ⦃vec : HeaplessVec⦄ where
  -- `idle_task` is the number that names the idle task's closure.
  unfoldable pub launch : Kernel → ℕ → Run Kernel
  launch k idle_task = do
    (created, k1) ← create k idle_task pri_min "idle"
    elim created [
      | rejected e ↦ stop panicked
      | accepted tid ↦ elim (front k1.ready_list) [
        | none ↦ stop panicked
        | some first ↦
            ok (record (set_status k1 first running) { current = some first; sched_ready = true })
      ]
    ]
