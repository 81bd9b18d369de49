-- ===== src/System/Safety.antt =====
-- What holds in every state that the kernel reaches.
use mos_rust.Config.{task_max, pri_min}
use mos_rust.Prelude.{ℕ, suc, ◌<◌, ◌≡◌, subst, Bool, true, false, some, arith, Run, ok}
use mos_rust.TaskList.{HeaplessVec}
use mos_rust.Kernel.{Layout, Kernel}
use mos_rust.Prelude.Bits.{test_bit}
use mos_rust.Kernel.Launch.{launch}
use mos_rust.System.{
  Call, yields, exits, creates, creates_raw, blocks, resumes, terminates, delays, timer, downs, ups,
  wakes, notifies, perform, allowed, Booting, Reachable, launched, called,
}
use mos_rust.System.Running.{IsRunning, Runs, yield_task-Runs}
use mos_rust.System.Leaving.{block-Runs, terminate-Runs, exit_current-Runs, delay-Runs, down-Runs}
use mos_rust.System.Arriving.{resume-Runs, create-Runs, create_raw-Runs}
use mos_rust.System.Waking.{up-Runs, wake-Runs, notify-Runs}
use mos_rust.System.Timer.{timer-Runs}
use mos_rust.System.Boot.{Booting-IsBooting, create-accepted, launch-Runs}

module _ ⦃vec : HeaplessVec⦄ where
  -- With a task running, every call that the callers may make returns, with some task running.
  pub perform-Runs :
      {strict : Bool} {idle c : ℕ} {k : Kernel} (call : Call)
      → IsRunning strict idle k c
      → allowed strict idle k c call ≡ true
      → Runs strict idle (perform k call)
  unfolding perform allowed
  perform-Runs {c = c} yields run may = yield_task-Runs c run.live run.sized run.idle_ready
  perform-Runs exits run may = exit_current-Runs run (ground arith)
  perform-Runs (creates closure priority name) run may = create-Runs run closure priority name
  perform-Runs (creates_raw entry param priority name size block) run may =
      create_raw-Runs run entry param priority name size block (ground arith) (λ b. ground arith)
  perform-Runs (blocks tid) run may = block-Runs run tid (ground arith) (ground arith)
  perform-Runs (resumes tid) run may = resume-Runs run tid (ground arith)
  perform-Runs (terminates tid) run may = terminate-Runs run tid (ground arith) (ground arith)
  perform-Runs (delays ticks) run may = delay-Runs run ticks (ground arith)
  perform-Runs (timer missed) run may = timer-Runs run (suc missed)
  perform-Runs (downs s) run may = down-Runs run s (ground arith)
  perform-Runs (ups s) run may = up-Runs run s may
  perform-Runs (wakes q) run may = wake-Runs run q may
  perform-Runs (notifies q) run may = notify-Runs run q may

  task_at :
      {strict : Bool} {idle : ℕ} {k' : Kernel} {r : Run Kernel}
      → Runs strict idle r
      → r ≡ ok k'
      → (c : ℕ) × IsRunning strict idle k' c
  task_at {strict} {idle} {k'} s e =
      let same : s.after ≡ k' = cc (e, s.returned) in
      (s.task, subst (λ j. IsRunning strict idle j s.task) same s.running)

  -- From reset any tasks are created by `create` and `create_raw`, then come `launch` and any calls of
  -- `Task`, `Sema::down` and `up`, `CondVar::notify`, wake-ups by message queues, switches and timer
  -- interrupts with ticks to catch up. The idle task is not blocked, terminated or delayed, and does
  -- not exit or call `down`; ids are of the task table; stacks of `create_raw` hold more than a frame;
  -- the first task in the queue of an `up` or `notify` is blocked and in no list of the kernel; and
  -- the first in the wait list of a message queue sleeps. In every state from the launch on the lists
  -- are well formed, a task runs that is runnable and listed as ready, and the idle task is ready too.
  -- If further no `create_raw` after `launch` made a task of higher priority than the one that ran,
  -- then no ready task has a higher priority than the running one.
  pub Reachable-IsRunning :
      {layout : Layout} {strict : Bool} {idle : ℕ} {k : Kernel}
      → Reachable layout strict idle k
      → (c : ℕ) × IsRunning strict idle k c
  Reachable-IsRunning {strict = strict} (launched {k} {k1} {k'} closure before e done) =
      task_at (launch-Runs (Booting-IsBooting before) strict closure _ k1 e) done
  Reachable-IsRunning {strict = strict} {idle} (called {k} {k'} c call before at may done) =
      let (d, run) = Reachable-IsRunning before in
      let same : d ≡ c = cc (run.live.runs_now, at) in
      let run' : IsRunning strict idle k c = subst (IsRunning strict idle k) same run in
      task_at (perform-Runs call run' may) done

  -- No panic: from every state that such creations, `launch` and calls of `Task`, `Sema::down` and
  -- `up`, `CondVar::notify`, wake-ups by message queues, switches and timer interrupts lead to, each
  -- further one of these returns, in a state of that kind: as long as the idle task is not blocked,
  -- terminated or delayed, and does not exit or call `down`; ids are of the task table; stacks of
  -- `create_raw` hold more than a frame (and, where `strict` is set, its task is not of higher priority
  -- than the one that runs); the first task in the queue of an `up` or `notify` is blocked and in no
  -- list of the kernel; and the first in the wait list of a message queue sleeps.
  pub perform-returns :
      {layout : Layout} {strict : Bool} {idle : ℕ} {k : Kernel} (call : Call)
      → Reachable layout strict idle k
      → ((c : ℕ) → k.current ≡ some c → allowed strict idle k c call ≡ true)
      → (k' : Kernel) × (perform k call ≡ ok k') × Reachable layout strict idle k'
  perform-returns {layout} {strict} {idle} {k} call before may =
      let (c, run) = Reachable-IsRunning before in
      let s = perform-Runs call run (may c run.live.runs_now) in
      (
        s.after,
        s.returned,
        called c call before run.live.runs_now (may c run.live.runs_now) s.returned,
      )

  -- The start: as long as an id is free, `launch` does not panic, whatever tasks `create` and
  -- `create_raw` (with stacks that hold more than a frame) made before it.
  pub launch-returns :
      {layout : Layout} {k : Kernel} (closure u : ℕ)
      → Booting layout k
      → u < task_max
      → test_bit k.tid_bitmap u ≡ false
      → (idle : ℕ) × (k' : Kernel) × (launch k closure ≡ ok k') × Reachable layout true idle k'
  launch-returns {layout} {k} closure u before lt free =
      let boot = Booting-IsBooting before in
      let (idle, k1, e) = create-accepted boot closure pri_min "idle" u lt free in
      let s = launch-Runs boot true closure idle k1 e in
      (idle, s.after, s.returned, launched closure before e s.returned)
