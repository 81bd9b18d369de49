-- ===== src/System.antt =====
-- The kernel as a whole: the calls that tasks and the timer interrupt make of it, in any order,
-- from the state at reset. The calls are `Task::*` of core/src/kernel/task.rs, `Scheduler::launch`
-- of core/src/kernel/sched.rs and the timer branch of boards/esp32c6/src/trap.rs.
pub mod Running
pub mod Leaving
pub mod Arriving
pub mod Waking
pub mod Timer
pub mod Boot
pub mod Safety
use Prim.Native.String.{String}
use mos_rust.Config.{task_max, pri_min, page_size_words}
use mos_rust.Prelude.{
  ℕ, zero, suc, ◌/◌, ◌<◌, ◌≡◌, refl, List, [], ◌∷◌, Bool, true, false, none, some, not, ◌&&◌, ◌||◌,
  ltb, leb, count, ◌==◌, if◌then◌else◌, replicate, Run, ok, ◌>>=◌, accepted,
}
use mos_rust.TaskList.{HeaplessVec, TaskList}
use mos_rust.Kernel.{blocked, status_eq, Layout, Kernel, empty_tcb}
use mos_rust.Kernel.Invariant.{listed}
use mos_rust.Sync.Sema.{Sema, down, up}
use mos_rust.Sync.CondVar.{notify}
use mos_rust.Ipc.{try_wake_up}
use mos_rust.Kernel.Stack.{context_words}
use mos_rust.Kernel.Sched.{yield_task}
use mos_rust.Kernel.Task.{create, create_raw, block, resume, terminate, delay, exit_current}
use mos_rust.Kernel.Launch.{launch}
use mos_rust.Trap.{catch_up}

-- The statics at reset.
abbrev pub initial_kernel : Layout → Kernel
initial_kernel layout = record {
  tcbs = λ t. empty_tcb 0;
  stacks = λ t. replicate page_size_words 0;
  heap = λ a. [];
  ready_list = [];
  blocked_list = [];
  sleeping_list = [];
  os_ticks = 0;
  tid_bitmap = 0;
  current = none;
  sched_ready = false;
  layout = layout;
}

-- The calls of `Task`, `Sema::down` and `up`, `CondVar::notify`, the wake-up by a message queue (its
-- waits are `delay`), the switch and the timer interrupt; the calls of mutexes, and those that give
-- one back, are not among them. A call comes with the semaphore or the wait list as it then is.
-- `timer missed` is the timer interrupt with `missed` further ticks due.
pub data Call : Type 0 where
  yields exits : Call
  creates : (closure priority : ℕ) (name : String) → Call
  creates_raw : (entry param priority : ℕ) (name : String) (stack_size address : ℕ) → Call
  blocks resumes terminates delays timer : ℕ → Call
  downs ups : Sema → Call
  wakes notifies : TaskList → Call

module _ ⦃vec : HeaplessVec⦄ where
  -- A call; the interrupt and the `next_tcb` that the trap handler calls after it are one. The
  -- handles that `create` and `create_raw` return are dropped.
  unfoldable pub perform : Kernel → Call → Run Kernel
  perform k yields = yield_task k
  perform k exits = exit_current k
  perform k (creates closure priority name) = create k closure priority name >>= λ p. ok p.1
  perform k (creates_raw entry param priority name size address) =
      create_raw k entry param priority name size address >>= λ p. ok p.1
  perform k (blocks tid) = block k tid
  perform k (resumes tid) = resume k tid
  perform k (terminates tid) = terminate k tid
  perform k (delays ticks) = delay k ticks
  perform k (downs s) = down k s >>= λ p. ok p.0
  perform k (ups s) = up k s >>= λ p. ok p.0
  perform k (wakes q) = try_wake_up k q >>= λ p. ok p.0
  perform k (notifies q) = notify k (record { wait_queue = q }) >>= λ p. ok p.0
  perform k (timer missed) = do
    (r, j) ← catch_up (suc missed) 0 k
    if r == 0 then ok j else yield_task j

  -- The first task of a queue is one that waits: blocked and in no list of the kernel.
  abbrev pub head_waits : Kernel → TaskList → Bool
  head_waits k [] = true
  head_waits k (w ∷ rest) =
      ltb w task_max && (status_eq (k.tcbs w).status blocked && listed k w == 0)

  -- The first task of a message queue's list sleeps.
  abbrev pub head_sleeps : Kernel → TaskList → Bool
  head_sleeps k [] = true
  head_sleeps k (w ∷ rest) = ltb 0 (count w k.sleeping_list)

  -- What the callers owe: an id from the task table, a stack that holds a frame, and that nobody
  -- stops the idle task, and that a wait queue starts with a task that waits. `create_raw` does not switch, so with `strict` set its task must not be of
  -- higher priority than the running one.
  unfoldable pub allowed : Bool → ℕ → Kernel → ℕ → Call → Bool
  allowed strict idle k c yields = true
  allowed strict idle k c exits = not (c == idle)
  allowed strict idle k c (creates closure priority name) = true
  allowed strict idle k c (creates_raw entry param priority name size address) =
      ltb context_words (size / 4) && (not strict || leb (k.tcbs c).priority priority)
  allowed strict idle k c (blocks tid) = ltb tid task_max && not (tid == idle)
  allowed strict idle k c (resumes tid) = ltb tid task_max
  allowed strict idle k c (terminates tid) = ltb tid task_max && not (tid == idle)
  allowed strict idle k c (delays ticks) = not (c == idle)
  allowed strict idle k c (timer missed) = true
  allowed strict idle k c (downs s) = not (c == idle)
  allowed strict idle k c (ups s) = head_waits k s.wait_queue
  allowed strict idle k c (wakes q) = head_sleeps k q
  allowed strict idle k c (notifies q) = head_waits k q

  -- The states before `launch`: tasks are created one after the other, by `create` or, with a stack
  -- that holds a frame, by `create_raw`.
  pub data Booting (layout : Layout) : Kernel → Type 0 where
    at_reset : Booting layout (initial_kernel layout)
    created :
        {k k' : Kernel} (closure priority : ℕ) (name : String)
        → Booting layout k
        → perform k (creates closure priority name) ≡ ok k'
        → Booting layout k'
    created_raw :
        {k k' : Kernel} (entry param priority : ℕ) (name : String) (size address : ℕ)
        → Booting layout k
        → context_words < size / 4
        → perform k (creates_raw entry param priority name size address) ≡ ok k'
        → Booting layout k'

  -- The states from `launch` on, where `idle` is the id of the idle task.
  pub data Reachable (layout : Layout) (strict : Bool) (idle : ℕ) : Kernel → Type 0 where
    launched :
        {k k1 k' : Kernel} (closure : ℕ)
        → Booting layout k
        → create k closure pri_min "idle" ≡ ok (accepted idle, k1)
        → launch k closure ≡ ok k'
        → Reachable layout strict idle k'
    called :
        {k k' : Kernel} (c : ℕ) (call : Call)
        → Reachable layout strict idle k
        → k.current ≡ some c
        → allowed strict idle k c call ≡ true
        → perform k call ≡ ok k'
        → Reachable layout strict idle k'
