-- ===== src/Async/Runtime.antt =====
-- The executor's task and the calls of `AsyncRuntime` around the pool. The executor is made by the
-- first `spawn`; futures that call the kernel are left out.
use mos_rust.Config.{async_pool_max}
use mos_rust.Prelude.{
  ℕ, Bool, true, false, Result, accepted, rejected, replicate, none, not, if◌then◌else◌, Run, ok,
  ◌>>=◌,
}
use mos_rust.Kernel.{Kernel}
use mos_rust.TaskList.{HeaplessVec}
use mos_rust.Kernel.Task.{create, delay}
use mos_rust.Async.{Executor, empty_slot, wake_slot, spawn, poll_all}

-- `TASK_POOL`, `TIMERS` and `INIT_FLAG` at the start
pub initial {ℓ} : {F : Type ℓ} → Executor F × Bool
unfolding empty_slot
initial = (
  record {
    pool = replicate async_pool_max empty_slot;
    timers = record { data_ = replicate async_pool_max none; len = 0 };
  },
  false,
)

-- `is_ok`
is_ok {ℓ κ} : {A : Type ℓ} {E : Type κ} → Result A E → Bool
is_ok (accepted a) = true
is_ok (rejected e) = false

module _ ⦃vec : HeaplessVec⦄ where
  -- `ensure_init`: the executor's task is made where INIT_FLAG is not set. The flag is set once
  -- `create` has returned, so after the switch that `create` may make.
  pub ensure_init : ℕ → Kernel → Bool → Run (Kernel × Bool)
  ensure_init executor_task k init_flag =
      let made = do (r, k1) ← create k executor_task 1 "async/exec"; ok (k1, is_ok r)
      in if init_flag then ok (k, true) else made

  module _ {ℓ} {F : Type ℓ} where
    -- `AsyncRuntime::spawn`, where the caller goes on after `ensure_init`
    pub spawn_task : ℕ → Kernel → Executor F × Bool → F → Run (Bool × Kernel × Executor F × Bool)
    spawn_task executor_task k (x, init_flag) f = do
      (k1, flag) ← ensure_init executor_task k init_flag
      let (done, x1) = spawn x f
      ok (done, k1, x1, flag)

    -- The body of the `loop` of `executor_task`.
    pub executor_round :
        (ℕ → F → Executor F → Bool × F × Executor F)
        → Kernel
        → Executor F
        → Run (Kernel × Executor F)
    executor_round poll k x = do
      (did_work, x1) ← poll_all poll k.os_ticks x
      k1 ← if not did_work then delay k 1 else ok k
      ok (k1, x1)

pub record YieldOnce : Type 0 where
  pub yielded : Bool

-- `AsyncRuntime::yield_now`
pub yield_now : YieldOnce
yield_now = record { yielded = false }

-- `YieldOnce::poll` in the slot `waker`
pub poll_yield {ℓ} : {F : Type ℓ} → ℕ → YieldOnce → Executor F → Bool × YieldOnce × Executor F
poll_yield waker y x =
    if y.yielded then (true, y, x) else (false, record { yielded = true }, wake_slot x waker)
