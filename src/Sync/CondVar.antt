-- ===== src/Sync/CondVar.antt =====
-- `CondVar` and `Barrier`, core/src/kernel/sync.rs.
pub mod Wakes
pub mod Waits
pub mod Opens
use mos_rust.Prelude.{
  ℕ, zero, suc, ◌+◌, ◌%◌, Bool, true, false, none, some, not, ◌==◌, if◌then◌else◌, length, Run, ok,
  ◌>>=◌,
}
use mos_rust.TaskList.{HeaplessVec, TaskList, new, push_back, pop_front}
use mos_rust.Kernel.{
  ready, blocked, Kernel, u32_mod, set_status, current_tid, ready_remove, ready_insert,
}
use mos_rust.Kernel.Sched.{yield_task}
use mos_rust.Sync.Mutex.{Mutex, create as unlocked, release, unlock}

pub record CondVar : Type 0 where
  pub wait_queue : TaskList

unfoldable pub create : CondVar
unfolding new
create = record { wait_queue = new }

module _ ⦃vec : HeaplessVec⦄ where
  -- `wait` up to and with the switch: the one in `internal_unlock`, where it comes to that, or its
  -- own. In the first case the result is true, and the task yields once more when it runs again;
  -- then it takes the mutex by `lock`.
  unfoldable pub wait : Kernel → CondVar → Mutex → Run (Bool × Kernel × CondVar × Mutex)
  wait k cv m = do
    cr ← current_tid k
    let q = (push_back cv.wait_queue cr).0
    let k1 = ready_remove (set_status k cr blocked) cr
    (yields, k2, m1) ← release k1 m
    k3 ← yield_task k2
    ok (yields, k3, record { wait_queue = q }, m1)

  unfoldable pub notify : Kernel → CondVar → Run (Kernel × CondVar)
  unfolding pop_front
  notify k cv = elim (pop_front cv.wait_queue).0 [
    | none ↦ ok (k, cv)
    | some woken ↦ (do
      let k1 = set_status k woken ready
      k2 ← yield_task (ready_insert k1 woken (k1.tcbs woken).priority)
      ok (k2, record { wait_queue = (pop_front cv.wait_queue).1 }))
  ]

  -- The `while` of `notify_all`. Each round takes one entry off, so the length of the queue at the
  -- start is fuel enough.
  unfoldable pub wake_all : ℕ → Kernel → TaskList → Bool → Kernel × TaskList × Bool
  wake_all zero k q woken = (k, q, woken)
  wake_all (suc fuel) k q woken = elim (pop_front q).0 [
    | none ↦ (k, q, woken)
    | some t ↦
        let k1 = set_status k t ready in
        wake_all fuel (ready_insert k1 t (k1.tcbs t).priority) (pop_front q).1 true
  ]

  unfoldable pub notify_all : Kernel → CondVar → Run (Kernel × CondVar)
  unfolding wake_all
  notify_all k cv = do
    let (k1, q, woken) = wake_all (length cv.wait_queue) k cv.wait_queue false
    k2 ← if woken then yield_task k1 else ok k1
    ok (k2, record { wait_queue = q })

-- `BarrierState` within its mutex, the condition variable and `total`
pub record Barrier : Type 0 where
  pub count : ℕ
  pub generation : ℕ
  pub mutex : Mutex
  pub cv : CondVar
  pub total : ℕ

unfoldable pub barrier : ℕ → Barrier
unfolding create
barrier total = record { count = 0; generation = 0; mutex = unlocked; cv = create; total = total }

-- How `Barrier::wait` goes on after a switch: it is done, it calls `notify_all`, or it waits on the
-- condition variable for the generation to change (and yields once more, if so said).
pub data Next : Type 0 where
  done notifies : Next
  waits : ℕ → Bool → Next

module _ ⦃vec : HeaplessVec⦄ where
  -- `Barrier::wait` from where the task holds the mutex.
  unfoldable pub arrive : Kernel → Barrier → Run (Next × Kernel × Barrier)
  arrive k b =
      let my_gen = b.generation in
      let count = (b.count + 1) % u32_mod in
      let last = do
        (k1, m) ← unlock k b.mutex
        ok (
          notifies,
          k1,
          record b { count = 0; generation = (b.generation + 1) % u32_mod; mutex = m },
        )
      in let others = do
        (yields, k1, cv, m) ← wait k b.cv b.mutex
        ok (waits my_gen yields, k1, record b { count = count; mutex = m; cv = cv })
        in if count == b.total then last else others

  -- The `loop` where the task holds the mutex again.
  unfoldable pub recheck : Kernel → Barrier → ℕ → Run (Next × Kernel × Barrier)
  recheck k b my_gen =
      let leave = do (k1, m) ← unlock k b.mutex; ok (done, k1, record b { mutex = m })
      in let again = do
        (yields, k1, cv, m) ← wait k b.cv b.mutex
        ok (waits my_gen yields, k1, record b { mutex = m; cv = cv })
        in if not (b.generation == my_gen) then leave else again
