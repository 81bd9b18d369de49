-- ===== src/Sync/Mutex.antt =====
-- `Mutex`, core/src/kernel/sync.rs: a recursive lock with priority inheritance. The protected value
-- is of no account to the lock.
pub mod Recursion
pub mod Inherit
pub mod Pass
use mos_rust.Config.{pri_inv}
use mos_rust.Prelude.{
  ℕ, ◌+◌, ◌-◌, ◌%◌, Bool, false, Option, none, some, not, ltb, ◌==◌, if◌then◌else◌, Run, ok, ◌>>=◌,
}
use mos_rust.TaskList.{HeaplessVec, TaskList, new, front, pop_front}
use mos_rust.Kernel.{
  ready, blocked, status_eq, Kernel, u32_mod, set_status, set_priority, set_sub_priority,
  current_tid, ready_remove, ready_insert,
}
use mos_rust.Kernel.Sched.{yield_task}
use mos_rust.Sync.Sema.{queue_insert}

pub record Mutex : Type 0 where
  pub owner : Option ℕ
  pub recursive_count : ℕ
  pub wait_queue : TaskList

unfoldable pub create : Mutex
unfolding new
create = record { owner = none; recursive_count = 0; wait_queue = new }

abbrev owned_by : Option ℕ → ℕ → Bool
owned_by none t = false
owned_by (some o) t = o == t

module _ ⦃vec : HeaplessVec⦄ where
  -- The owner takes over the priority of the task that waits for it, where that is higher.
  unfoldable pub inherit : Kernel → ℕ → ℕ → Kernel
  inherit k owner cr =
      let cur = (k.tcbs cr).priority in
      let k1 =
        if (k.tcbs owner).sub_priority == pri_inv
        then set_sub_priority k owner (k.tcbs owner).priority
        else k in
      let k2 = set_priority k1 owner cur in
      let k3 = ready_insert (ready_remove k2 owner) owner (k2.tcbs owner).priority in
      if ltb cur (k.tcbs owner).priority
      then (if status_eq (k2.tcbs owner).status ready then k3 else k2)
      else k

  -- `internal_lock` up to and with the switch where it waits
  unfoldable pub lock : Kernel → Mutex → Run (Kernel × Mutex)
  lock k m = do
    cr ← current_tid k
    let wait = λ (owner : ℕ). (do
      let k1 = ready_remove (set_status (inherit k owner cr) cr blocked) cr
      k2 ← yield_task k1
      ok (k2, record m { wait_queue = queue_insert k1 m.wait_queue cr }))
    if owned_by m.owner cr
        then ok (k, record m { recursive_count = (m.recursive_count + 1) % u32_mod })
        else elim m.owner [
          | none ↦ ok (k, record m { owner = some cr; recursive_count = 1 })
          | some owner ↦ wait owner
        ]

  -- The priority that the task had before it inherited one.
  unfoldable pub restore : Kernel → ℕ → Kernel
  restore k cr =
      if not ((k.tcbs cr).sub_priority == pri_inv)
      then set_sub_priority (set_priority k cr (k.tcbs cr).sub_priority) cr pri_inv
      else k

  -- `internal_unlock` up to its `yield_task`, and whether it comes to that.
  unfoldable pub release : Kernel → Mutex → Run (Bool × Kernel × Mutex)
  unfolding restore pop_front front
  release k m = do
    cr ← current_tid k
    let m1 = record m { recursive_count = (m.recursive_count + (u32_mod - 1)) % u32_mod }
    let k1 = restore k cr
    let precedes = λ (k : Kernel) (t : ℕ). ltb (k.tcbs t).priority (k.tcbs cr).priority
    let hand_over : ℕ → Bool × Kernel × Mutex = λ woken.
        let k2 = set_status k1 woken ready in
        let k3 = ready_insert k2 woken (k2.tcbs woken).priority in
        let m2 = record m1 {
          owner = some woken;
          recursive_count = 1;
          wait_queue = (pop_front m1.wait_queue).1;
        } in
        (precedes k3 woken, k3, m2)
    let preempts : Bool = elim (front k1.ready_list) [
      | none ↦ false
      | some first ↦ precedes k1 first
    ]
    ok (
        if ltb 0 m1.recursive_count then (false, k, m1) else elim (pop_front m1.wait_queue).0 [
          | none ↦ (preempts, k1, record m1 { owner = none })
          | some woken ↦ hand_over woken
        ])

  unfoldable pub unlock : Kernel → Mutex → Run (Kernel × Mutex)
  unfolding release
  unlock k m = do
    (yields, k1, m1) ← release k m
    k2 ← if yields then yield_task k1 else ok k1
    ok (k2, m1)
