-- ===== src/Sync/Sema.antt =====
-- `Sema`, core/src/kernel/sync.rs. A call runs from its start to the switch to another task; what it
-- does after the switch is a call of its own, on the state that the task then finds.
pub mod Waits
pub mod Wakes
use mos_rust.Prelude.{
  ℕ, zero, suc, ◌+◌, ◌-◌, ◌%◌, ◌^◌, List, Bool, true, false, Option, none, some, not, ◌&&◌, ◌||◌,
  ltb, leb, ◌==◌, any, if◌then◌else◌, Run, ok, ◌>>=◌,
}
use mos_rust.TaskList.{HeaplessVec, TaskList, new, pop_front, insert_in_order, remove}
use mos_rust.Kernel.{
  ready, blocked, Kernel, u32_mod, set_status, set_wake_point, current_tid, ready_remove,
  ready_insert, sleeping_insert,
}
use mos_rust.Kernel.Sched.{yield_task}
use mos_rust.Kernel.Task.{preempt_woken}

-- `count` is an i32, given by its bits; the arithmetic wraps, as both build profiles set.
pub record Sema : Type 0 where
  pub count : ℕ
  pub wait_queue : TaskList

abbrev pub is_negative : ℕ → Bool
is_negative c = leb (2 ^ 31) c

abbrev pub increment : ℕ → ℕ
increment c = (c + 1) % u32_mod

abbrev pub decrement : ℕ → ℕ
decrement c = (c + (u32_mod - 1)) % u32_mod

unfoldable pub create : ℕ → Sema
unfolding new
create initial_count = record { count = initial_count; wait_queue = new }

unfoldable pub try_down : Sema → Bool × Sema
try_down s =
    if not (is_negative s.count) && not (s.count == 0)
    then (true, record s { count = decrement s.count })
    else (false, s)

-- The first part of `down_timeout`: what it returns, unless it goes on to wait.
unfoldable pub down_timeout : Sema → ℕ → Option Bool × Sema
unfolding try_down
down_timeout s ticks =
    let (taken, s1) = try_down s in
    if taken then (some true, s1) else if ticks == 0 then (some false, s1) else (none, s1)

module _ ⦃vec : HeaplessVec⦄ where
  -- `wait_queue.insert_in_order(t, |u| TCBS[t].priority < TCBS[u].priority)`
  abbrev pub queue_insert : Kernel → TaskList → ℕ → TaskList
  queue_insert k q t = (insert_in_order q t (λ u. ltb (k.tcbs t).priority (k.tcbs u).priority)).0

  unfoldable pub down : Kernel → Sema → Run (Kernel × Sema)
  down k s =
      let s1 = record s { count = decrement s.count } in
      let wait = do
        cr ← current_tid k
        let k1 = ready_remove (set_status k cr blocked) cr
        k2 ← yield_task k1
        ok (k2, record s1 { wait_queue = queue_insert k1 s1.wait_queue cr })
      in if is_negative s1.count then wait else ok (k, s1)

  unfoldable pub up : Kernel → Sema → Run (Kernel × Sema)
  unfolding pop_front
  up k s =
      let s1 = record s { count = increment s.count } in
      let wake : Run (Kernel × Sema) = elim (pop_front s1.wait_queue).0 [
        | none ↦ ok (k, s1)
        | some woken ↦ (do
          let k1 = set_status k woken ready
          let k2 = ready_insert k1 woken (k1.tcbs woken).priority
          k3 ← preempt_woken k2 (k2.tcbs woken).priority
          ok (k3, record s1 { wait_queue = (pop_front s1.wait_queue).1 }))
      ] in
      if is_negative s1.count || s1.count == 0 then wake else ok (k, s1)

  unfoldable pub up_from_isr : Kernel → Sema → Kernel × Sema
  unfolding pop_front
  up_from_isr k s =
      let s1 = record s { count = increment s.count } in
      let wake : Kernel × Sema = elim (pop_front s1.wait_queue).0 [
        | none ↦ (k, s1)
        | some woken ↦
            let k1 = set_status k woken ready in
            (
              ready_insert k1 woken (k1.tcbs woken).priority,
              record s1 { wait_queue = (pop_front s1.wait_queue).1 },
            )
      ] in
      if is_negative s1.count || s1.count == 0 then wake else (k, s1)

  -- The second part of `down_timeout`: the task joins the queue and sleeps, up to the switch.
  unfoldable pub down_timeout_wait : Kernel → Sema → ℕ → Run (Kernel × Sema)
  down_timeout_wait k s ticks = do
    let s1 = record s { count = decrement s.count }
    cr ← current_tid k
    let k1 = ready_remove (set_status k cr blocked) cr
    let q = queue_insert k1 s1.wait_queue cr
    let wake_time = (k.os_ticks + ticks) % u32_mod
    k2 ← yield_task (sleeping_insert (set_wake_point k1 cr wake_time) cr wake_time)
    ok (k2, record s1 { wait_queue = q })

  -- The third part of `down_timeout`, where the waiting task runs again.
  unfoldable pub down_timeout_end : Kernel → Sema → Run (Bool × Sema)
  down_timeout_end k s = do
    cr ← current_tid k
    ok (
        if any (λ t. t == cr) s.wait_queue
        then (false, record s { wait_queue = remove s.wait_queue cr; count = increment s.count })
        else (true, s))
