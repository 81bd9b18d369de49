-- ===== src/Kernel/Invariant.antt =====
-- What holds of the kernel's lists between its calls: a task is in at most one list, once, with the
-- status that goes with it, and the lists are in order.
pub mod Moves
pub mod Ids
use mos_rust.Config.{task_max}
use mos_rust.Prelude.{
  ℕ, ◌+◌, ◌≤◌, ◌<◌, ◌≡◌, ◌⊎◌, Bool, true, false, Option, none, some, ap, ◌∙◌, Run, ok, stop,
  null_deref, ◌>>=◌, count, IsSortedBy,
}
use mos_rust.Prelude.Bits.{test_bit}
use mos_rust.Kernel.{TaskStatus, terminated, ready, running, blocked, Tcb, Kernel, current_tid}

abbrev pub is_runnable : TaskStatus → Bool
is_runnable ready = true
is_runnable running = true
is_runnable _ = false

abbrev pub parked : Kernel → ℕ → ℕ
parked k t = count t k.blocked_list + count t k.sleeping_list

abbrev pub listed : Kernel → ℕ → ℕ
listed k t = count t k.ready_list + parked k t

pub record IsValid (k : Kernel) : Type 0 where
  pub once : (t : ℕ) → listed k t ≤ 1
  pub small : (t : ℕ) → task_max ≤ t → listed k t ≡ 0
  pub runs : (t : ℕ) → 0 < count t k.ready_list → is_runnable (k.tcbs t).status ≡ true
  pub waits : (t : ℕ) → 0 < parked k t → (k.tcbs t).status ≡ blocked
  pub used :
      (t : ℕ) → t < task_max → ((k.tcbs t).status ≡ terminated) ⊎ (test_bit k.tid_bitmap t ≡ true)
  pub owned : (t : ℕ) → ((k.tcbs t).status ≡ terminated) ⊎ ((k.tcbs t).tid ≡ t)
  pub here : (c : ℕ) → k.current ≡ some c → ((k.tcbs c).tid ≡ c) × (c < task_max)
  pub by_priority : IsSortedBy (λ t. (k.tcbs t).priority) k.ready_list
  pub by_wake : IsSortedBy (λ t. (k.tcbs t).wake_point) k.sleeping_list

-- Following `CURRENT_TCB_PTR` gives the index of the slot that it points to.
pub current_tid-ok : {k : Kernel} → IsValid k → (c : ℕ) → k.current ≡ some c → current_tid k ≡ ok c
current_tid-ok {k} v c at =
    ap (λ o. (elim o [ none ↦ stop null_deref | some d ↦ ok d ]) >>= λ d. ok (k.tcbs d).tid) at
    ∙ ap ok (v.here c at).0
