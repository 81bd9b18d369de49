-- ===== src/Ipc.antt =====
-- The message queue, core/src/kernel/ipc.rs: a ring of messages, with the tasks that wait to send
-- and to receive. A call is cut where it lets other tasks run: each part is one critical section.
pub mod Ring
pub mod Wake
use mos_rust.Prelude.{
  ℕ, zero, suc, ◌+◌, ◌-◌, ◌%◌, List, Bool, true, false, Option, none, some, ltb, ◌==◌, any,
  if◌then◌else◌, set, replicate, Run, ok, ◌>>=◌, Result, accepted, rejected,
}
use mos_rust.TaskList.{HeaplessVec, TaskList, new, pop_front, remove}
use mos_rust.Kernel.{
  ready, Kernel, set_status, set_wake_point, current_tid, sleeping_remove, ready_insert,
}
use mos_rust.Kernel.Sched.{yield_task}
use mos_rust.Queue.{Slot, read_slot}
use mos_rust.Sync.Sema.{queue_insert}

pub data IpcStatus : Type 0 where
  okay time_out : IpcStatus

-- `MsgQueueInner`; capacity is the const parameter N.
pub record MsgQueue {ℓ} (A : Type ℓ) : Type ℓ where
  pub capacity : ℕ
  pub buffer : List (Slot A)
  pub head : ℕ
  pub tail : ℕ
  pub len : ℕ
  pub senders : TaskList
  pub receivers : TaskList

module _ {ℓ} {A : Type ℓ} where
  unfoldable pub create : ℕ → MsgQueue A
  unfolding new
  create n = record {
    capacity = n;
    buffer = replicate n none;
    head = 0;
    tail = 0;
    len = 0;
    senders = new;
    receivers = new;
  }

  unfoldable pub push : MsgQueue A → A → MsgQueue A
  push q msg =
      if ltb q.len q.capacity
      then record q {
        buffer = set q.buffer q.tail (some msg);
        tail = (q.tail + 1) % q.capacity;
        len = q.len + 1;
      }
      else q

  unfoldable pub pop : MsgQueue A → Run (Option A × MsgQueue A)
  pop q =
      let taken : Run (Option A × MsgQueue A) = read_slot q.buffer q.head >>= λ msg.
      ok (some msg, record q { head = (q.head + 1) % q.capacity; len = q.len - 1 }) in
      if ltb 0 q.len then taken else ok (none, q)

module _ ⦃vec : HeaplessVec⦄ where
  -- The parts of `wait_on`: the task joins the list, then calls `Task::delay`, then looks whether it
  -- is still in the list. With no time to wait there is neither.
  unfoldable pub wait_on : Kernel → TaskList → ℕ → Run (Option IpcStatus × TaskList)
  wait_on k wait_list timeout_ticks = do
    cr ← current_tid k
    ok (
        if timeout_ticks == 0
        then (some time_out, wait_list)
        else (none, queue_insert k wait_list cr))

  unfoldable pub wait_on_end : Kernel → TaskList → Run (IpcStatus × TaskList)
  wait_on_end k wait_list = do
    cr ← current_tid k
    ok (if any (λ t. t == cr) wait_list then (time_out, remove wait_list cr) else (okay, wait_list))

  -- The task at the head of the list is ready again.
  abbrev pub awaken : Kernel → ℕ → Kernel
  awaken k woken =
      let k1 = set_status (set_wake_point k woken 0xFFFF_FFFF) woken ready in
      let k2 = sleeping_remove k1 woken in ready_insert k2 woken (k2.tcbs woken).priority

  -- `awaken`, and the switch where that task's priority is above the current task's
  unfoldable pub rouse : Kernel → ℕ → Run Kernel
  rouse k woken =
      let k1 = awaken k woken in
      elim k1.current [
        | none ↦ ok k1
        | some c ↦
            if ltb (k1.tcbs woken).priority (k1.tcbs (k1.tcbs c).tid).priority
            then yield_task k1
            else ok k1
      ]

  unfoldable pub try_wake_up : Kernel → TaskList → Run (Kernel × TaskList)
  unfolding pop_front
  try_wake_up k wait_list = elim (pop_front wait_list).0 [
    | none ↦ ok (k, wait_list)
    | some woken ↦ rouse k woken >>= λ k1. ok (k1, (pop_front wait_list).1)
  ]

  module _ {ℓ} {A : Type ℓ} where
    -- `inner.push(msg)` and the wake-up of a receiver
    abbrev pub deliver : Kernel → MsgQueue A → A → Run (Kernel × MsgQueue A)
    deliver k q msg =
        let q1 = push q msg in
        try_wake_up k q1.receivers >>= λ (k1, waiting). ok (k1, record q1 { receivers = waiting })

    -- The first part of `send`: whether the queue was full.
    unfoldable pub send : Kernel → MsgQueue A → A → Run (Bool × Kernel × MsgQueue A)
    send k q msg =
        let sent : Run (Bool × Kernel × MsgQueue A) =
          deliver k q msg >>= λ (k1, q1). ok (false, k1, q1) in
        if ltb q.len q.capacity then sent else ok (true, k, q)

    -- The last part of `send`, after a wait that did not time out.
    unfoldable pub send_end :
        Kernel → MsgQueue A → A → Run (Result (Unit {0}) IpcStatus × Kernel × MsgQueue A)
    send_end k q msg =
        let sent : Run (Result (Unit {0}) IpcStatus × Kernel × MsgQueue A) =
          deliver k q msg >>= λ (k1, q1). ok (accepted tt, k1, q1) in
        if ltb q.len q.capacity then sent else ok (rejected time_out, k, q)

    -- The first part of `recv`: the message, if there is one.
    unfoldable pub recv : Kernel → MsgQueue A → Run (Option A × Kernel × MsgQueue A)
    recv k q =
        let taken : Run (Option A × Kernel × MsgQueue A) = pop q >>= λ (msg, q1).
        try_wake_up k q1.senders >>= λ (k1, waiting).
        ok (msg, k1, record q1 { senders = waiting }) in
        if ltb 0 q.len then taken else ok (none, k, q)

    -- The last part of `recv`, after a wait that did not time out.
    unfoldable pub recv_end : Kernel → MsgQueue A → Run (Result A IpcStatus × Kernel × MsgQueue A)
    recv_end k q = pop q >>= λ (msg, q1). elim msg [
      | none ↦ ok (rejected time_out, k, q1)
      | some m ↦ try_wake_up k q1.senders >>= λ (k1, waiting).
          ok (accepted m, k1, record q1 { senders = waiting })
    ]
