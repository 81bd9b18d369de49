-- ===== src/Kernel.antt =====
-- The kernel's state: the task control block of core/src/kernel/tcb.rs, the statics of
-- core/src/kernel/global.rs and the id allocator there. One kernel call is one critical section.
pub mod Stack
pub mod Sched
pub mod Task
pub mod Launch
pub mod Invariant
use Prim.Native.String.{String}
use mos_rust.Config.{task_max, pri_min, pri_inv, time_slice_ticks}
use mos_rust.Prelude.{
  ℕ, zero, suc, ◌-◌, ◌<◌, ◌%◌, ◌+◌, ◌^◌, List, [], ◌∷◌, Bool, true, false, Option, none, some, not,
  ◌&&◌, ltb, ◌==◌, if◌then◌else◌, update, Run, ok, stop, null_deref, ◌>>=◌,
}
use mos_rust.Prelude.Bits.{set_bit, clear_bit, test_bit}
use mos_rust.TaskList.{HeaplessVec, TaskList, remove, insert_in_order, push_back}

pub data TaskStatus : Type 0 where
  terminated ready running blocked : TaskStatus

-- the derived `==`
abbrev pub status_eq : TaskStatus → TaskStatus → Bool
status_eq terminated terminated = true
status_eq ready ready = true
status_eq running running = true
status_eq blocked blocked = true
status_eq _ _ = false

-- The stored closure (`closure_storage` and `closure_invoker`) is given by a number that names it.
pub record Tcb : Type 0 where
  pub sp : ℕ
  pub tid : ℕ
  pub status : TaskStatus
  pub priority : ℕ
  pub sub_priority : ℕ
  pub time_slice : ℕ
  pub wake_point : ℕ
  pub name : String
  pub stack_bottom : ℕ
  pub closure : Option ℕ
  pub thread_sema : ℕ
  pub heap_stack_base : ℕ

abbrev pub empty_tcb : ℕ → Tcb
empty_tcb tid = record {
  sp = 0;
  tid = tid;
  status = terminated;
  priority = pri_min;
  sub_priority = pri_inv;
  time_slice = time_slice_ticks;
  wake_point = 0;
  name = "";
  stack_bottom = 0;
  closure = none;
  thread_sema = 0;
  heap_stack_base = 0;
}

pub is_sleeping : Tcb → Bool
is_sleeping t = not (t.wake_point == 0) && status_eq t.status blocked

-- The addresses that the linker chose.
pub record Layout : Type 0 where
  pub stack_base : ℕ → ℕ
  pub closure_trampoline : ℕ
  pub task_exit_stub : ℕ

-- The statics. An array is a function of its index; the invariant keeps every id that a list holds
-- below TASK_MAX, and a call that is given an id tests it. `heap` holds the leaked stacks by address.
pub record Kernel : Type 0 where
  pub tcbs : ℕ → Tcb
  pub stacks : ℕ → List ℕ
  pub heap : ℕ → List ℕ
  pub ready_list : TaskList
  pub blocked_list : TaskList
  pub sleeping_list : TaskList
  pub os_ticks : ℕ
  pub tid_bitmap : ℕ
  pub current : Option ℕ
  pub sched_ready : Bool
  pub layout : Layout

abbrev pub u32_mod : ℕ
u32_mod = 2 ^ 32

-- Assignments to one field of `TCBS[t]`.
abbrev pub set_status : Kernel → ℕ → TaskStatus → Kernel
set_status k t s = record k { tcbs = update k.tcbs t (record (k.tcbs t) { status = s }) }

abbrev pub set_wake_point : Kernel → ℕ → ℕ → Kernel
set_wake_point k t w = record k { tcbs = update k.tcbs t (record (k.tcbs t) { wake_point = w }) }

abbrev pub set_priority : Kernel → ℕ → ℕ → Kernel
set_priority k t p = record k { tcbs = update k.tcbs t (record (k.tcbs t) { priority = p }) }

abbrev pub set_sub_priority : Kernel → ℕ → ℕ → Kernel
set_sub_priority k t p = record k {
  tcbs = update k.tcbs t (record (k.tcbs t) { sub_priority = p });
}

abbrev pub set_time_slice : Kernel → ℕ → ℕ → Kernel
set_time_slice k t n = record k { tcbs = update k.tcbs t (record (k.tcbs t) { time_slice = n }) }

-- `CURRENT_TCB_PTR`, followed: the slot that it points to, and the `tid` field there.
abbrev pub current_slot : Kernel → Run ℕ
current_slot k = elim k.current [ none ↦ stop null_deref | some c ↦ ok c ]

abbrev pub current_tid : Kernel → Run ℕ
current_tid k = current_slot k >>= λ c. ok (k.tcbs c).tid

module _ ⦃vec : HeaplessVec⦄ where
  -- `LIST.remove(t)`
  abbrev pub ready_remove : Kernel → ℕ → Kernel
  ready_remove k t = record k { ready_list = remove k.ready_list t }

  abbrev pub blocked_remove : Kernel → ℕ → Kernel
  blocked_remove k t = record k { blocked_list = remove k.blocked_list t }

  abbrev pub sleeping_remove : Kernel → ℕ → Kernel
  sleeping_remove k t = record k { sleeping_list = remove k.sleeping_list t }

  -- `READY_LIST.insert_in_order(t, |c| priority < TCBS[c].priority)`, the result dropped
  abbrev pub ready_insert : Kernel → ℕ → ℕ → Kernel
  ready_insert k t priority = record k {
    ready_list = (insert_in_order k.ready_list t (λ c. ltb priority (k.tcbs c).priority)).0;
  }

  -- `SLEEPING_LIST.insert_in_order(t, |c| wake_time < TCBS[c].wake_point)`, the result dropped
  abbrev pub sleeping_insert : Kernel → ℕ → ℕ → Kernel
  sleeping_insert k t wake_time = record k {
    sleeping_list =
        (insert_in_order k.sleeping_list t (λ c. ltb wake_time (k.tcbs c).wake_point)).0;
  }

  abbrev pub blocked_push : Kernel → ℕ → Kernel
  blocked_push k t = record k { blocked_list = (push_back k.blocked_list t).0 }

-- The `for` of `alloc_tid`, with `n` ids left from `tid` on.
pub alloc_scan : ℕ → ℕ → Kernel → Option (ℕ × Kernel)
alloc_scan zero tid k = none
alloc_scan (suc n) tid k =
    if not (test_bit k.tid_bitmap tid)
    then some (
      tid,
      record k { tid_bitmap = set_bit k.tid_bitmap tid; tcbs = update k.tcbs tid (empty_tcb tid) },
    )
    else alloc_scan n (suc tid) k

pub alloc_tid : Kernel → Option (ℕ × Kernel)
unfolding alloc_scan
alloc_tid k = alloc_scan task_max 0 k

pub free_tid : Kernel → ℕ → Kernel
free_tid k tid =
    if ltb tid task_max
    then set_status (record k { tid_bitmap = clear_bit k.tid_bitmap tid }) tid terminated
    else k
