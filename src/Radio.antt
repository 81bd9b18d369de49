-- ===== src/Radio.antt =====
-- The task handles of the radio packages, boards/esp32c6/src/rtos_adapter.rs. A handle is an address;
-- `fresh` is the one that the allocator returns.
use mos_rust.Config.{task_max}
use mos_rust.Prelude.{
  ℕ, leb, ltb, Option, none, some, if◌then◌else◌, update, Run, ok, stop, out_of_range, ◌>>=◌,
  accepted, rejected,
}
use mos_rust.TaskList.{HeaplessVec}
use mos_rust.Kernel.{Kernel}
use mos_rust.Kernel.Sched.{yield_task as kernel_yield}
use mos_rust.Kernel.Task.{create_raw, terminate}

pub record FatTaskHandle : Type 0 where
  pub mos_tid : ℕ
  pub thread_sema : ℕ

-- FAT_HANDLES, and the handles by address
pub record Handles : Type 0 where
  pub slots : ℕ → Option ℕ
  pub store : ℕ → FatTaskHandle

pub get_or_create_fat_handle : Handles → ℕ → ℕ → Run (ℕ × Handles)
get_or_create_fat_handle h tid fresh =
    let made : Handles = record {
      slots = update h.slots tid (some fresh);
      store = update h.store fresh (record { mos_tid = tid; thread_sema = 0 });
    } in
    if ltb tid task_max
    then elim (h.slots tid) [ none ↦ ok (fresh, made) | some address ↦ ok (address, h) ]
    else stop out_of_range

-- The dummy handle stands at the address `dummy`.
pub current_task : Kernel → Handles → ℕ → ℕ → Run (ℕ × Handles)
current_task k h dummy fresh = elim k.current [
  | none ↦ ok (dummy, h)
  | some c ↦ get_or_create_fat_handle h (k.tcbs c).tid fresh
]

module _ ⦃vec : HeaplessVec⦄ where
  pub yield_task : Kernel → Run Kernel
  yield_task k = elim k.current [ none ↦ ok k | some c ↦ kernel_yield k ]

  -- A null pointer is `none`; `block` is the address of the new stack.
  pub task_create : Kernel → Handles → ℕ → ℕ → ℕ → ℕ → ℕ → Run (Option ℕ × Kernel × Handles)
  task_create k h task param task_stack_size block fresh =
      let stack_size = if ltb task_stack_size 4096 then 4096 else task_stack_size in
      let priority = if leb 8192 task_stack_size then 4 else 2 in
      let name = if leb 8192 task_stack_size then "blob/tmr" else "blob/ctrl" in
      create_raw k task param priority name stack_size block >>= λ (made, k1). elim made [
        | rejected e ↦ ok (none, k1, h)
        | accepted slot ↦ get_or_create_fat_handle h (k1.tcbs slot).tid fresh >>= λ (address, h1).
            ok (some address, k1, h1)
      ]

  -- Up to and with the switch of `terminate`.
  pub schedule_task_deletion : Kernel → Handles → Option ℕ → Run Kernel
  schedule_task_deletion k h task_handle = elim task_handle [
    | none ↦ ok k
    | some address ↦
        let tid = (h.store address).mos_tid in if ltb tid task_max then terminate k tid else ok k
  ]

-- The rest of it: the slot is empty again, and the handle is freed.
pub forget_handle : Handles → Option ℕ → Handles
forget_handle h task_handle = elim task_handle [
  | none ↦ h
  | some address ↦
      let tid = (h.store address).mos_tid in
      if ltb tid task_max then record h { slots = update h.slots tid none } else h
]
