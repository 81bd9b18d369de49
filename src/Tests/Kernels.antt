-- ===== src/Tests/Kernels.antt =====
-- The kernel at concrete inputs.
use native.Mathlib.Decide.{dec_lt}
use mos_rust.Config.{task_max}
use mos_rust.Prelude.{
  ◌≤◌, ◌⊎◌, ℕ, zero, suc, ◌<◌, ◌≡◌, ◌≢◌, ◌⊎◌, inl, inr, refl, [], ◌∷◌, true, some, update, ◌==◌,
  if◌then◌else◌, count, ok, arith,
}
use mos_rust.Prelude.Bits.{bit, test_bit, test_bit_lem}
use mos_rust.Kernel.{terminated, ready, running, blocked, Tcb, Kernel, empty_tcb}
use mos_rust.Kernel.Invariant.{IsValid}
use mos_rust.Kernel.Sched.{wake_up_sleepers}
use mos_rust.Kernel.Sched.Wake.{Woken, wake_up_sleepers-Woken}
use mos_rust.Kernel.Sched.Switch.{Elected, Switched, next_tcb-Switched}
use mos_rust.Kernel.Sched.Rotate.{TakesTurns, switches, switches-TakesTurns}
use mos_rust.Kernel.Task.{block, resume, delay, terminate, exit_current}
use mos_rust.Kernel.Task.Block.{IsLive, block-Elected, resume-Elected}
use mos_rust.Kernel.Task.Delay.{delay-Elected}
use mos_rust.Kernel.Task.End.{Ended, terminate-Ended, exit_current-Ended}
use mos_rust.Sync.Mutex.{lock}
use mos_rust.Sync.Mutex.Inherit
use mos_rust.Sync.Mutex.Inherit.{taken, lock-Waits}
use mos_rust.Sync.Sema.{Sema, down, up}
use mos_rust.Sync.Sema.Waits.{waiting, Waits, down-Waits}
use mos_rust.Sync.Sema.Wakes.{Released, up-Waits}
use mos_rust.Trap.{catch_up}
use mos_rust.Trap.Ticks.{catch_up-os_ticks}
use mos_rust.TaskList.{front}
use mos_rust.Tests.Vector.{reference_vec}

-- Task 0 idles at the lowest priority, 1 runs, 2 is ready behind it, 3 sleeps until tick 5, 4
-- is blocked, 5 waits for a semaphore.
abbrev tasks : ℕ → Tcb
tasks t =
    if t == 0
    then record (empty_tcb 0) { status = ready; priority = 127 }
    else if t == 1
    then record (empty_tcb 1) { status = running; priority = 10 }
    else if t == 2
    then record (empty_tcb 2) { status = ready; priority = 10 }
    else if t == 3
    then record (empty_tcb 3) { status = blocked; priority = 5; wake_point = 5 }
    else if t == 4
    then record (empty_tcb 4) { status = blocked; priority = 5 }
    else if t == 5
    then record (empty_tcb 5) { status = blocked; priority = 3 }
    else empty_tcb t

abbrev pub live : Kernel
live = record {
  tcbs = tasks;
  stacks = λ t. [];
  heap = λ a. [];
  ready_list = 1 ∷ 2 ∷ 0 ∷ [];
  blocked_list = 4 ∷ [];
  sleeping_list = 3 ∷ [];
  os_ticks = 5;
  tid_bitmap = 63;
  current = some 1;
  sched_ready = true;
  layout = record { stack_base = λ t. 0; closure_trampoline = 0; task_exit_stub = 0 };
}

bits_set : (t : ℕ) → t < 6 → bit t 63 ≡ 1
bits_set zero h = refl
bits_set (suc zero) h = refl
bits_set (suc (suc zero)) h = refl
bits_set (suc (suc (suc zero))) h = refl
bits_set (suc (suc (suc (suc zero)))) h = refl
bits_set (suc (suc (suc (suc (suc zero))))) h = refl
bits_set (suc (suc (suc (suc (suc (suc t)))))) h = absurd (omega arith)

pub live-used : (t : ℕ) → t < task_max → ((tasks t).status ≡ terminated) ⊎ (test_bit 63 t ≡ true)
live-used t h = elim (dec_lt t 6) [
  | yes lt ↦ inr (rw (test_bit_lem 63 t, bits_set t lt) refl)
  | no ge ↦ inl (ground arith)
]

pub live-IsValid : IsValid live
live-IsValid = record {
  once = λ t. ground arith;
  small = λ t h. ground arith;
  runs = λ t h. ground arith;
  waits = λ t h. ground arith;
  used = live-used;
  owned = λ t. inr (ground arith);
  here = λ c e. ground arith;
  by_priority = ground arith;
  by_wake = ground arith;
}

wake_up_sleepers-Woken_example : Woken 5 live [] (3 ∷ []) (wake_up_sleepers live)
wake_up_sleepers-Woken_example = wake_up_sleepers-Woken live live-IsValid

next_tcb-Switched_example : (k' : Kernel) × (st : ℕ) × Switched live-IsValid 1 refl k' st
next_tcb-Switched_example = next_tcb-Switched live-IsValid 1 refl 2 (omega arith)

block-Elected_example :
    (k' : Kernel) × (st : ℕ) × (block live 1 ≡ ok k')
    × Elected k' st
    × (k'.blocked_list ≡ 4 ∷ 1 ∷ [])
    × (count 1 k'.ready_list ≡ 0)
    × (st ≢ 1)
block-Elected_example =
    block-Elected 1 1 2 (record { valid = live-IsValid; runs_now = refl; started = refl })
      (omega arith) refl (omega arith) (omega arith)

pub live-IsLive : IsLive live 1
live-IsLive = record { valid = live-IsValid; runs_now = refl; started = refl }

resume-Elected_example :
    (k' : Kernel) × (resume live 4 ≡ ok k')
    × IsValid k'
    × (count 4 k'.blocked_list ≡ 0)
    × (count 4 k'.ready_list ≡ 1)
    × (((10 ≤ 5) × (k'.current ≡ some 1))
        ⊎ ((5 < 10) × ((st : ℕ) × Elected k' st × ((k'.tcbs st).priority ≤ 5))))
resume-Elected_example = resume-Elected 1 4 live-IsLive (omega arith)

delay-Elected_example :
    (k' : Kernel) × (st : ℕ) × (delay live 7 ≡ ok k')
    × Elected k' st
    × (count 1 k'.sleeping_list ≡ 1)
    × (count 1 k'.ready_list ≡ 0)
delay-Elected_example =
    delay-Elected 1 6 2 live-IsLive refl (omega arith) (omega arith) (omega arith) (omega arith)

-- The delay of 2^32 - 1 ticks from tick 5 on wraps.
delay_wraps :
    (k' : Kernel) × (st : ℕ) × (delay live 4294967295 ≡ ok k')
    × Elected k' st
    × (count 1 k'.sleeping_list ≡ 0)
    × (count 1 k'.ready_list ≡ 1)
delay_wraps =
    delay-Elected 1 4294967294 2 live-IsLive refl (omega arith) (omega arith) (omega arith)
      (omega arith)

terminate-Ended_example : Ended 4 (terminate live 4)
terminate-Ended_example =
    terminate-Ended 1 4 2 live-IsLive (omega arith) (λ p. cc) (omega arith) (omega arith)

exit_current-Ended_example : Ended 1 (exit_current live)
exit_current-Ended_example = exit_current-Ended 1 2 live-IsLive refl (omega arith) (omega arith)

-- The count is -1.
abbrev one_waits : Sema
one_waits = record { count = 4294967295; wait_queue = 5 ∷ [] }

one_waits-Waits : Waits live one_waits
one_waits-Waits = record {
  fits = omega arith;
  balance = refl;
  asleep = λ t h. ground arith;
  once = λ t. ground arith;
  small = λ t h. ground arith;
  by_priority = ground arith;
}

down-Waits_example :
    (k' : Kernel) × (s' : Sema) × (down live one_waits ≡ ok (k', s'))
    × IsValid k'
    × Waits k' s'
    × (((0 < 4294967295) × (k' ≡ live) × (s' ≡ record one_waits { count = 4294967294 }))
        ⊎ ((st : ℕ) × Elected k' st × (waiting s'.count ≡ 2) × (count 1 s'.wait_queue ≡ 1)))
down-Waits_example = down-Waits 1 2 live-IsLive refl one_waits-Waits (omega arith) (omega arith)

up-Waits_example :
    (k' : Kernel) × (s' : Sema) × (up live one_waits ≡ ok (k', s'))
    × IsValid k'
    × Waits k' s'
    × Released live one_waits k' s'
up-Waits_example = up-Waits one_waits 1 live-IsLive one_waits-Waits (omega arith)

pub live-Elected : Elected live 1
unfolding front
live-Elected = record {
  valid = live-IsValid;
  runs_now = refl;
  first = refl;
  fit = refl;
  highest = omega arith;
}

catch_up-os_ticks_example :
    (r' : ℕ) × (k' : Kernel) × (catch_up 3 0 live ≡ ok (r', k')) × IsLive k' 1 × (k'.os_ticks ≡ 8)
catch_up-os_ticks_example = catch_up-os_ticks 3 0 1 live-IsLive (omega arith)

-- Nobody sleeps: task 1 runs, task 2 is ready at its priority, the idle task below them.
abbrev awake : Kernel
awake = record live { sleeping_list = [] }

awake-TakesTurns : TakesTurns awake 1 (2 ∷ []) (0 ∷ [])
awake-TakesTurns = record {
  valid = record {
    once = λ t. ground arith;
    small = λ t h. ground arith;
    runs = λ t h. ground arith;
    waits = λ t h. ground arith;
    used = live-used;
    owned = λ t. inr (ground arith);
    here = λ c e. ground arith;
    by_priority = ground arith;
    by_wake = tt;
  };
  runs_now = refl;
  status = refl;
  nobody_sleeps = refl;
  list = refl;
  same = λ u h. ground arith;
  less = λ u h. ground arith;
}

switches-TakesTurns_example :
    (k' : Kernel) × (switches 1 awake ≡ ok k') × TakesTurns k' 2 (1 ∷ []) (0 ∷ [])
switches-TakesTurns_example = switches-TakesTurns [] awake 1 2 [] (0 ∷ []) awake-TakesTurns

-- Task 5, of priority 3, asks for the mutex that task 2, of priority 10, holds.
abbrev urgent : Kernel
urgent = record live {
  tcbs = update tasks 5 (record (tasks 5) { status = running });
  ready_list = 5 ∷ 1 ∷ 2 ∷ 0 ∷ [];
  current = some 5;
}

urgent-IsLive : IsLive urgent 5
urgent-IsLive = record {
  valid = record {
    once = λ t. ground arith;
    small = λ t h. ground arith;
    runs = λ t h. ground arith;
    waits = λ t h. ground arith;
    used = λ t h. ground (arith, live-used t h);
    owned = λ t. inr (ground arith);
    here = λ c e. ground arith;
    by_priority = ground arith;
    by_wake = ground arith;
  };
  runs_now = refl;
  started = refl;
}

lock-Waits_example : Inherit.Waits urgent 5 2 [] (lock urgent (taken 2 1 []))
lock-Waits_example =
    lock-Waits 5 2 1 [] urgent-IsLive refl (omega arith) refl (omega arith) (omega arith)
