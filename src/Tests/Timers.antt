-- ===== src/Tests/Timers.antt =====
-- The timers of the executor at concrete inputs, with ticks on both sides of the wrap-around.
use mathlib.Core.List.{Mem, mem-cons_self, mem-cons_of_mem}
use mos_rust.Prelude.{
  List, ℕ, zero, suc, ◌≡◌, refl, [], ◌∷◌, Bool, true, false, ◌==◌, inr, none, some, replicate, ok,
  arith,
}
use mos_rust.Async.Turns.{Kept, HasSlots, Polled, HasSlots-length}
use mos_rust.Async.Rounds.{poll_all-Polled}
use mos_rust.Async.{wake_slot, poll_all, TimerEntry, TimerQueue, Executor, wake_expired}
use mos_rust.Async.Heap.{IsHeap, AllNear}
use mos_rust.Async.Timers.{IsTimed}
use mos_rust.Async.Expiry.{Expired, wake_slot-roused, wake_expired-Expired}

abbrev origin : ℕ
origin = 4294967290

-- Slot 0 waits for tick 4294967295 and slot 1 for ticks 5 and 2, which come after it.
abbrev waiting : List TimerEntry
waiting =
    record { wake_tick = 4294967295; waker = 0 }
    ∷ record { wake_tick = 5; waker = 1 }
    ∷ record { wake_tick = 2; waker = 1 }
    ∷ []

abbrev heap : TimerQueue
heap = record {
  data_ =
      some (record { wake_tick = 4294967295; waker = 0 })
      ∷ some (record { wake_tick = 5; waker = 1 })
      ∷ some (record { wake_tick = 2; waker = 1 })
      ∷ replicate 13 none;
  len = 3;
}

waiting-IsHeap : IsHeap origin waiting
waiting-IsHeap zero p h = omega arith
waiting-IsHeap (suc zero) p h = omega arith
waiting-IsHeap (suc (suc zero)) p h = omega arith
waiting-IsHeap (suc (suc (suc c))) p h = absurd (omega arith)

waiting-AllNear : AllNear origin waiting
waiting-AllNear zero h = omega arith
waiting-AllNear (suc zero) h = omega arith
waiting-AllNear (suc (suc zero)) h = omega arith
waiting-AllNear (suc (suc (suc c))) h = absurd (omega arith)

heap-IsTimed : IsTimed origin heap waiting
heap-IsTimed = record {
  rest = replicate 13 none;
  stored = refl;
  size = refl;
  room = refl;
  heap = waiting-IsHeap;
  near = waiting-AllNear;
}

abbrev sleepy : Executor ℕ
sleepy = record {
  pool = record { future = some 4; ready = false } ∷ record { future = some 7; ready = false } ∷ [];
  timers = heap;
}

-- At tick 3 the timers for 4294967295 and 2 have come.
wake_expired-Expired_example : Expired origin 3 sleepy waiting (wake_expired 3 3 sleepy)
wake_expired-Expired_example =
    wake_expired-Expired origin 3 sleepy waiting (omega arith) (omega arith) heap-IsTimed

-- Every future wakes its own task; 4 is done when it is polled, and the others count up.
abbrev restless : ℕ → ℕ → Executor ℕ → Bool × ℕ × Executor ℕ
restless i f x = (f == 4, suc f, wake_slot x i)

abbrev wakes_only : (i : ℕ) (f : ℕ) (x : Executor ℕ) (j : ℕ) → Kept j x (restless i f x).2
wakes_only i f x j = (i == j, wake_slot-roused x i j)

abbrev pooled : Executor ℕ
pooled = record {
  pool =
      record { future = some 4; ready = false }
      ∷ record { future = some 7; ready = false }
      ∷ replicate 14 (record { future = none; ready = false });
  timers = heap;
}

-- Slot 1 is not ready, but its timer for tick 2 has come at tick 3.
poll_all-Polled_example :
    (x : Executor ℕ) × (poll_all restless 3 pooled ≡ ok (true, x))
    × HasSlots x
    × Polled restless wakes_only 1 7 x
poll_all-Polled_example =
    poll_all-Polled restless wakes_only origin 3 1 pooled waiting 7 false (omega arith)
      (omega arith) heap-IsTimed (HasSlots-length pooled (omega arith)) (omega arith) refl
      (inr (record { wake_tick = 2; waker = 1 }, third, refl, omega arith))
  where
    third : Mem (record { wake_tick = 2; waker = 1 }) waiting
    third = mem-cons_of_mem _ (mem-cons_of_mem _ mem-cons_self)
