-- ===== src/Async.antt =====
-- The executor of futures, core/src/kernel/async_rt.rs: a pool of task slots and a heap of timers.
-- What a future does when it is polled is its own code: the parameter `poll`.
pub mod Timing
pub mod Heap
pub mod Timers
pub mod Expiry
pub mod Wakeup
pub mod Runtime
pub mod Turns
pub mod Rounds
use mos_rust.Config.{async_pool_max}
use mos_rust.Prelude.{
  ℕ, zero, suc, ◌+◌, ◌-◌, ◌*◌, ◌/◌, ◌%◌, ◌^◌, List, [], ◌∷◌, Bool, true, false, Option, none, some,
  not, ◌&&◌, ◌||◌, ltb, leb, ◌==◌, if◌then◌else◌, length, get_elem?, set, Run, ok, stop,
  out_of_range, ◌>>=◌,
}
use mos_rust.Kernel.{u32_mod}
use mos_rust.Queue.{Slot, read_slot}

-- A waker is the number of the slot that it wakes.
pub record TimerEntry : Type 0 where
  pub wake_tick : ℕ
  pub waker : ℕ

pub record TimerQueue : Type 0 where
  pub data_ : List (Slot TimerEntry)
  pub len : ℕ

-- `(a.wrapping_sub(b) as i32) < 0`
unfoldable pub precedes : ℕ → ℕ → Bool
precedes a b = leb (2 ^ 31) ((a + (u32_mod - b)) % u32_mod)

-- The `while` of `sift_up`; the index is at least halved in each round, so it is fuel enough.
pub sift_up : ℕ → List (Slot TimerEntry) → ℕ → Run (List (Slot TimerEntry))
unfolding precedes
sift_up zero d idx = ok d
sift_up (suc fuel) d idx =
    let parent = (idx - 1) / 2 in
    let step = do
      e ← read_slot d idx
      p ← read_slot d parent
      let rest = sift_up fuel (set (set d idx (some p)) parent (some e)) parent
      if precedes e.wake_tick p.wake_tick then rest else ok d
    in if ltb 0 idx then step else ok d

-- One comparison of `sift_down`: `child` if it is in the heap and comes first.
pub smaller : List (Slot TimerEntry) → ℕ → ℕ → ℕ → Run ℕ
unfolding precedes
smaller d len smallest child =
    let compared = do
      s ← read_slot d smallest
      c ← read_slot d child
      ok (if precedes c.wake_tick s.wake_tick then child else smallest)
    in if ltb child len then compared else ok smallest

-- The `loop` of `sift_down`; the index grows in each round but the last and stays below `len`, so
-- `len` rounds are enough.
pub sift_down : ℕ → List (Slot TimerEntry) → ℕ → ℕ → Run (List (Slot TimerEntry))
unfolding smaller
sift_down zero d len idx = ok d
sift_down (suc fuel) d len idx = do
  s1 ← smaller d len idx (2 * idx + 1)
  smallest ← smaller d len s1 (2 * idx + 2)
  e ← read_slot d idx
  s ← read_slot d smallest
  let rest = sift_down fuel (set (set d idx (some s)) smallest (some e)) len smallest
  if smallest == idx then ok d else rest

-- `TimerQueue::push`
pub add : TimerQueue → TimerEntry → Run TimerQueue
unfolding sift_up
add q entry =
    let stored = do
      d ← sift_up q.len (set q.data_ q.len (some entry)) q.len
      ok (record { data_ = d; len = q.len + 1 })
    in if leb async_pool_max q.len then ok q else stored

-- `TimerQueue::pop_front`
pub take_first : TimerQueue → Run (TimerEntry × TimerQueue)
unfolding sift_down
take_first q = do
  top ← read_slot q.data_ 0
  let len = q.len - 1
  let moved = do last ← read_slot q.data_ len; sift_down len (set q.data_ 0 (some last)) len 0
  d ← if ltb 0 len then moved else ok q.data_
  ok (top, record { data_ = d; len = len })

pub record TaskSlot {ℓ} (F : Type ℓ) : Type ℓ where
  pub future : Option F
  pub ready : Bool

unfoldable pub is_free {ℓ} : {F : Type ℓ} → TaskSlot F → Bool
is_free s = elim s.future [ none ↦ true | some f ↦ false ]

module _ {ℓ} {F : Type ℓ} where
  -- `TaskSlot::empty`
  unfoldable pub empty_slot : TaskSlot F
  empty_slot = record { future = none; ready = false }

  unfoldable pub store : F → TaskSlot F → TaskSlot F
  store f s = record s { future = some f; ready = true }

  -- `clear`; what the future's drop does is part of its last poll.
  unfoldable pub clear : TaskSlot F → TaskSlot F
  clear s = record s { future = none; ready = false }

-- TASK_POOL and TIMERS
pub record Executor {ℓ} (F : Type ℓ) : Type ℓ where
  pub pool : List (TaskSlot F)
  pub timers : TimerQueue

module _ {ℓ} {F : Type ℓ} where
  -- `waker_wake_by_ref`
  unfoldable pub wake_slot : Executor F → ℕ → Executor F
  wake_slot x idx = elim (get_elem? x.pool idx) [
    | none ↦ x
    | some s ↦ record x { pool = set x.pool idx (record s { ready = true }) }
  ]

  -- The `while` of `wake_expired`: each round takes one entry off, so `len` rounds are enough.
  pub wake_expired : ℕ → ℕ → Executor F → Run (Executor F)
  wake_expired zero now x = ok x
  wake_expired (suc fuel) now x =
      let woken = λ (top : TimerEntry). (do
        (entry, timers) ← take_first x.timers
        wake_expired fuel now (wake_slot (record x { timers = timers }) entry.waker)) in
      let step = do
        top ← read_slot x.timers.data_ 0
        if precedes now top.wake_tick then ok x else woken top
      in if ltb 0 x.timers.len then step else ok x

  -- The `for` of `spawn` over the rest of the pool.
  unfoldable pub spawn_from : F → List (TaskSlot F) → Bool × List (TaskSlot F)
  unfolding is_free store
  spawn_from f [] = (false, [])
  spawn_from f (s ∷ rest) =
      let (done, after) = spawn_from f rest in
      if is_free s then (true, store f s ∷ rest) else (done, s ∷ after)

  -- The critical section of `spawn`; the executor task is made before it.
  unfoldable pub spawn : Executor F → F → Bool × Executor F
  unfolding spawn_from
  spawn x f = let (done, pool) = spawn_from f x.pool in (done, record x { pool = pool })

  -- A poll of the future in slot `idx` tells whether it is done, what it has become, and what it made
  -- of the executor.
  module _ (poll : ℕ → F → Executor F → Bool × F × Executor F) where
    -- The body of the `for` of `poll_all`, and whether it did work.
    pub poll_slot : ℕ → Executor F → Run (Bool × Executor F)
    unfolding is_free clear
    poll_slot idx x = elim (get_elem? x.pool idx) [
      | none ↦ stop out_of_range
      | some s ↦ elim s.future [
        | none ↦ ok (false, x)
        | some f ↦
            let (done, f1, x1) =
              poll idx f (record x { pool = set x.pool idx (record s { ready = false }) }) in
            let after : Run (Bool × Executor F) = elim (get_elem? x1.pool idx) [
              | none ↦ stop out_of_range
              | some s1 ↦
                  let left = if done then clear s1 else record s1 { future = some f1 } in
                  ok (true, record x1 { pool = set x1.pool idx left })
            ] in
            if not s.ready then ok (false, x) else after
      ]
    ]

    pub poll_from : ℕ → ℕ → Bool → Executor F → Run (Bool × Executor F)
    poll_from zero idx did_work x = ok (did_work, x)
    poll_from (suc n) idx did_work x = do
      (work, x1) ← poll_slot idx x
      poll_from n (suc idx) (did_work || work) x1

    pub poll_all : ℕ → Executor F → Run (Bool × Executor F)
    poll_all now x = do x1 ← wake_expired x.timers.len now x; poll_from async_pool_max 0 false x1

pub record Timer : Type 0 where
  pub wake_tick : ℕ
  pub registered : Bool

-- `(now.wrapping_sub(self.wake_tick) as i32) >= 0`
unfoldable pub has_come : ℕ → Timer → Bool
unfolding precedes
has_come now t = not (precedes now t.wake_tick)

-- `AsyncRuntime::delay`
unfoldable pub delay_for : ℕ → ℕ → Timer
delay_for now ms = record { wake_tick = (now + ms) % u32_mod; registered = false }

-- `Timer::poll` in the slot `waker`: whether it is done.
pub poll_timer : ℕ → ℕ → Timer → TimerQueue → Run (Bool × Timer × TimerQueue)
unfolding has_come add
poll_timer now waker t q =
    let register = do
      q1 ← add q (record { wake_tick = t.wake_tick; waker = waker })
      ok (false, record t { registered = true }, q1)
    in if has_come now t
      then ok (true, t, q)
      else if not t.registered
      then register
      else ok (false, t, q)
