-- ===== src/Async/Rounds.antt =====
-- `poll_all`: every task that is ready is polled.
use mathlib.Core.List.{Mem}
use native.Mathlib.Decide.{ℕ_discrete}
use mos_rust.Config.{async_pool_max}
use mos_rust.Prelude.{
  ℕ, zero, suc, ◌+◌, ◌≤◌, ◌<◌, ◌≡◌, refl, ap, subst, ◌∙◌, ◌⊎◌, inl, inr, List, Bool, true, false,
  some, ◌||◌, get_elem?, Run, ok, ◌>>=◌, arith,
}
use mos_rust.Kernel.{u32_mod}
use mos_rust.Async.{TimerEntry, Executor, poll_slot, poll_from, poll_all}
use mos_rust.Async.Heap.{rank, IsNear}
use mos_rust.Async.Timers.{IsTimed}
use mos_rust.Async.Expiry.{wakes, roused, wake_expired-Expired}
use mos_rust.Async.Wakeup.{woken-wakes}
use mos_rust.Async.Turns.{
  Kept, Kept-refl, Kept-trans, HasSlots, Polled, poll_slot-Turn, Polled-kept, Turn-HasSlots,
}

-- A future that is asked wakes tasks, and leaves the slots alone else.
module _ {ℓ} {F : Type ℓ} (poll : ℕ → F → Executor F → Bool × F × Executor F)
    (wakes_only : (i : ℕ) (f : F) (x : Executor F) (j : ℕ) → Kept j x (poll i f x).2) where
  -- The rest of the loop, from slot `idx` on.
  record Swept (idx : ℕ) (did_work : Bool) (x : Executor F) (r : Run (Bool × Executor F))
      : Type ℓ where
    work : Bool
    after : Executor F
    returned : r ≡ ok (work, after)
    slots : HasSlots after
    kept : (j : ℕ) → j < idx → Kept j x after
    worked : did_work ≡ true → work ≡ true
    polled :
        (j : ℕ) (f : F)
        → idx ≤ j
        → j < async_pool_max
        → get_elem? x.pool j ≡ some (record { future = some f; ready = true })
        → (work ≡ true) × Polled poll wakes_only j f after

  poll_from-Swept :
      (n idx : ℕ) (did_work : Bool) (x : Executor F)
      → idx + n ≡ async_pool_max
      → HasSlots x
      → Swept idx did_work x (poll_from poll n idx did_work x)
  unfolding poll_from HasSlots
  poll_from-Swept zero idx did_work x size has = record {
    work = did_work;
    after = x;
    returned = refl;
    slots = has;
    kept = λ j lt. Kept-refl j x;
    worked = λ e. e;
    polled = λ j f lo hi e. absurd (omega arith);
  }
  poll_from-Swept (suc n) idx did_work x size has =
      let (s, here) = has idx (omega arith) in
      let t = poll_slot-Turn poll wakes_only idx x s here in
      let rest =
        poll_from-Swept n (suc idx) (did_work || t.work) t.after (omega arith)
          (Turn-HasSlots poll wakes_only idx x (poll_slot poll idx x) t has) in
      record {
        work = rest.work;
        after = rest.after;
        returned =
            ap (λ r. r >>= λ p. poll_from poll n (suc idx) (did_work || p.0) p.1) t.returned
            ∙ rest.returned;
        slots = rest.slots;
        kept = λ j lt.
            Kept-trans j x t.after rest.after (t.kept j (λ e. absurd (omega arith)))
              (rest.kept j (omega arith));
        worked = λ e. rest.worked (ground (arith, e));
        polled = λ j f lo hi e. elim (ℕ_discrete idx j) [
          | yes same ↦
              let (did, p) = t.polled f (rw same e) in
              (
                rest.worked (ground (arith, did)),
                rw (← same) (
                    Polled-kept poll wakes_only idx f t.after rest.after p
                      (rest.kept idx (omega arith))),
              )
          | no other ↦
              let (b, kept) = t.kept j other in
              let on : b || true ≡ true = ground arith in
              rest.polled j f (omega arith) hi
                (kept ∙ ap (roused b) e ∙ ap (λ c. some (record { future = some f; ready = c })) on)
        ];
      }

  abbrev IsDue : ℕ → ℕ → ℕ → List TimerEntry → Type 0
  IsDue base now j a =
      (t : TimerEntry) × Mem t a × (t.waker ≡ j) × (rank base t.wake_tick ≤ rank base now)

  -- A round of the executor at tick `now` over a full pool and timers that are a heap, where the
  -- polls of futures wake tasks but change no slot else. It returns, the pool is full again, and
  -- the future of every task that was ready, or that a timer that has come waits for, was polled:
  -- if it is done its slot is free, and otherwise the slot holds what the poll made of it.
  pub poll_all-Polled :
      (base now j : ℕ) (x : Executor F) (a : List TimerEntry) (f : F) (was : Bool)
      → base < u32_mod
      → IsNear base now
      → IsTimed base x.timers a
      → HasSlots x
      → j < async_pool_max
      → get_elem? x.pool j ≡ some (record { future = some f; ready = was })
      → (was ≡ true) ⊎ IsDue base now j a
      → (x' : Executor F) × (poll_all poll now x ≡ ok (true, x'))
        × HasSlots x'
        × Polled poll wakes_only j f x'
  unfolding poll_all HasSlots
  poll_all-Polled base now j x a f was b near v has lt here cause =
      let e = wake_expired-Expired base now x a b near v in
      let full : HasSlots e.after = λ i h.
        let (s, at) = has i h in
        (
          record s { ready = wakes i e.woken || s.ready },
          e.slots i ∙ ap (roused (wakes i e.woken)) at,
        ) in
      let s = poll_from-Swept async_pool_max 0 false e.after refl full in
      let on : wakes j e.woken || was ≡ true = elim cause [
        | inl ready_ ↦ rw ready_ (ground arith)
        | inr (t, m, mine, come) ↦
            let woken : wakes j e.woken ≡ true =
              subst (λ i. wakes i e.woken ≡ true) mine (woken-wakes t e m come) in
            rw woken refl
      ] in
      let awake : get_elem? e.after.pool j ≡ some (record { future = some f; ready = true }) =
        e.slots j
        ∙ ap (roused (wakes j e.woken)) here
        ∙ ap (λ c. some (record { future = some f; ready = c })) on in
      let (did, p) = s.polled j f (omega arith) lt awake in
      (
        s.after,
        ap (λ r. r >>= λ y. poll_from poll async_pool_max 0 false y) e.returned
            ∙ s.returned
            ∙ ap (λ w. ok (w, s.after)) did,
        s.slots,
        p,
      )
