-- ===== src/Async/Expiry.antt =====
-- `TimerQueue::wake_expired`: which timers it takes off, and which tasks it wakes.
use mathlib.Core.List.{Mem, Perm, not-mem-nil, forall_mem-cons}
use mathlib.Core.List.Perm as P
use native.Mathlib.Bridge.{le_prop}
use mos_rust.Prelude.{
  ℕ, zero, suc, ◌≤◌, ◌<◌, ◌≡◌, refl, sym, ap, ◌∙◌, inl, inr, List, [], ◌∷◌, ◌++◌, Bool, true, false,
  Option, none, some, ◌||◌, ltb, ◌==◌, length, get_elem?, set, Run, ok, Bool-cases, Option-cases,
  ==_iff, ne→==_false, ltb→lt, lt→ltb, subst, arith,
}
use mos_rust.Kernel.{u32_mod}
use mos_rust.Queue.{read_slot}
use mos_rust.Async.{
  TimerEntry, TimerQueue, TaskSlot, Executor, precedes, take_first, wake_slot, wake_expired,
}
use mos_rust.Async.Heap.{blank, rank, IsNear, precedes-rank}
use mos_rust.Async.Heap.Slots.{length-perm, read_slot-filled}
use mos_rust.Async.Timers.{IsTimed, Taken, take_first-Taken, first-least}

-- Whether one of the entries wakes slot `idx`.
abbrev pub wakes : ℕ → List TimerEntry → Bool
wakes idx [] = false
wakes idx (t ∷ a) = (t.waker == idx) || wakes idx a

module _ {ℓ} {F : Type ℓ} where
  -- The slot, made ready if `b` says so.
  abbrev pub roused : Bool → Option (TaskSlot F) → Option (TaskSlot F)
  roused b none = none
  roused b (some s) = some (record s { ready = b || s.ready })

  roused-false : (o : Option (TaskSlot F)) → roused false o ≡ o
  roused-false none = refl
  roused-false (some s) = refl

  get_elem?-set :
      (xs : List (TaskSlot F)) (i j : ℕ) (s : TaskSlot F)
      → get_elem? xs i ≡ some s
      → get_elem? (set xs i (record s { ready = true })) j ≡ roused (i == j) (get_elem? xs j)
  get_elem?-set [] i j s h = cc
  get_elem?-set (x ∷ xs) zero zero s h = ground arith
  get_elem?-set (x ∷ xs) zero (suc j) s h =
      rw (ne→==_false 0 (suc j) (omega arith)) (sym (roused-false (get_elem? xs j)))
  get_elem?-set (x ∷ xs) (suc i) zero s h = rw (ne→==_false (suc i) 0 (omega arith)) refl
  get_elem?-set (x ∷ xs) (suc i) (suc j) s h =
      get_elem?-set xs i j s h ∙ ap (λ b. roused b (get_elem? xs j)) (ground arith)

  -- A slot out of range is not there.
  roused-absent :
      (o : ℕ → Option (TaskSlot F)) (w idx : ℕ) → o w ≡ none → o idx ≡ roused (w == idx) (o idx)
  roused-absent o w idx e = elim (Bool-cases (w == idx)) [
    | inl at_w ↦ rw (at_w, ← ((==_iff w idx).0 at_w), e) refl
    | inr other ↦ rw other (sym (roused-false (o idx)))
  ]

  pub wake_slot-roused :
      (x : Executor F) (w idx : ℕ)
      → get_elem? (wake_slot x w).pool idx ≡ roused (w == idx) (get_elem? x.pool idx)
  unfolding wake_slot
  wake_slot-roused x w idx = elim (Option-cases (get_elem? x.pool w)) [
    | inl e ↦ rw (e, wake_slot) (roused-absent (get_elem? x.pool) w idx e)
    | inr (s, e) ↦ rw (e, wake_slot) (get_elem?-set x.pool w idx s e)
  ]

  wake_slot-timers : (x : Executor F) (w : ℕ) → (wake_slot x w).timers ≡ x.timers
  unfolding wake_slot
  wake_slot-timers x w = elim (Option-cases (get_elem? x.pool w)) [
    | inl e ↦ rw (e, wake_slot) refl
    | inr (s, e) ↦ rw (e, wake_slot) refl
  ]

  roused-roused : (b c : Bool) (o : Option (TaskSlot F)) → roused b (roused c o) ≡ roused (c || b) o
  roused-roused b c none = refl
  roused-roused true true (some s) = refl
  roused-roused true false (some s) = refl
  roused-roused false true (some s) = refl
  roused-roused false false (some s) = refl

  -- What `wake_expired` at tick `now` makes of an executor with the timers `a`: it returns, and the
  -- timers `woken` are gone.
  pub record Expired (base now : ℕ) (x : Executor F) (a : List TimerEntry) (r : Run (Executor F))
      : Type ℓ where
    pub after : Executor F
    pub woken : List TimerEntry
    pub left : List TimerEntry
    pub returned : r ≡ ok after
    pub timed : IsTimed base after.timers left
    pub same : Perm (woken ++ left) a
    pub come : (t : TimerEntry) → Mem t woken → rank base t.wake_tick ≤ rank base now
    pub not_yet : (t : TimerEntry) → Mem t left → rank base now < rank base t.wake_tick
    pub slots :
        (idx : ℕ) → get_elem? after.pool idx ≡ roused (wakes idx woken) (get_elem? x.pool idx)

  wake_expired-none :
      (fuel now : ℕ) (x : Executor F) → x.timers.len ≡ 0 → wake_expired fuel now x ≡ ok x
  unfolding wake_expired
  wake_expired-none zero now x h = refl
  wake_expired-none (suc fuel) now x h = rw h refl

  -- One round: the first timer's tick lies ahead, or the timer is taken off and its task woken.
  wake_expired-later :
      (fuel now : ℕ) (x : Executor F) (top : TimerEntry)
      → 0 < x.timers.len
      → read_slot x.timers.data_ 0 ≡ ok top
      → precedes now top.wake_tick ≡ true
      → wake_expired (suc fuel) now x ≡ ok x
  unfolding wake_expired
  wake_expired-later fuel now x top h read e = rw (lt→ltb 0 x.timers.len h, read, e) refl

  wake_expired-step :
      (fuel now : ℕ) (x : Executor F) (top entry : TimerEntry) (timers : TimerQueue)
      → 0 < x.timers.len
      → read_slot x.timers.data_ 0 ≡ ok top
      → precedes now top.wake_tick ≡ false
      → take_first x.timers ≡ ok (entry, timers)
      → wake_expired (suc fuel) now x
        ≡ wake_expired fuel now (wake_slot (record x { timers = timers }) entry.waker)
  unfolding wake_expired
  wake_expired-step fuel now x top entry timers h read e taken =
      rw (lt→ltb 0 x.timers.len h, read, e, taken) refl

  Expired-none :
      (base now fuel : ℕ) (x : Executor F)
      → IsTimed base x.timers []
      → Expired base now x [] (wake_expired fuel now x)
  Expired-none base now fuel x v = record {
    after = x;
    woken = [];
    left = [];
    returned = wake_expired-none fuel now x v.size;
    timed = v;
    same = P.rfl;
    come = λ t m. absurd (not-mem-nil m);
    not_yet = λ t m. absurd (not-mem-nil m);
    slots = λ idx. sym (roused-false (get_elem? x.pool idx));
  }

  -- One timer is woken, and the rest of the rounds wakes the others.
  Expired-cons :
      (base now : ℕ) (x : Executor F) (a : List TimerEntry) (t : Taken base x.timers a)
      {r r' : Run (Executor F)}
      → r' ≡ r
      → rank base t.top.wake_tick ≤ rank base now
      → Expired base now (wake_slot (record x { timers = t.queue }) t.top.waker) t.entries r
      → Expired base now x a r'
  Expired-cons base now x a t step late rest =
      let y = record x { timers = t.queue } in
      record {
        after = rest.after;
        woken = t.top ∷ rest.woken;
        left = rest.left;
        returned = step ∙ rest.returned;
        timed = rest.timed;
        same = P.trans (P.cons t.top rest.same) t.same;
        come = (forall_mem-cons λ u. le_prop).1 (late, rest.come);
        not_yet = rest.not_yet;
        slots = λ idx.
            rest.slots idx
            ∙ ap (roused (wakes idx rest.woken)) (wake_slot-roused y t.top.waker idx)
            ∙ roused-roused (wakes idx rest.woken) (t.top.waker == idx) (get_elem? x.pool idx);
      }

  wake_expired-Expired_fuel :
      (base now fuel : ℕ) (x : Executor F) (a : List TimerEntry)
      → base < u32_mod
      → IsNear base now
      → IsTimed base x.timers a
      → length a ≤ fuel
      → Expired base now x a (wake_expired fuel now x)
  wake_expired-Expired_fuel base now fuel x [] b near v f = Expired-none base now fuel x v
  wake_expired-Expired_fuel base now zero x (e ∷ a) b near v f = absurd (omega arith)
  wake_expired-Expired_fuel base now (suc fuel) x (e ∷ a) b near v f =
      let more : 0 < x.timers.len = omega (arith, v.size) in
      let read : read_slot x.timers.data_ 0 ≡ ok e =
        rw v.stored (read_slot-filled (e ∷ a) v.rest 0 blank (omega arith)) in
      let test = precedes-rank base _ _ b near (v.near 0 (omega arith)) in
      elim (Bool-cases (ltb (rank base now) (rank base e.wake_tick))) [
        | inl ahead ↦ record {
          after = x;
          woken = [];
          left = e ∷ a;
          returned = wake_expired-later fuel now x e more read (test ∙ ahead);
          timed = v;
          same = P.rfl;
          come = λ t m. absurd (not-mem-nil m);
          not_yet = first-least base x.timers (e ∷ a) (suc (rank base now)) v (ltb→lt _ _ ahead);
          slots = λ idx. sym (roused-false (get_elem? x.pool idx));
        }
        | inr come ↦
            let t = take_first-Taken base x.timers e a b v in
            let y = record x { timers = t.queue } in
            let fewer = length-perm t.same in
            Expired-cons base now x (e ∷ a) t
              (wake_expired-step fuel now x e t.top t.queue more read (test ∙ come) t.returned)
              (rw t.first (ground arith))
              (wake_expired-Expired_fuel base now fuel (wake_slot y t.top.waker) t.entries b near
                (subst (λ q. IsTimed base q t.entries) (sym (wake_slot-timers y t.top.waker))
                  t.timed)
                (omega (arith, fewer)))
      ]

  -- Of timers that are a heap by their ticks after `base`, all within 2^31 ticks of it as is `now`,
  -- `wake_expired` takes off exactly those that have come, and makes ready exactly the tasks of
  -- these and those that were ready before. It returns, the other timers are a heap again, and the
  -- slots are otherwise as they were.
  pub wake_expired-Expired :
      (base now : ℕ) (x : Executor F) (a : List TimerEntry)
      → base < u32_mod
      → IsNear base now
      → IsTimed base x.timers a
      → Expired base now x a (wake_expired x.timers.len now x)
  wake_expired-Expired base now x a b near v =
      wake_expired-Expired_fuel base now x.timers.len x a b near v (omega (arith, v.size))
