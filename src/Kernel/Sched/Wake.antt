-- ===== src/Kernel/Sched/Wake.antt =====
-- `wake_up_sleepers` of core/src/kernel/sched.rs: which sleepers it wakes, and that its loop ends.
use mos_rust.Config.{task_max}
use mos_rust.Prelude.{
  ℕ, zero, suc, ◌+◌, ◌≤◌, ◌<◌, ◌≡◌, refl, sym, ap, ◌∙◌, inl, inr, List, [], ◌∷◌, ◌++◌, Bool, true,
  false, none, some, ltb, leb, ◌==◌, ◌&&◌, if◌then◌else◌, length, get_elem?, count, erase,
  count-append, count-insert_before, arith, Bool-cases, length-append,
}
use mathlib.Core.List.{append_assoc}
use mos_rust.TaskList.{HeaplessVec}
use mos_rust.TaskList.Laws.{remove_lem}
use mos_rust.Kernel.{ready, Kernel, set_status, set_wake_point, sleeping_remove}
use mos_rust.Kernel.Invariant.{IsValid, listed}
use mos_rust.Kernel.Invariant.Moves.{
  set_status-IsValid, set_wake_point-IsValid, sleeping_remove-IsValid, sleeping_remove-listed,
  ready_insert-IsValid, ready_insert_lem,
}
use mos_rust.Kernel.Sched.{wake, wake_loop, wake_up_sleepers}

-- `t` is in the list, and its wake point has come.
abbrev pub expires : ℕ → Kernel → List ℕ → ℕ → Bool
expires now k l t = ltb 0 (count t l) && leb (k.tcbs t).wake_point now

-- The sleepers that sleep on.
abbrev pub sleep_on : ℕ → Kernel → List ℕ → List ℕ
sleep_on now k [] = []
sleep_on now k (x ∷ l) =
    if leb (k.tcbs x).wake_point now then sleep_on now k l else x ∷ sleep_on now k l

pub count-sleep_on :
    (now : ℕ) (k : Kernel) (t : ℕ) (l : List ℕ)
    → count t (sleep_on now k l) ≡ (if leb (k.tcbs t).wake_point now then 0 else count t l)
count-sleep_on now k t [] = ground arith
count-sleep_on now k t (x ∷ l) = ground (arith, count-sleep_on now k t l)

-- What the loop has made of `k` when it has gone past `done` and through `rest`.
pub record Woken (now : ℕ) (k : Kernel) (done rest : List ℕ) (k' : Kernel) : Type 0 where
  pub valid : IsValid k'
  pub sleepers : k'.sleeping_list ≡ done ++ sleep_on now k rest
  pub tcb :
      (t : ℕ)
      → k'.tcbs t ≡ (
          if expires now k rest t
          then record (k.tcbs t) { status = ready; wake_point = 0 }
          else k.tcbs t)
  pub ready_count :
      (t : ℕ)
      → count t k'.ready_list ≡ count t k.ready_list + (if expires now k rest t then 1 else 0)
  pub same_blocked : k'.blocked_list ≡ k.blocked_list
  pub same_current : k'.current ≡ k.current
  pub same_ticks : k'.os_ticks ≡ k.os_ticks
  pub same_bitmap : k'.tid_bitmap ≡ k.tid_bitmap
  pub same_started : k'.sched_ready ≡ k.sched_ready
  pub same_stacks : k'.stacks ≡ k.stacks

erase_between :
    (done rest : List ℕ) (x : ℕ) → count x done ≡ 0 → erase (done ++ x ∷ rest) x ≡ done ++ rest
erase_between [] rest x h = ground arith
erase_between (y ∷ done) rest x h = ground (arith, erase_between done rest x)

elem_between : (done rest : List ℕ) (x : ℕ) → get_elem? (done ++ x ∷ rest) (length done) ≡ some x
elem_between [] rest x = refl
elem_between (y ∷ done) rest x = elem_between done rest x

elem_past : (done : List ℕ) → get_elem? (done ++ []) (length done) ≡ none
elem_past [] = refl
elem_past (y ∷ done) = elem_past done

sleep_on-agree :
    (now : ℕ) (k j : Kernel) (l : List ℕ)
    → ((t : ℕ) → 0 < count t l → (k.tcbs t).wake_point ≡ (j.tcbs t).wake_point)
    → sleep_on now k l ≡ sleep_on now j l
sleep_on-agree now k j [] e = refl
sleep_on-agree now k j (x ∷ l) e =
    ground (arith, e x, sleep_on-agree now k j l (λ t h. e t (ground arith)))

module _ ⦃vec : HeaplessVec⦄ where
  -- One sleeper woken.
  record WokeOne (k : Kernel) (done rest : List ℕ) (x : ℕ) (k' : Kernel) : Type 0 where
    valid : IsValid k'
    sleepers : k'.sleeping_list ≡ done ++ rest
    tcb :
        (t : ℕ)
        → k'.tcbs t
          ≡ (if x == t then record (k.tcbs t) { status = ready; wake_point = 0 } else k.tcbs t)
    ready_count : (t : ℕ) → count t k'.ready_list ≡ count t k.ready_list + (if x == t then 1 else 0)
    same_blocked : k'.blocked_list ≡ k.blocked_list
    same_current : k'.current ≡ k.current
    same_ticks : k'.os_ticks ≡ k.os_ticks
    same_bitmap : k'.tid_bitmap ≡ k.tid_bitmap
    same_started : k'.sched_ready ≡ k.sched_ready
    same_stacks : k'.stacks ≡ k.stacks

  module _ (k : Kernel) (done rest : List ℕ) (x : ℕ) (v : IsValid k)
      (e : k.sleeping_list ≡ done ++ x ∷ rest) where
    once_here : (count x done ≡ 0) × (count x rest ≡ 0) × (0 < count x k.sleeping_list)
    once_here = ground (arith, v.once x, ap (count x) e, count-append x done (x ∷ rest))

    abbrev asleep : Kernel
    asleep = sleeping_remove k x

    abbrev roused : Kernel
    roused = set_wake_point (set_status asleep x ready) x 0

    absent : listed asleep x ≡ 0
    absent = sleeping_remove-listed v x once_here.2

    in_range : x < task_max
    in_range = ground (arith, v.small x, once_here.2)

    roused-IsValid : IsValid roused
    roused-IsValid =
        let was = v.waits x (omega (arith, once_here.2)) in
        let one =
          set_status-IsValid (sleeping_remove-IsValid v x) x ready (λ p. cc) (λ p. cc) (λ h. refl)
            (λ h. absurd (omega (arith, absent))) in
        set_wake_point-IsValid one x 0 (omega (arith, absent))

    wake-WokeOne : WokeOne k done rest x (wake k x)
    unfolding wake
    wake-WokeOne = record {
      valid = ready_insert-IsValid roused-IsValid x in_range absent (ground arith);
      sleepers = remove_lem k.sleeping_list x ∙ rw e (erase_between done rest x once_here.0);
      tcb = λ t. ground arith;
      ready_count = λ t.
          rw
            (ap (λ j. j.ready_list)
              (ready_insert_lem roused-IsValid x in_range absent (roused.tcbs x).priority))
            (count-insert_before t x (λ c. ltb (roused.tcbs x).priority (roused.tcbs c).priority)
              k.ready_list);
      same_blocked = refl;
      same_current = refl;
      same_ticks = refl;
      same_bitmap = refl;
      same_started = refl;
      same_stacks = refl;
    }

  -- The loop goes on after a sleeper was woken, or was left where it is.
  Woken-after_wake :
      (now : ℕ) (k : Kernel) (done rest : List ℕ) (x : ℕ) (k1 k' : Kernel)
      → leb (k.tcbs x).wake_point now ≡ true
      → (count x done ≡ 0) × (count x rest ≡ 0)
      → WokeOne k done rest x k1
      → Woken now k1 done rest k'
      → Woken now k done (x ∷ rest) k'
  Woken-after_wake now k done rest x k1 k' due fresh one w =
      let agree : sleep_on now k rest ≡ sleep_on now k1 rest =
        sleep_on-agree now k k1 rest (λ t h. ground (arith, one.tcb t, fresh.1)) in
      record {
        valid = w.valid;
        sleepers = w.sleepers ∙ ap (◌++◌ done) (rw due (sym agree));
        tcb = λ t. ground (arith, w.tcb t, one.tcb t, fresh.1);
        ready_count = λ t. ground (arith, w.ready_count t, one.ready_count t, one.tcb t, fresh.1);
        same_blocked = w.same_blocked ∙ one.same_blocked;
        same_current = w.same_current ∙ one.same_current;
        same_ticks = w.same_ticks ∙ one.same_ticks;
        same_bitmap = w.same_bitmap ∙ one.same_bitmap;
        same_started = w.same_started ∙ one.same_started;
        same_stacks = w.same_stacks ∙ one.same_stacks;
      }

  Woken-after_skip :
      (now : ℕ) (k : Kernel) (done rest : List ℕ) (x : ℕ) (k' : Kernel)
      → leb (k.tcbs x).wake_point now ≡ false
      → Woken now k (done ++ x ∷ []) rest k'
      → Woken now k done (x ∷ rest) k'
  Woken-after_skip now k done rest x k' later w = record {
    valid = w.valid;
    sleepers = w.sleepers ∙ append_assoc done (x ∷ []) (sleep_on now k rest) ∙ rw later refl;
    tcb = λ t. ground (arith, w.tcb t);
    ready_count = λ t. ground (arith, w.ready_count t);
    same_blocked = w.same_blocked;
    same_current = w.same_current;
    same_ticks = w.same_ticks;
    same_bitmap = w.same_bitmap;
    same_started = w.same_started;
    same_stacks = w.same_stacks;
  }

  nothing_left :
      (now : ℕ) (k : Kernel) (done : List ℕ)
      → IsValid k
      → k.sleeping_list ≡ done ++ []
      → Woken now k done [] k
  nothing_left now k done v e = record {
    valid = v;
    sleepers = e;
    tcb = λ t. ground arith;
    ready_count = λ t. ground arith;
    same_blocked = refl;
    same_current = refl;
    same_ticks = refl;
    same_bitmap = refl;
    same_started = refl;
    same_stacks = refl;
  }

  wake_loop-Woken :
      (rest done : List ℕ) (fuel now i : ℕ) (k : Kernel)
      → IsValid k
      → k.sleeping_list ≡ done ++ rest
      → length rest ≤ fuel
      → i ≡ length done
      → Woken now k done rest (wake_loop fuel now i k)
  unfolding wake_loop
  wake_loop-Woken [] done zero now i k v e enough at = nothing_left now k done v e
  wake_loop-Woken [] done (suc fuel) now i k v e enough at =
      let past : get_elem? k.sleeping_list i ≡ none = rw (e, at) (elem_past done) in
      rw (past, wake_loop) (nothing_left now k done v e)
  wake_loop-Woken (x ∷ rest) done zero now i k v e enough at = absurd (omega arith)
  wake_loop-Woken (x ∷ rest) done (suc fuel) now i k v e enough at =
      let here : get_elem? k.sleeping_list i ≡ some x = rw (e, at) (elem_between done rest x) in
      let fresh = once_here k done rest x v e in
      elim (Bool-cases (leb (k.tcbs x).wake_point now)) [
        | inl due ↦
            let one = wake-WokeOne k done rest x v e in
            rw (here, wake_loop, due)
              (Woken-after_wake now k done rest x (wake k x) _ due (fresh.0, fresh.1) one
                (wake_loop-Woken rest done fuel now i (wake k x) one.valid one.sleepers
                  (omega arith) at))
        | inr later ↦
            rw (here, wake_loop, later)
              (Woken-after_skip now k done rest x _ later (
                wake_loop-Woken rest (done ++ x ∷ []) fuel now (i + 1) k v
                  (e ∙ sym (append_assoc done (x ∷ []) rest)) (omega arith)
                  (omega (arith, length-append done (x ∷ [])))))
      ]

  -- In a valid kernel `wake_up_sleepers` takes exactly the sleepers whose wake point is not after
  -- the current tick off the sleeping list, makes each of them ready with its wake point cleared,
  -- adds each to the ready list once, leaves every other task and both other lists' entries as
  -- they were, and keeps the invariant.
  pub wake_up_sleepers-Woken :
      (k : Kernel) → IsValid k → Woken k.os_ticks k [] k.sleeping_list (wake_up_sleepers k)
  unfolding wake_up_sleepers
  wake_up_sleepers-Woken k v =
      wake_loop-Woken k.sleeping_list [] (length k.sleeping_list) k.os_ticks 0 k v refl
        (omega arith) refl
