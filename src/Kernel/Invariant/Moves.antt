-- ===== src/Kernel/Invariant/Moves.antt =====
-- The single assignments and list calls from which every kernel call is built keep the invariant,
-- each where its call makes sense.
use mos_rust.Config.{task_max}
use mos_rust.Prelude.{
  ℕ, ◌<◌, ◌≡◌, ◌≢◌, refl, [], ◌∷◌, ◌++◌, true, some, ltb, length, count, insert_before,
  IsSortedBy-agree, count-erase, count-insert_before, count-append, erase-IsSortedBy,
  insert_before-IsSortedBy, length-lt_of_missing, arith,
}
use mos_rust.TaskList.{HeaplessVec}
use mos_rust.TaskList.Laws.{remove_lem, insert_in_order_lem, push_back_lem}
use mos_rust.Kernel.{
  TaskStatus, terminated, blocked, Kernel, set_status, set_wake_point, set_time_slice, ready_remove,
  blocked_remove, sleeping_remove, ready_insert, sleeping_insert, blocked_push,
}
use mos_rust.Kernel.Invariant.{IsValid, is_runnable, parked, listed}

module _ {k : Kernel} (v : IsValid k) where
  open v use {once, small, runs, waits, used, owned, here, by_priority, by_wake}

  -- The status of a task may change to one that suits the list that it is in.
  pub set_status-IsValid :
      (t : ℕ) (s : TaskStatus)
      → s ≢ terminated
      → (k.tcbs t).status ≢ terminated
      → (0 < count t k.ready_list → is_runnable s ≡ true)
      → (0 < parked k t → s ≡ blocked)
      → IsValid (set_status k t s)
  set_status-IsValid t s live was fits waiting = record {
    once = once;
    small = small;
    runs = λ u h. ground (arith, runs u h, fits);
    waits = λ u h. ground (arith, waits u h, waiting);
    used = λ u h. ground (arith, used u h);
    owned = λ u. ground (arith, owned u);
    here = λ c e. ground (arith, here c e);
    by_priority = IsSortedBy-agree _ _ k.ready_list (λ u h. ground arith) by_priority;
    by_wake = IsSortedBy-agree _ _ k.sleeping_list (λ u h. ground arith) by_wake;
  }

  pub set_wake_point-IsValid :
      (t w : ℕ) → count t k.sleeping_list ≡ 0 → IsValid (set_wake_point k t w)
  set_wake_point-IsValid t w absent = record {
    once = once;
    small = small;
    runs = λ u h. ground (arith, runs u h);
    waits = λ u h. ground (arith, waits u h);
    used = λ u h. ground (arith, used u h);
    owned = λ u. ground (arith, owned u);
    here = λ c e. ground (arith, here c e);
    by_priority = IsSortedBy-agree _ _ k.ready_list (λ u h. ground arith) by_priority;
    by_wake = IsSortedBy-agree _ _ k.sleeping_list (λ u h. ground arith) by_wake;
  }

  pub set_time_slice-IsValid : (t n : ℕ) → IsValid (set_time_slice k t n)
  set_time_slice-IsValid t n = record {
    once = once;
    small = small;
    runs = λ u h. ground (arith, runs u h);
    waits = λ u h. ground (arith, waits u h);
    used = λ u h. ground (arith, used u h);
    owned = λ u. ground (arith, owned u);
    here = λ c e. ground (arith, here c e);
    by_priority = IsSortedBy-agree _ _ k.ready_list (λ u h. ground arith) by_priority;
    by_wake = IsSortedBy-agree _ _ k.sleeping_list (λ u h. ground arith) by_wake;
  }

  pub current-IsValid :
      (c : ℕ) → (k.tcbs c).tid ≡ c → c < task_max → IsValid (record k { current = some c })
  current-IsValid c own lt = record {
    once = once;
    small = small;
    runs = runs;
    waits = waits;
    used = used;
    owned = owned;
    here = λ d e. ground arith;
    by_priority = by_priority;
    by_wake = by_wake;
  }

  -- A list that holds each id once, below TASK_MAX, and not `t`, has room for `t`.
  pub ready_room :
      (t : ℕ) → t < task_max → count t k.ready_list ≡ 0 → length k.ready_list < task_max
  ready_room t lt absent =
      length-lt_of_missing task_max t k.ready_list (λ u. omega (arith, once u))
        (λ u h. omega (arith, small u h)) lt absent

  pub blocked_room :
      (t : ℕ) → t < task_max → count t k.blocked_list ≡ 0 → length k.blocked_list < task_max
  blocked_room t lt absent =
      length-lt_of_missing task_max t k.blocked_list (λ u. omega (arith, once u))
        (λ u h. omega (arith, small u h)) lt absent

  pub sleeping_room :
      (t : ℕ) → t < task_max → count t k.sleeping_list ≡ 0 → length k.sleeping_list < task_max
  sleeping_room t lt absent =
      length-lt_of_missing task_max t k.sleeping_list (λ u. omega (arith, once u))
        (λ u h. omega (arith, small u h)) lt absent

  module _ ⦃vec : HeaplessVec⦄ where
    pub ready_remove-IsValid : (t : ℕ) → IsValid (ready_remove k t)
    ready_remove-IsValid t = rw (remove_lem k.ready_list t) (record {
      once = λ u. omega (arith, once u, count-erase u t k.ready_list);
      small = λ u h. omega (arith, small u h, count-erase u t k.ready_list);
      runs = λ u h. runs u (omega (arith, count-erase u t k.ready_list));
      waits = waits;
      used = used;
      owned = owned;
      here = here;
      by_priority = erase-IsSortedBy _ t k.ready_list by_priority;
      by_wake = by_wake;
    })

    pub blocked_remove-IsValid : (t : ℕ) → IsValid (blocked_remove k t)
    blocked_remove-IsValid t = rw (remove_lem k.blocked_list t) (record {
      once = λ u. omega (arith, once u, count-erase u t k.blocked_list);
      small = λ u h. omega (arith, small u h, count-erase u t k.blocked_list);
      runs = runs;
      waits = λ u h. waits u (omega (arith, count-erase u t k.blocked_list));
      used = used;
      owned = owned;
      here = here;
      by_priority = by_priority;
      by_wake = by_wake;
    })

    pub sleeping_remove-IsValid : (t : ℕ) → IsValid (sleeping_remove k t)
    sleeping_remove-IsValid t = rw (remove_lem k.sleeping_list t) (record {
      once = λ u. omega (arith, once u, count-erase u t k.sleeping_list);
      small = λ u h. omega (arith, small u h, count-erase u t k.sleeping_list);
      runs = runs;
      waits = λ u h. waits u (omega (arith, count-erase u t k.sleeping_list));
      used = used;
      owned = owned;
      here = here;
      by_priority = by_priority;
      by_wake = erase-IsSortedBy _ t k.sleeping_list by_wake;
    })

    -- A task that is taken off a list is in no list.
    pub sleeping_remove-listed :
        (t : ℕ) → 0 < count t k.sleeping_list → listed (sleeping_remove k t) t ≡ 0
    sleeping_remove-listed t h =
        rw (remove_lem k.sleeping_list t) (ground (arith, once t, count-erase t t k.sleeping_list))

    pub blocked_remove-listed :
        (t : ℕ) → 0 < count t k.blocked_list → listed (blocked_remove k t) t ≡ 0
    blocked_remove-listed t h =
        rw (remove_lem k.blocked_list t) (ground (arith, once t, count-erase t t k.blocked_list))

    -- Taking a task that is not parked off the ready list leaves it in no list.
    pub ready_remove-listed : (t : ℕ) → parked k t ≡ 0 → listed (ready_remove k t) t ≡ 0
    ready_remove-listed t h =
        rw (remove_lem k.ready_list t) (ground (arith, once t, count-erase t t k.ready_list))

    module _ (t : ℕ) (lt : t < task_max) (free : listed k t ≡ 0) where
      pub ready_insert_lem :
          (p : ℕ)
          → ready_insert k t p ≡ record k {
            ready_list = insert_before (λ c. ltb p (k.tcbs c).priority) t k.ready_list;
          }
      ready_insert_lem p =
          rw
            (insert_in_order_lem k.ready_list t (λ c. ltb p (k.tcbs c).priority)
              (ready_room t lt (omega arith)))
            refl

      pub ready_insert-IsValid :
          is_runnable (k.tcbs t).status ≡ true → IsValid (ready_insert k t (k.tcbs t).priority)
      ready_insert-IsValid run =
          let p = λ (c : ℕ). ltb (k.tcbs t).priority (k.tcbs c).priority in
          rw (ready_insert_lem (k.tcbs t).priority) (record {
            once = λ u. ground (arith, once u, count-insert_before u t p k.ready_list);
            small = λ u h. ground (arith, small u h, count-insert_before u t p k.ready_list);
            runs = λ u h. ground (arith, runs u, count-insert_before u t p k.ready_list);
            waits = waits;
            used = used;
            owned = owned;
            here = here;
            by_priority =
                insert_before-IsSortedBy (λ c. (k.tcbs c).priority) t k.ready_list by_priority;
            by_wake = by_wake;
          })

      pub sleeping_insert_lem :
          (w : ℕ)
          → sleeping_insert k t w ≡ record k {
            sleeping_list = insert_before (λ c. ltb w (k.tcbs c).wake_point) t k.sleeping_list;
          }
      sleeping_insert_lem w =
          rw
            (insert_in_order_lem k.sleeping_list t (λ c. ltb w (k.tcbs c).wake_point)
              (sleeping_room t lt (omega arith)))
            refl

      pub sleeping_insert-IsValid :
          (k.tcbs t).status ≡ blocked → IsValid (sleeping_insert k t (k.tcbs t).wake_point)
      sleeping_insert-IsValid wait =
          let p = λ (c : ℕ). ltb (k.tcbs t).wake_point (k.tcbs c).wake_point in
          rw (sleeping_insert_lem (k.tcbs t).wake_point) (record {
            once = λ u. ground (arith, once u, count-insert_before u t p k.sleeping_list);
            small = λ u h. ground (arith, small u h, count-insert_before u t p k.sleeping_list);
            runs = runs;
            waits = λ u h. ground (arith, waits u, count-insert_before u t p k.sleeping_list);
            used = used;
            owned = owned;
            here = here;
            by_priority = by_priority;
            by_wake =
                insert_before-IsSortedBy (λ c. (k.tcbs c).wake_point) t k.sleeping_list by_wake;
          })

      pub blocked_push_lem :
          blocked_push k t ≡ record k { blocked_list = k.blocked_list ++ (t ∷ []) }
      blocked_push_lem = rw (push_back_lem k.blocked_list t (blocked_room t lt (omega arith))) refl

      pub blocked_push-IsValid : (k.tcbs t).status ≡ blocked → IsValid (blocked_push k t)
      blocked_push-IsValid wait = rw blocked_push_lem (record {
        once = λ u. ground (arith, once u, count-append u k.blocked_list (t ∷ []));
        small = λ u h. ground (arith, small u h, count-append u k.blocked_list (t ∷ []));
        runs = runs;
        waits = λ u h. ground (arith, waits u, count-append u k.blocked_list (t ∷ []));
        used = used;
        owned = owned;
        here = here;
        by_priority = by_priority;
        by_wake = by_wake;
      })
