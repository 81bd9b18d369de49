-- ===== src/Sync/Mutex/Inherit.antt =====
-- A mutex that another task holds: the caller waits, and the holder takes over its priority.
use mos_rust.Config.{task_max, pri_inv}
use mos_rust.Prelude.{
  ℕ, ◌+◌, ◌<◌, ◌≡◌, ◌≢◌, refl, subst, ap, fun_ext, update, ◌∙◌, inl, inr, true, some, ltb, ◌==◌,
  if◌then◌else◌, min, length, count, count-erase, count-insert_before, IsSortedBy-agree, Bool-cases,
  arith, ne→==_false, Run, ok, ◌>>=◌,
}
use mos_rust.TaskList.{HeaplessVec, TaskList}
use mos_rust.TaskList.Laws.{remove_lem, insert_in_order_lem}
use mos_rust.Kernel.{
  ready, blocked, status_eq, Kernel, set_priority, set_sub_priority, ready_remove, ready_insert,
}
use mos_rust.Kernel.Invariant.{IsValid, is_runnable, parked, listed, current_tid-ok}
use mos_rust.Kernel.Invariant.Moves.{
  ready_remove-IsValid, ready_remove-listed, ready_insert-IsValid, ready_insert_lem,
}
use mos_rust.Kernel.Sched.{yield_task}
use mos_rust.Kernel.Sched.Switch.{Elected, next_tcb-Switched}
use mos_rust.Kernel.Task.Block.{IsLive}
use mos_rust.Kernel.Task.Leave.{left, left-listed, left-IsValid, left-others, yield_started}
use mos_rust.Sync.Sema.{queue_insert}
use mos_rust.Sync.Mutex.{Mutex, lock, inherit}

-- A priority may change while the task is not in the ready list.
set_priorities-IsValid :
    {k : Kernel} (t p s : ℕ)
    → IsValid k
    → count t k.ready_list ≡ 0
    → IsValid (set_priority (set_sub_priority k t s) t p)
set_priorities-IsValid {k} t p s v out = record {
  once = v.once;
  small = v.small;
  runs = λ u h. ground (arith, v.runs u h);
  waits = λ u h. ground (arith, v.waits u h);
  used = λ u h. ground (arith, v.used u h);
  owned = λ u. ground (arith, v.owned u);
  here = λ c e. ground (arith, v.here c e);
  by_priority = IsSortedBy-agree _ _ k.ready_list (λ u h. ground arith) v.by_priority;
  by_wake = IsSortedBy-agree _ _ k.sleeping_list (λ u h. ground arith) v.by_wake;
}

module _ ⦃vec : HeaplessVec⦄ where
  -- The holder `o`, which is ready, at the priority `p`.
  abbrev raised : Kernel → ℕ → ℕ → ℕ → Kernel
  raised k o p s =
      let k2 = set_priority (set_sub_priority k o s) o p in
      ready_insert (ready_remove k2 o) o (k2.tcbs o).priority

  record Raised (k : Kernel) (o p : ℕ) (j : Kernel) : Type 0 where
    valid : IsValid j
    current : j.current ≡ k.current
    started : j.sched_ready ≡ k.sched_ready
    ready_list : (u : ℕ) → count u j.ready_list ≡ count u k.ready_list
    status : (u : ℕ) → (j.tcbs u).status ≡ (k.tcbs u).status
    level : (j.tcbs o).priority ≡ p
    others : (u : ℕ) → u ≢ o → (j.tcbs u).priority ≡ (k.tcbs u).priority

  raised-Raised :
      {k : Kernel} (o p s : ℕ)
      → IsValid k
      → (k.tcbs o).status ≡ ready
      → 0 < count o k.ready_list
      → Raised k o p (raised k o p s)
  raised-Raised {k} o p s v st h =
      let lt : o < task_max = ground (arith, v.small o) in
      let away : parked k o ≡ 0 = ground (arith, v.once o) in
      let out = ready_remove-listed v o away in
      let j = ready_remove k o in
      let j2 = set_priority (set_sub_priority j o s) o p in
      let v2 : IsValid j2 =
        set_priorities-IsValid o p s (ready_remove-IsValid v o) (omega (arith, out)) in
      record {
        valid = ready_insert-IsValid v2 o lt out (ground arith);
        current = refl;
        started = refl;
        ready_list = λ u.
            ap (λ i. count u i.ready_list) (ready_insert_lem v2 o lt out (j2.tcbs o).priority)
            ∙ count-insert_before u o (λ c. ltb (j2.tcbs o).priority (j2.tcbs c).priority)
                j.ready_list
            ∙ ground (
              arith,
              ap (count u) (remove_lem k.ready_list o),
              count-erase u o k.ready_list,
              v.once o,
            );
        status = λ u. ground arith;
        level = ground arith;
        others = λ u ne. ground arith;
      }

  same_sub : (k : Kernel) (o : ℕ) → set_sub_priority k o (k.tcbs o).sub_priority ≡ k
  same_sub k o =
      let same : update k.tcbs o (record (k.tcbs o) { sub_priority = (k.tcbs o).sub_priority })
          ≡ k.tcbs =
        fun_ext λ j. ground arith in
      ap (λ f. record k { tcbs = f }) same

  inherit-Raised :
      {k : Kernel} (o c : ℕ)
      → IsValid k
      → (k.tcbs o).status ≡ ready
      → 0 < count o k.ready_list
      → Raised k o (min (k.tcbs c).priority (k.tcbs o).priority) (inherit k o c)
  unfolding inherit
  inherit-Raised {k} o c v st h =
      let p = (k.tcbs c).priority in
      elim (Bool-cases (ltb p (k.tcbs o).priority)) [
        | inr low ↦
            let least : min p (k.tcbs o).priority ≡ (k.tcbs o).priority = ground arith in
            rw (low, least)
              (record {
                valid = v;
                current = refl;
                started = refl;
                ready_list = λ u. refl;
                status = λ u. refl;
                level = refl;
                others = λ u ne. refl;
              })
        | inl higher ↦
            let least : min p (k.tcbs o).priority ≡ p = ground arith in
            elim (Bool-cases ((k.tcbs o).sub_priority == pri_inv)) [
              | inl first ↦
                  let is_ready : status_eq
                        ((set_priority (set_sub_priority k o (k.tcbs o).priority) o p).tcbs
                          o).status
                        ready
                      ≡ true =
                    ground arith in
                  rw (higher, least, first, is_ready) (raised-Raised o p (k.tcbs o).priority v st h)
              | inr again ↦
                  let is_ready : status_eq ((set_priority k o p).tcbs o).status ready ≡ true =
                    ground arith in
                  let kept =
                    subst
                      (λ i. Raised k o p (
                        ready_insert (ready_remove (set_priority i o p) o) o
                          ((set_priority i o p).tcbs o).priority))
                      (same_sub k o) (raised-Raised o p (k.tcbs o).sub_priority v st h) in
                  rw (higher, least, again, is_ready) kept
            ]
      ]

  -- Held `n` times by task `o`, with the tasks of `q` waiting.
  abbrev pub taken : ℕ → ℕ → TaskList → Mutex
  taken o n q = record { owner = some o; recursive_count = n; wait_queue = q }

  -- The caller `c` waits for the mutex that `o` holds.
  pub record Waits (k : Kernel) (c o : ℕ) (q : TaskList) (r : Run (Kernel × Mutex)) : Type 0 where
    pub after : Kernel
    pub mutex : Mutex
    pub next : ℕ
    pub returned : r ≡ ok (after, mutex)
    pub elected : Elected after next
    pub holder : mutex.owner ≡ some o
    pub queued : (t : ℕ) → count t mutex.wait_queue ≡ count t q + (if c == t then 1 else 0)
    pub inherits : (after.tcbs o).priority ≡ min (k.tcbs c).priority (k.tcbs o).priority
    pub holder_ready : 0 < count o after.ready_list
    pub waiting : (after.tcbs c).status ≡ blocked
    pub gone : listed after c ≡ 0

  lock-eq :
      (k : Kernel) (c o n : ℕ) (q : TaskList)
      → IsLive k c
      → o ≢ c
      → lock k (taken o n q) ≡ (
          yield_task (left (inherit k o c) c) >>= λ k2.
          ok (k2, taken o n (queue_insert (left (inherit k o c) c) q c)))
  unfolding lock
  lock-eq k c o n q live ne =
      rw (lock, current_tid-ok live.valid c live.runs_now, ne→==_false o c ne) refl

  -- In a running system the current task asks for a mutex that a ready task holds. It does not
  -- panic: the holder gets the higher of the two priorities, stays ready and keeps the mutex;
  -- the caller is blocked, in no list of the kernel, and once more in the mutex's queue, if that has
  -- room; a task of the highest ready priority runs next.
  pub lock-Waits :
      {k : Kernel} (c o n : ℕ) (q : TaskList)
      → IsLive k c
      → is_runnable (k.tcbs c).status ≡ true
      → o ≢ c
      → (k.tcbs o).status ≡ ready
      → 0 < count o k.ready_list
      → length q < task_max
      → Waits k c o q (lock k (taken o n q))
  lock-Waits {k} c o n q live run ne st h room =
      let r = inherit-Raised o c live.valid st h in
      let j = inherit k o c in
      let run_j : is_runnable (j.tcbs c).status ≡ true = ap is_runnable (r.status c) ∙ run in
      let v = left-IsValid r.valid c run_j in
      let out = left-listed r.valid c run_j in
      let still = left-others r.valid c run_j o ne (omega (arith, r.ready_list o)) in
      let (k', next, s) = next_tcb-Switched v c (r.current ∙ live.runs_now) o still in
      let asleep = s.unmoved c out (ground arith) in
      record {
        after = k';
        mutex = taken o n (queue_insert (left j c) q c);
        next = next;
        returned =
            lock-eq k c o n q live ne
            ∙ ap (λ x. x >>= λ k2. ok (k2, taken o n (queue_insert (left j c) q c)))
                (yield_started (left j c) (r.started ∙ live.started) ∙ s.returned);
        elected = s.elected;
        holder = refl;
        queued = λ t.
            let before = λ (u : ℕ). ltb ((left j c).tcbs c).priority ((left j c).tcbs u).priority in
            ap (λ p. count t p.0) (insert_in_order_lem q c before room)
            ∙ count-insert_before t c before q;
        inherits = s.priority o ∙ ground (arith, r.level);
        holder_ready = s.kept o still;
        waiting = ap (λ x. x.status) asleep.0 ∙ ground arith;
        gone = asleep.1;
      }
