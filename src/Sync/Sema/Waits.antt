-- ===== src/Sync/Sema/Waits.antt =====
-- `Sema::down` and `Sema::up`: the count and the queue agree, and who waits is blocked.
use mos_rust.Config.{task_max}
use mos_rust.Prelude.{
  ℕ, suc, ◌+◌, ◌-◌, ◌≤◌, ◌<◌, ◌≡◌, ◌≢◌, ◌⊎◌, inl, inr, refl, sym, ap, subst, ◌∙◌, true, false, ltb,
  ◌==◌, if◌then◌else◌, length, count, insert_before, count-erase, count-insert_before,
  length-insert_before, IsSortedBy, IsSortedBy-agree, insert_before-IsSortedBy,
  length-lt_of_missing, Bool-cases, arith, Run, ok, ◌>>=◌,
}
use mos_rust.TaskList.{HeaplessVec}
use mos_rust.TaskList.Laws.{remove_lem, insert_in_order_lem}
use mos_rust.Kernel.{blocked, Kernel, u32_mod}
use mos_rust.Kernel.Invariant.{IsValid, is_runnable, listed, current_tid-ok}
use mos_rust.Kernel.Sched.{yield_task}
use mos_rust.Kernel.Sched.Switch.{Elected, next_tcb-Switched}
use mos_rust.Kernel.Task.Block.{IsLive}
use mos_rust.Kernel.Task.Leave.{left, left-IsValid, left-listed, left-others, yield_started}
use mos_rust.Sync.Sema.{Sema, is_negative, decrement, queue_insert, down}

-- The number of tasks that wait, where the count is negative.
abbrev pub waiting : ℕ → ℕ
waiting c = if is_negative c then u32_mod - c else 0

pub record Waits (k : Kernel) (s : Sema) : Type 0 where
  pub fits : s.count < u32_mod
  pub balance : waiting s.count ≡ length s.wait_queue
  pub asleep : (t : ℕ) → 0 < count t s.wait_queue → ((k.tcbs t).status ≡ blocked) × (listed k t ≡ 0)
  pub once : (t : ℕ) → count t s.wait_queue ≤ 1
  pub small : (t : ℕ) → task_max ≤ t → count t s.wait_queue ≡ 0
  pub by_priority : IsSortedBy (λ t. (k.tcbs t).priority) s.wait_queue

-- The kernel of a call's result.
abbrev pub kernel_of : Run (Kernel × Sema) → Run Kernel
kernel_of r = r >>= λ p. ok p.0

module _ ⦃vec : HeaplessVec⦄ where
  -- What `down` comes to where it waits.
  abbrev pub joined : Kernel → Sema → ℕ → Sema
  joined k s c = record {
    count = decrement s.count;
    wait_queue = queue_insert (left k c) s.wait_queue c;
  }

  pub down-takes :
      (k : Kernel) (s : Sema)
      → is_negative (decrement s.count) ≡ false
      → down k s ≡ ok (k, record s { count = decrement s.count })
  unfolding down
  down-takes k s e = rw e refl

  pub down-waits :
      {k : Kernel} (s : Sema) (c : ℕ)
      → IsLive k c
      → is_negative (decrement s.count) ≡ true
      → down k s ≡ (yield_task (left k c) >>= λ k2. ok (k2, joined k s c))
  unfolding down
  down-waits {k} s c live e = rw e (
      ap (λ r. r >>= λ cr. yield_task (left k cr) >>= λ k2. ok (k2, joined k s cr))
        (current_tid-ok live.valid c live.runs_now))

  module _ {k : Kernel} {s : Sema} (c : ℕ) (live : IsLive k c)
      (run : is_runnable (k.tcbs c).status ≡ true) (w : Waits k s) where
    not_queued : count c s.wait_queue ≡ 0
    not_queued = ground (arith, w.asleep c)

    room : length s.wait_queue < task_max
    room =
        length-lt_of_missing task_max c s.wait_queue w.once w.small
          (live.valid.here c live.runs_now).1 not_queued

    joined-queue :
        (joined k s c).wait_queue
        ≡ insert_before
            (λ u. ltb ((left k c).tcbs c).priority ((left k c).tcbs u).priority)
            c
            s.wait_queue
    joined-queue =
        ap (λ p. p.0)
          (insert_in_order_lem s.wait_queue c
            (λ u. ltb ((left k c).tcbs c).priority ((left k c).tcbs u).priority) room)

    joined-count :
        (t : ℕ)
        → count t (joined k s c).wait_queue ≡ count t s.wait_queue + (if c == t then 1 else 0)
    joined-count t =
        ap (count t) joined-queue
        ∙ count-insert_before t c
            (λ u. ltb ((left k c).tcbs c).priority ((left k c).tcbs u).priority) s.wait_queue

    joined-asleep :
        (t : ℕ)
        → 0 < count t (joined k s c).wait_queue
        → (((left k c).tcbs t).status ≡ blocked) × (listed (left k c) t ≡ 0)
    joined-asleep t h = elim (Bool-cases (c == t)) [
      | inl same ↦
          let is : c ≡ t = ground arith in
          subst (λ u. (((left k c).tcbs u).status ≡ blocked) × (listed (left k c) u ≡ 0)) is
            (ground arith, left-listed live.valid c run)
      | inr other ↦
          let old = w.asleep t (ground (arith, joined-count t)) in
          (
            ground (arith, old.0),
            rw (remove_lem k.ready_list c) (ground (arith, old.1, count-erase t c k.ready_list)),
          )
    ]

    joined-length : length (joined k s c).wait_queue ≡ suc (length s.wait_queue)
    joined-length =
        ap length joined-queue
        ∙ length-insert_before c
            (λ u. ltb ((left k c).tcbs c).priority ((left k c).tcbs u).priority) s.wait_queue

    joined-sorted : IsSortedBy (λ t. ((left k c).tcbs t).priority) (joined k s c).wait_queue
    joined-sorted = subst (IsSortedBy (λ t. ((left k c).tcbs t).priority)) (sym joined-queue) (
        insert_before-IsSortedBy (λ t. ((left k c).tcbs t).priority) c s.wait_queue
          (IsSortedBy-agree _ _ s.wait_queue (λ u h. ground arith) w.by_priority))

    joined-Waits :
        (k' : Kernel)
        → is_negative (decrement s.count) ≡ true
        → ((t : ℕ)
            → listed (left k c) t ≡ 0
            → ((left k c).tcbs t).status ≡ blocked
            → (k'.tcbs t ≡ (left k c).tcbs t) × (listed k' t ≡ 0))
        → ((t : ℕ) → (k'.tcbs t).priority ≡ ((left k c).tcbs t).priority)
        → Waits k' (joined k s c)
    joined-Waits k' neg still prio = record {
      fits = omega arith;
      balance = ground (arith, w.balance, w.fits, room, joined-length);
      asleep = λ t h. ground (arith, joined-asleep t h, still t);
      once = λ t. ground (arith, w.once t, joined-count t, not_queued);
      small = λ t h. ground (arith, w.small t, joined-count t, live.valid.here c live.runs_now);
      by_priority =
          IsSortedBy-agree _ _ (joined k s c).wait_queue (λ u h. sym (prio u)) joined-sorted;
    }

  -- Let the count and the queue of a semaphore agree, and each task in its queue be blocked and in
  -- no list of the kernel. In a running system whose current task is runnable and with some other
  -- task ready, `down` does not panic and keeps that, and the kernel's invariant. If the count was
  -- positive it goes down by one and nothing else changes; otherwise the caller is in the queue
  -- once, and a task of the highest ready priority runs next.
  pub down-Waits :
      {k : Kernel} {s : Sema} (c i : ℕ)
      → IsLive k c
      → is_runnable (k.tcbs c).status ≡ true
      → Waits k s
      → i ≢ c
      → 0 < count i k.ready_list
      → (k' : Kernel) × (s' : Sema) × (down k s ≡ ok (k', s'))
        × IsValid k'
        × Waits k' s'
        × (((0 < s.count) × (k' ≡ k) × (s' ≡ record s { count = s.count - 1 }))
            ⊎ ((st : ℕ) × Elected k' st
                × (waiting s'.count ≡ suc (waiting s.count))
                × (count c s'.wait_queue ≡ 1)))
  down-Waits {k} {s} c i live run w ne h = elim (Bool-cases (is_negative (decrement s.count))) [
    | inr enough ↦
        let down_one : decrement s.count ≡ s.count - 1 =
          ground (arith, w.balance, room c live run w) in
        let s' = record s { count = decrement s.count } in
        (
          k,
          s',
          down-takes k s enough,
          live.valid,
          record {
            fits = omega arith;
            balance = ground (arith, w.balance, room c live run w);
            asleep = w.asleep;
            once = w.once;
            small = w.small;
            by_priority = w.by_priority;
          },
          inl (
            ground (arith, w.balance, room c live run w),
            refl,
            ap (λ n. record s { count = n }) down_one,
          ),
        )
    | inl short ↦
        let v1 = left-IsValid live.valid c run in
        let (k', st, n) =
          next_tcb-Switched v1 c live.runs_now i (left-others live.valid c run i ne h) in
        let moved = yield_started (left k c) live.started ∙ n.returned in
        (
          k',
          joined k s c,
          down-waits s c live short ∙ ap (λ r. r >>= λ k2. ok (k2, joined k s c)) moved,
          n.elected.valid,
          joined-Waits c live run w k' short n.unmoved n.priority,
          inr (
            st,
            n.elected,
            ground (arith, w.balance, w.fits, room c live run w),
            ground (arith, joined-count c live run w c, not_queued c live run w),
          ),
        )
  ]
