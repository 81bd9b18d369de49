-- ===== src/Sync/CondVar/Waits.antt =====
-- `CondVar::wait` up to its switch: the caller gives the mutex back and waits, in one step.
use mos_rust.Config.{task_max, pri_inv}
use mos_rust.Prelude.{
  ℕ, ◌<◌, ◌≡◌, ◌≢◌, ◌⊎◌, refl, ap, ◌∙◌, inl, inr, List, [], ◌∷◌, ◌++◌, Bool, true, false, none,
  some, ltb, count, count-erase, length, arith, Run, ok, ◌>>=◌,
}
use mos_rust.TaskList.{HeaplessVec, TaskList, front}
use mos_rust.TaskList.Laws.{push_back_lem, remove_lem}
use mos_rust.Kernel.{blocked, Kernel}
use mos_rust.Kernel.Invariant.{is_runnable, listed, current_tid-ok}
use mos_rust.Kernel.Sched.{yield_task}
use mos_rust.Kernel.Sched.Switch.{Elected, next_tcb-Switched}
use mos_rust.Kernel.Task.Leave.{left, left-IsValid, left-listed, left-others, yield_started}
use mos_rust.Kernel.Task.Block.{IsLive}
use mos_rust.Kernel.Task.Rouse.{roused, roused-IsValid, roused-count}
use mos_rust.Sync.Mutex.{Mutex, create as unlocked, restore, release}
use mos_rust.Sync.Mutex.Inherit.{taken}
use mos_rust.Sync.Mutex.Pass.{restore-own}
use mos_rust.Sync.CondVar.{CondVar, wait}

module _ ⦃vec : HeaplessVec⦄ where
  release-free :
      (k : Kernel) (c : ℕ)
      → IsLive k c
      → (k.tcbs c).sub_priority ≡ pri_inv
      → (b : Bool) × (release k (taken c 1 []) ≡ ok (b, k, unlocked))
  unfolding release unlocked
  release-free k c live own =
      let j = restore k c in
      let b : Bool = elim (front j.ready_list) [
        | none ↦ false
        | some first ↦ ltb (j.tcbs first).priority (j.tcbs c).priority
      ] in
      (
        b,
        rw (current_tid-ok live.valid c live.runs_now) refl
            ∙ ap (λ i. ok (b, i, unlocked)) (restore-own k c own),
      )

  release-passes :
      (k : Kernel) (c w : ℕ) (rest : List ℕ)
      → IsLive k c
      → (k.tcbs c).sub_priority ≡ pri_inv
      → (b : Bool) × (release k (taken c 1 (w ∷ rest)) ≡ ok (b, roused k w, taken w 1 rest))
  unfolding release
  release-passes k c w rest live own = (
    ltb ((roused k w).tcbs w).priority ((roused k w).tcbs c).priority,
    rw (current_tid-ok live.valid c live.runs_now, restore-own k c own, vec.remove_at [] rest w)
        refl,
  )

  wait-eq :
      (k : Kernel) (c : ℕ) (q : TaskList) (m : Mutex)
      → IsLive k c
      → length q < task_max
      → wait k (record { wait_queue = q }) m ≡ (
          release (left k c) m >>= λ r.
          yield_task r.1 >>= λ k3. ok (r.0, k3, record { wait_queue = q ++ c ∷ [] }, r.2))
  unfolding wait
  wait-eq k c q m live room =
      rw (current_tid-ok live.valid c live.runs_now, push_back_lem q c room) refl

  -- What the wait of task `c` leads to, with `q` waiting before it.
  pub record Sleeps (q waiters : TaskList) (k : Kernel) (c : ℕ)
      (r : Run (Bool × Kernel × CondVar × Mutex)) : Type 0 where
    pub after : Kernel
    pub mutex : Mutex
    pub again : Bool
    pub next : ℕ
    pub returned : r ≡ ok (again, after, record { wait_queue = q ++ c ∷ [] }, mutex)
    pub elected : Elected after next
    pub asleep : ((after.tcbs c).status ≡ blocked) × (listed after c ≡ 0)
    pub passed :
        ((waiters ≡ []) × (mutex ≡ unlocked))
        ⊎ ((w : ℕ) × (rest : TaskList) × (waiters ≡ w ∷ rest)
            × (mutex ≡ taken w 1 rest)
            × (count w after.ready_list ≡ 1))

  module _ {k : Kernel} (c : ℕ) (q : TaskList) (live : IsLive k c)
      (run : is_runnable (k.tcbs c).status ≡ true) (own : (k.tcbs c).sub_priority ≡ pri_inv)
      (room : length q < task_max) where
    left-IsLive : IsLive (left k c) c
    left-IsLive = record {
      valid = left-IsValid live.valid c run;
      runs_now = live.runs_now;
      started = live.started;
    }

    left-own : ((left k c).tcbs c).sub_priority ≡ pri_inv
    left-own = ground (arith, own)

    wait-free :
        (u : ℕ)
        → u ≢ c
        → 0 < count u k.ready_list
        → Sleeps q [] k c (wait k (record { wait_queue = q }) (taken c 1 []))
    wait-free u ne h =
        let j = left k c in
        let still = left-others live.valid c run u ne h in
        let (again, freed) = release-free j c left-IsLive left-own in
        let (k', next, s) = next_tcb-Switched left-IsLive.valid c live.runs_now u still in
        let gone = s.unmoved c (left-listed live.valid c run) (ground arith) in
        record {
          after = k';
          mutex = unlocked;
          again = again;
          next = next;
          returned =
              wait-eq k c q (taken c 1 []) live room
              ∙ rw (freed, yield_started j live.started, s.returned) refl;
          elected = s.elected;
          asleep = (ap (λ t. t.status) gone.0 ∙ ground arith, gone.1);
          passed = inl (refl, refl);
        }

    wait-passes :
        (w : ℕ) (rest : TaskList)
        → w < task_max
        → w ≢ c
        → listed k w ≡ 0
        → (k.tcbs w).status ≡ blocked
        → Sleeps q (w ∷ rest) k c (wait k (record { wait_queue = q }) (taken c 1 (w ∷ rest)))
    wait-passes w rest lt ne out waited =
        let j = left k c in
        let out_j : listed j w ≡ 0 =
          rw (remove_lem k.ready_list c) (ground (arith, count-erase w c k.ready_list)) in
        let waited_j : (j.tcbs w).status ≡ blocked = ground arith in
        let v = roused-IsValid c w left-IsLive lt out_j waited_j in
        let more = roused-count c w left-IsLive lt out_j waited_j in
        let (again, handed) = release-passes j c w rest left-IsLive left-own in
        let here : 0 < count w (roused j w).ready_list = ground (arith, more w) in
        let (k', next, s) = next_tcb-Switched v c live.runs_now w here in
        let apart : listed (roused j w) c ≡ 0 =
          ground (arith, more c, left-listed live.valid c run) in
        let off : ((roused j w).tcbs c).status ≡ blocked = ground arith in
        let gone = s.unmoved c apart off in
        record {
          after = k';
          mutex = taken w 1 rest;
          again = again;
          next = next;
          returned =
              wait-eq k c q (taken c 1 (w ∷ rest)) live room
              ∙ rw (handed, yield_started (roused j w) live.started, s.returned) refl;
          elected = s.elected;
          asleep = (ap (λ t. t.status) gone.0 ∙ off, gone.1);
          passed = inr (w, rest, refl, refl, ground (arith, s.kept w here, s.elected.valid.once w));
        }

  -- In a running system the current task, which has inherited no priority, waits on a condition
  -- variable with room in its queue, and holds the mutex once. Either no task waits for the mutex
  -- and another task is ready, or the first that waits for it is blocked and in no list. The wait
  -- does not panic: the caller is at the end of the queue, blocked and in no list of the kernel, and
  -- a task of the highest ready priority runs next. In the first case the mutex is free; in the
  -- second the first task that waited for it holds it and is ready.
  pub wait-Sleeps :
      {k : Kernel} (c u : ℕ) (q waiters : TaskList)
      → IsLive k c
      → is_runnable (k.tcbs c).status ≡ true
      → (k.tcbs c).sub_priority ≡ pri_inv
      → length q < task_max
      → u ≢ c
      → ((waiters ≡ []) × (0 < count u k.ready_list))
        ⊎ ((rest : TaskList) × (waiters ≡ u ∷ rest)
            × (u < task_max)
            × (listed k u ≡ 0)
            × ((k.tcbs u).status ≡ blocked))
      → Sleeps q waiters k c (wait k (record { wait_queue = q }) (taken c 1 waiters))
  wait-Sleeps {k} c u q waiters live run own room ne (inl (none_, h)) =
      rw none_ (wait-free c q live run own room u ne h)
  wait-Sleeps {k} c u q waiters live run own room ne (inr (rest, some_, lt, out, waited)) =
      rw some_ (wait-passes c q live run own room u rest lt ne out waited)
