-- ===== src/Sync/CondVar/Wakes.antt =====
-- `CondVar::notify_all`: every waiting task becomes ready.
use mos_rust.Config.{task_max}
use mos_rust.Prelude.{
  ℕ, suc, ◌+◌, ◌≤◌, ◌<◌, ◌≡◌, refl, ap, ◌∙◌, ◌⊎◌, inl, inr, [], ◌∷◌, Bool, true, false, none, some,
  count, length, arith, Run, ok, ◌>>=◌,
}
use mos_rust.TaskList.{HeaplessVec, TaskList}
use mos_rust.TaskList.Laws.{pop_front-cons}
use mos_rust.Kernel.{blocked, Kernel}
use mos_rust.Kernel.Invariant.{listed, parked}
use mos_rust.Kernel.Sched.{yield_task}
use mos_rust.Kernel.Sched.Switch.{Elected, next_tcb-Switched}
use mos_rust.Kernel.Task.Leave.{yield_started}
use mos_rust.Kernel.Task.Block.{IsLive}
use mos_rust.Kernel.Task.Rouse.{roused, roused-IsValid, roused-count}
use mos_rust.Sync.CondVar.{CondVar, wake_all, notify_all}

-- The tasks of a wait queue: each is in it once, blocked, and in no list of the kernel.
pub record IsQueue (k : Kernel) (q : TaskList) : Type 0 where
  pub once : (t : ℕ) → count t q ≤ 1
  pub small : (t : ℕ) → task_max ≤ t → count t q ≡ 0
  pub asleep : (t : ℕ) → 0 < count t q → (listed k t ≡ 0) × ((k.tcbs t).status ≡ blocked)

module _ ⦃vec : HeaplessVec⦄ where
  abbrev all_roused : Kernel → TaskList → Kernel
  all_roused k [] = k
  all_roused k (w ∷ rest) = all_roused (roused k w) rest

  wake_all-eq :
      (k : Kernel) (w : ℕ) (rest : TaskList) (b : Bool)
      → wake_all (suc (length rest)) k (w ∷ rest) b ≡ wake_all (length rest) (roused k w) rest true
  unfolding wake_all
  wake_all-eq k w rest b =
      ap
        (λ p. elim p.0 [
          | none ↦ (k, w ∷ rest, b)
          | some t ↦ wake_all (length rest) (roused k t) p.1 true
        ])
        (pop_front-cons w rest)

  wake_all-roused :
      (k : Kernel) (q : TaskList) → wake_all (length q) k q true ≡ (all_roused k q, [], true)
  unfolding wake_all
  wake_all-roused k [] = refl
  wake_all-roused k (w ∷ rest) = wake_all-eq k w rest true ∙ wake_all-roused (roused k w) rest

  record AllRoused (k : Kernel) (c : ℕ) (q : TaskList) (j : Kernel) : Type 0 where
    live : IsLive j c
    ready_count : (t : ℕ) → count t j.ready_list ≡ count t k.ready_list + count t q
    others : (t : ℕ) → count t q ≡ 0 → (j.tcbs t ≡ k.tcbs t) × (parked j t ≡ parked k t)
    priority : (t : ℕ) → (j.tcbs t).priority ≡ (k.tcbs t).priority

  roused-IsLive :
      {k : Kernel} (c w : ℕ) (rest : TaskList)
      → IsLive k c
      → IsQueue k (w ∷ rest)
      → IsLive (roused k w) c
  roused-IsLive {k} c w rest live q =
      let at = q.asleep w (ground arith) in
      record {
        valid = roused-IsValid c w live (ground (arith, q.small w)) at.0 at.1;
        runs_now = live.runs_now;
        started = live.started;
      }

  roused-IsQueue :
      {k : Kernel} (c w : ℕ) (rest : TaskList)
      → IsLive k c
      → IsQueue k (w ∷ rest)
      → IsQueue (roused k w) rest
  roused-IsQueue {k} c w rest live q =
      let at = q.asleep w (ground arith) in
      let more = roused-count c w live (ground (arith, q.small w)) at.0 at.1 in
      record {
        once = λ t. ground (arith, q.once t);
        small = λ t h. ground (arith, q.small t h);
        asleep = λ t h. ground (arith, q.once t, q.asleep t, more t);
      }

  all_roused-AllRoused :
      {k : Kernel} (c : ℕ) (q : TaskList)
      → IsLive k c
      → IsQueue k q
      → AllRoused k c q (all_roused k q)
  all_roused-AllRoused {k} c [] live v = record {
    live = live;
    ready_count = λ t. omega arith;
    others = λ t h. (refl, refl);
    priority = λ t. refl;
  }
  all_roused-AllRoused {k} c (w ∷ rest) live v =
      let at = v.asleep w (ground arith) in
      let more = roused-count c w live (ground (arith, v.small w)) at.0 at.1 in
      let ih =
        all_roused-AllRoused {k = roused k w} c rest (roused-IsLive c w rest live v)
          (roused-IsQueue c w rest live v) in
      record {
        live = ih.live;
        ready_count = λ t. omega (arith, ih.ready_count t, more t);
        others = λ t h. ground (arith, ih.others t);
        priority = λ t. ih.priority t ∙ ground arith;
      }

  -- What `notify_all` leads to when task `c` is running: the queue is empty, and all its tasks are
  -- ready.
  pub record Notified (k : Kernel) (q : TaskList) (r : Run (Kernel × CondVar)) : Type 0 where
    pub after : Kernel
    pub next : ℕ
    pub returned : r ≡ ok (after, record { wait_queue = [] })
    pub elected : Elected after next
    pub are_ready : (t : ℕ) → 0 < count t q → count t after.ready_list ≡ 1
    pub stay_ready : (t : ℕ) → 0 < count t k.ready_list → count t after.ready_list ≡ 1
    pub stay_away :
        (t : ℕ)
        → count t q ≡ 0
        → listed k t ≡ 0
        → (k.tcbs t).status ≡ blocked
        → (after.tcbs t ≡ k.tcbs t) × (listed after t ≡ 0)
    pub priority : (t : ℕ) → (after.tcbs t).priority ≡ (k.tcbs t).priority

  notify_all-eq :
      (k : Kernel) (w : ℕ) (rest : TaskList)
      → notify_all k (record { wait_queue = w ∷ rest })
        ≡ (yield_task (all_roused (roused k w) rest) >>= λ k2. ok (k2, record { wait_queue = [] }))
  unfolding notify_all
  notify_all-eq k w rest = rw (wake_all-eq k w rest false, wake_all-roused (roused k w) rest) refl

  -- `notify_all` in a running system, where each waiting task is in the queue once, blocked and in
  -- no list of the kernel. If no task waits, nothing changes. Otherwise it does not panic: the queue
  -- is empty, all the tasks of the queue are ready as are those that were, and a task of the
  -- highest ready priority runs next. A blocked task that is neither in the queue nor in a list of the
  -- kernel stays as it is (a sleeper whose time has come may wake in the switch). The invariant and all
  -- priorities are kept.
  pub notify_all-Notified :
      {k : Kernel} (c : ℕ) (q : TaskList)
      → IsLive k c
      → IsQueue k q
      → ((q ≡ []) × (notify_all k (record { wait_queue = q }) ≡ ok (k, record { wait_queue = [] })))
        ⊎ Notified k q (notify_all k (record { wait_queue = q }))
  unfolding notify_all wake_all
  notify_all-Notified c [] live v = inl (refl, refl)
  notify_all-Notified {k} c (w ∷ rest) live v =
      let a = all_roused-AllRoused c (w ∷ rest) live v in
      let j = all_roused (roused k w) rest in
      let (k', next, s) =
        next_tcb-Switched a.live.valid c a.live.runs_now w (ground (arith, a.ready_count w)) in
      let one = λ (t : ℕ) (h : 0 < count t j.ready_list).
        (let kept = s.kept t h in
          let one : count t k'.ready_list ≡ 1 = ground (arith, s.elected.valid.once t) in one) in
      inr (record {
        after = k';
        next = next;
        returned =
            notify_all-eq k w rest
            ∙ ap (λ y. y >>= λ k2. ok (k2, record { wait_queue = [] }))
                (yield_started j a.live.started ∙ s.returned);
        elected = s.elected;
        are_ready = λ t h. one t (omega (arith, a.ready_count t));
        stay_ready = λ t h. one t (omega (arith, a.ready_count t));
        stay_away = λ t n o b.
            let (same, apart) = a.others t n in
            let (after_same, gone) =
              s.unmoved t (omega (arith, a.ready_count t, apart)) (ap (λ x. x.status) same ∙ b) in
            (after_same ∙ same, gone);
        priority = λ t. s.priority t ∙ a.priority t;
      })
