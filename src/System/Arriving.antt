-- ===== src/System/Arriving.antt =====
-- The calls by which a task comes into the ready list, `resume`, `create` and `create_raw` of
-- core/src/kernel/task.rs.
use Prim.Native.String.{String}
use mos_rust.Config.{task_max, page_size_words}
use mos_rust.Prelude.{
  ℕ, ◌+◌, ◌/◌, ◌≤◌, ◌<◌, ◌≡◌, inl, inr, sym, subst, ap, ◌∙◌, List, Bool, true, ltb, ◌==◌,
  if◌then◌else◌, length, update, count, count-insert_before, Bool-cases, arith, ok, Run, ◌>>=◌,
  accepted, Result, replicate,
}
use mos_rust.TaskList.{HeaplessVec}
use mos_rust.Kernel.{Tcb, Kernel, ready_insert}
use mos_rust.Kernel.Invariant.{is_runnable, listed}
use mos_rust.Kernel.Invariant.Ids.{free-listed}
use mos_rust.Kernel.Invariant.Moves.{ready_insert_lem, ready_insert-IsValid}
use mos_rust.Kernel.Sched.{yield_task}
use mos_rust.Kernel.Stack.{context_words}
use mos_rust.Kernel.Task.{resume, create, create_raw, preempt_woken, preempt_new}
use mos_rust.Kernel.Task.Block.{
  IsLive, preempt_woken-eq, resumed, resumed-IsValid, was_blocked, unlisted, in_range, resume-eq,
  resume_absent,
}
use mos_rust.Kernel.Task.Create.{
  Lowest, preempt_new-eq, born, born-IsValid, create-Fresh, create_raw-FreshRaw,
}
use mos_rust.System.Running.{IsSized, IsRunning, Runs, yield_task-Runs}
use mos_rust.System.Leaving.{still-Runs}

module _ ⦃vec : HeaplessVec⦄ where
  -- A task that is in no list goes into the ready list.
  module _ {strict : Bool} {idle c : ℕ} {k : Kernel} (run : IsRunning strict idle k c) (t : ℕ)
      (lt : t < task_max) (out : listed k t ≡ 0) (fits : is_runnable (k.tcbs t).status ≡ true) where
    open run use {live, sized, fit, present, idle_ready, highest}

    abbrev more : Kernel
    more = ready_insert k t (k.tcbs t).priority

    more-IsLive : IsLive more c
    more-IsLive = record {
      valid = ready_insert-IsValid live.valid t lt out fits;
      runs_now = live.runs_now;
      started = live.started;
    }

    more-count :
        (u : ℕ) → count u more.ready_list ≡ count u k.ready_list + (if t == u then 1 else 0)
    more-count u =
        ap (λ j. count u j.ready_list) (ready_insert_lem live.valid t lt out (k.tcbs t).priority)
        ∙ count-insert_before u t (λ v. ltb (k.tcbs t).priority (k.tcbs v).priority) k.ready_list

    more-IsSized : IsSized more
    more-IsSized = record { stacked = sized.stacked; clocked = sized.clocked }

    -- The current task goes on if the new one is not of higher priority.
    more-IsRunning :
        (strict ≡ true → (k.tcbs c).priority ≤ (k.tcbs t).priority) → IsRunning strict idle more c
    more-IsRunning h = record {
      live = more-IsLive;
      sized = more-IsSized;
      fit = fit;
      present = ground (arith, more-count c);
      idle_ready = ground (arith, more-count idle);
      highest = λ b u hu. ground (arith, more-count u, highest b u);
    }

    more-Runs :
        Runs strict idle
          (if ltb (k.tcbs t).priority (k.tcbs c).priority then yield_task more else ok more)
    more-Runs = elim (Bool-cases (ltb (k.tcbs t).priority (k.tcbs c).priority)) [
      | inl higher ↦
          rw higher (yield_task-Runs c more-IsLive more-IsSized (ground (arith, more-count idle)))
      | inr lower ↦ rw lower (still-Runs (more-IsRunning (λ b. ground arith)))
    ]

    pub preempt_woken-Runs :
        (p : ℕ) → (k.tcbs t).priority ≡ p → Runs strict idle (preempt_woken more p)
    preempt_woken-Runs p e =
        subst (λ x. Runs strict idle (preempt_woken more x)) e
          (subst (Runs strict idle)
            (sym (preempt_woken-eq more c (k.tcbs t).priority live.runs_now)) more-Runs)

    pub preempt_new-Runs :
        (p : ℕ) → (k.tcbs t).priority ≡ p → Runs strict idle (preempt_new (ready_insert k t p) p)
    preempt_new-Runs p e =
        subst (λ x. Runs strict idle (preempt_new (ready_insert k t x) x)) e
          (subst (Runs strict idle)
            (sym (preempt_new-eq more c (k.tcbs t).priority live.runs_now live.started)) more-Runs)

    pub insert-Runs :
        (p : ℕ)
        → (k.tcbs t).priority ≡ p
        → (strict ≡ true → (k.tcbs c).priority ≤ p)
        → Runs strict idle (ok (ready_insert k t p))
    insert-Runs p e low =
        subst (λ x. Runs strict idle (ok (ready_insert k t x))) e
          (still-Runs (more-IsRunning (λ b. ground (arith, low b))))

  -- The state in which a blocked task is marked as ready is a running one.
  module _ {strict : Bool} {idle c : ℕ} {k : Kernel} (run : IsRunning strict idle k c) where
    open run use {live, sized, fit, present, idle_ready, highest}

    resumed-IsRunning :
        (tid : ℕ) → 0 < count tid k.blocked_list → IsRunning strict idle (resumed k tid) c
    resumed-IsRunning tid h =
        let wait = was_blocked live.valid tid h in
        record {
          live = record {
            valid = resumed-IsValid live.valid tid h;
            runs_now = live.runs_now;
            started = live.started;
          };
          sized = record { stacked = sized.stacked; clocked = sized.clocked };
          fit = ground arith;
          present = present;
          idle_ready = idle_ready;
          highest = λ b u hu. ground (arith, highest b u hu);
        }

    pub resume-Runs : (tid : ℕ) → tid < task_max → Runs strict idle (resume k tid)
    resume-Runs tid lt = elim (Bool-cases (ltb 0 (count tid k.blocked_list))) [
      | inr absent ↦
          subst (Runs strict idle) (sym (resume_absent k tid lt (ground arith))) (still-Runs run)
      | inl there ↦
          let h : 0 < count tid k.blocked_list = ground arith in
          subst (Runs strict idle) (sym (resume-eq live.valid tid h)) (
            preempt_woken-Runs (resumed-IsRunning tid h) tid (in_range live.valid tid h)
              (unlisted live.valid tid h) (ground arith) (k.tcbs tid).priority (ground arith))
    ]

  -- The state in which a new task waits to be put into the ready list is a running one.
  module _ {strict : Bool} {idle c : ℕ} {k : Kernel} (run : IsRunning strict idle k c) where
    open run use {live, sized, fit, present, idle_ready, highest}

    born-IsRunning :
        (t : ℕ) (x : Tcb) (stacks heap : ℕ → List ℕ)
        → Lowest k t
        → x.tid ≡ t
        → ((u : ℕ) → length (stacks u) ≡ page_size_words)
        → IsRunning strict idle (born k t x stacks heap) c
    born-IsRunning t x stacks heap low own sizes =
        let out = free-listed live.valid t low.in_range low.free in
        record {
          live = record {
            valid = born-IsValid t x stacks heap live.valid low.in_range low.free own;
            runs_now = live.runs_now;
            started = live.started;
          };
          sized = record { stacked = sizes; clocked = sized.clocked };
          fit = ground arith;
          present = present;
          idle_ready = idle_ready;
          highest = λ b u hu. ground (arith, highest b u hu);
        }

    heap-IsRunning : (heap : ℕ → List ℕ) → IsRunning strict idle (record k { heap = heap }) c
    heap-IsRunning heap = record {
      live = record {
        valid = record {
          once = live.valid.once;
          small = live.valid.small;
          runs = live.valid.runs;
          waits = live.valid.waits;
          used = live.valid.used;
          owned = live.valid.owned;
          here = live.valid.here;
          by_priority = live.valid.by_priority;
          by_wake = live.valid.by_wake;
        };
        runs_now = live.runs_now;
        started = live.started;
      };
      sized = record { stacked = sized.stacked; clocked = sized.clocked };
      fit = fit;
      present = present;
      idle_ready = idle_ready;
      highest = highest;
    }

    -- A result with a handle beside the kernel.
    abbrev dropped : Run (Result ℕ String × Kernel) → Run Kernel
    dropped r = r >>= λ p. ok p.1

    handed-Runs :
        (a : Result ℕ String) {r : Run Kernel}
        → Runs strict idle r
        → Runs strict idle (dropped (r >>= λ j. ok (a, j)))
    handed-Runs a {r} s = record {
      after = s.after;
      task = s.task;
      returned = ap (λ x. dropped (x >>= λ j. ok (a, j))) s.returned;
      running = s.running;
    }

    pub create-Runs :
        (closure priority : ℕ) (name : String)
        → Runs strict idle (dropped (create k closure priority name))
    create-Runs closure priority name = elim (create-Fresh k closure priority name sized.stacked) [
      | inl (e, all) ↦ rw e (still-Runs run)
      | inr f ↦
          let stacks = update k.stacks f.tid f.stack in
          let same : f.stack ≡ f.framed.after = cc (f.framed.returned) in
          let size : length f.stack ≡ page_size_words =
            ap length same ∙ f.framed.same_length ∙ sized.stacked f.tid in
          let ready_ =
            born-IsRunning f.tid f.tcb stacks k.heap f.lowest f.own
              (λ u. ground (arith, size, sized.stacked u)) in
          let out = free-listed live.valid f.tid f.lowest.in_range f.lowest.free in
          rw f.returned (
            handed-Runs (accepted f.tid) (
              preempt_new-Runs ready_ f.tid f.lowest.in_range out (ground arith) priority
                (ground arith)))
    ]

    pub create_raw-Runs :
        (entry param priority : ℕ) (name : String) (size block : ℕ)
        → context_words < size / 4
        → (strict ≡ true → (k.tcbs c).priority ≤ priority)
        → Runs strict idle (dropped (create_raw k entry param priority name size block))
    create_raw-Runs entry param priority name size block h low =
        elim (create_raw-FreshRaw k entry param priority name size block h) [
          | inl (e, all) ↦
              rw e (still-Runs (heap-IsRunning (update k.heap block (replicate (size / 4) 0))))
          | inr f ↦
              let heap = update (update k.heap block (replicate (size / 4) 0)) block f.stack in
              let ready_ = born-IsRunning f.tid f.tcb k.stacks heap f.lowest f.own sized.stacked in
              let out = free-listed live.valid f.tid f.lowest.in_range f.lowest.free in
              rw f.returned (
                insert-Runs ready_ f.tid f.lowest.in_range out (ground arith) priority
                  (ground arith) (λ b. ground (arith, low b)))
        ]
