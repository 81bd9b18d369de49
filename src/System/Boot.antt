-- ===== src/System/Boot.antt =====
-- From reset to the first task: the tasks that are created before `Scheduler::launch`, and the
-- launch, of core/src/kernel/sched.rs and core/src/kernel/task.rs.
use Prim.Native.String.{String}
use mos_rust.Config.{task_max, page_size_words, pri_min}
use mos_rust.Prelude.{
  ℕ, ◌+◌, ◌/◌, ◌<◌, replicate, ◌≡◌, inl, inr, refl, subst, ap, ◌∙◌, List, Bool, true, false, some,
  none, ltb, length, length-replicate, update, count, count-insert_before, All-count, arith, ok,
  stop, panicked, Run, ◌>>=◌, Result, accepted, rejected,
}
use mos_rust.Prelude.Bits.{test_bit}
use mos_rust.TaskList.{HeaplessVec}
use mos_rust.Kernel.{Tcb, ready, running, Layout, Kernel, ready_insert, set_status}
use mos_rust.Kernel.Invariant.{IsValid}
use mos_rust.Kernel.Invariant.Ids.{free-listed}
use mos_rust.Kernel.Invariant.Moves.{ready_insert_lem, ready_insert-IsValid}
use mos_rust.Kernel.Sched.Switch.{elect-Elected, front_of_count, count-front}
use mos_rust.Kernel.Task.{create, create_raw}
use mos_rust.Kernel.Stack.{context_words}
use mos_rust.Kernel.Task.Create.{
  born, born-IsValid, create-Fresh, create_raw-FreshRaw, preempt_new-none, Lowest,
}
use mos_rust.Kernel.Launch.{launch}
use mos_rust.System.{initial_kernel, Booting, at_reset, created, created_raw, perform, creates}
use mos_rust.System.Running.{IsSized, Runs}

-- Before the launch nothing runs.
pub record IsBooting (k : Kernel) : Type 0 where
  pub valid : IsValid k
  pub sized : IsSized k
  pub nobody : k.current ≡ none

pub initial_kernel-IsBooting : (layout : Layout) → IsBooting (initial_kernel layout)
initial_kernel-IsBooting layout = record {
  valid = record {
    once = λ t. ground arith;
    small = λ t h. refl;
    runs = λ t h. absurd (omega arith);
    waits = λ t h. absurd (omega arith);
    used = λ t h. inl refl;
    owned = λ t. inl refl;
    here = λ c e. cc;
    by_priority = tt;
    by_wake = tt;
  };
  sized = record {
    stacked = λ t. length-replicate {A = ℕ} page_size_words 0;
    clocked = ground arith;
  };
  nobody = refl;
}

module _ ⦃vec : HeaplessVec⦄ where
  -- What `create` returns before the launch.
  pub record Boots (r : Run (Result ℕ String × Kernel)) : Type 0 where
    pub handle : Result ℕ String
    pub after : Kernel
    pub returned : r ≡ ok (handle, after)
    pub booting : IsBooting after
    pub there : (t : ℕ) → handle ≡ accepted t → 0 < count t after.ready_list

  module _ {k : Kernel} (boot : IsBooting k) where
    open boot use {valid, sized, nobody}

    fresh-Boots :
        (t : ℕ) (x : Tcb) (stack : List ℕ) (p : ℕ)
        → Lowest k t
        → x.tid ≡ t
        → x.status ≡ ready
        → x.priority ≡ p
        → length stack ≡ page_size_words
        → Boots (ok (accepted t, ready_insert (born k t x (update k.stacks t stack) k.heap) t p))
    fresh-Boots t x stack p low own fits level size =
        let j = born k t x (update k.stacks t stack) k.heap in
        let v : IsValid j =
          born-IsValid t x (update k.stacks t stack) k.heap valid low.in_range low.free own in
        let out = free-listed valid t low.in_range low.free in
        let at : (j.tcbs t).priority ≡ p = ground arith in
        let v' : IsValid (ready_insert j t p) =
          subst (λ q. IsValid (ready_insert j t q)) at
            (ready_insert-IsValid v t low.in_range out (ground arith)) in
        let one : count t (ready_insert j t p).ready_list ≡ count t k.ready_list + 1 =
          ap (λ i. count t i.ready_list) (ready_insert_lem v t low.in_range out p)
          ∙ ground (arith, count-insert_before t t (λ u. ltb p (j.tcbs u).priority) k.ready_list) in
        record {
          handle = accepted t;
          after = ready_insert j t p;
          returned = refl;
          booting = record {
            valid = v';
            sized = record {
              stacked = λ u. ground (arith, size, sized.stacked u);
              clocked = sized.clocked;
            };
            nobody = nobody;
          };
          there = λ u e. let same : t ≡ u = cc in ground (arith, one);
        }

    raw-IsBooting :
        (t : ℕ) (x : Tcb) (heap : ℕ → List ℕ) (p : ℕ)
        → Lowest k t
        → x.tid ≡ t
        → x.status ≡ ready
        → x.priority ≡ p
        → IsBooting (ready_insert (born k t x k.stacks heap) t p)
    raw-IsBooting t x heap p low own fits level =
        let j = born k t x k.stacks heap in
        let v : IsValid j = born-IsValid t x k.stacks heap valid low.in_range low.free own in
        let out = free-listed valid t low.in_range low.free in
        let at : (j.tcbs t).priority ≡ p = ground arith in
        record {
          valid =
              subst (λ q. IsValid (ready_insert j t q)) at
                (ready_insert-IsValid v t low.in_range out (ground arith));
          sized = record { stacked = sized.stacked; clocked = sized.clocked };
          nobody = nobody;
        }

    heap-IsBooting : (heap : ℕ → List ℕ) → IsBooting (record k { heap = heap })
    heap-IsBooting heap = record {
      valid = record {
        once = valid.once;
        small = valid.small;
        runs = valid.runs;
        waits = valid.waits;
        used = valid.used;
        owned = valid.owned;
        here = valid.here;
        by_priority = valid.by_priority;
        by_wake = valid.by_wake;
      };
      sized = record { stacked = sized.stacked; clocked = sized.clocked };
      nobody = nobody;
    }

    pub create_raw-IsBooting :
        (entry param priority : ℕ) (name : String) (size block : ℕ)
        → context_words < size / 4
        → (k' : Kernel) × ((create_raw k entry param priority name size block >>= λ p. ok p.1)
            ≡ ok k')
          × IsBooting k'
    create_raw-IsBooting entry param priority name size block h =
        elim (create_raw-FreshRaw k entry param priority name size block h) [
          | inl (e, all) ↦
              let heap = update k.heap block (replicate (size / 4) 0) in
              (record k { heap = heap }, ap (λ r. r >>= λ p. ok p.1) e, heap-IsBooting heap)
          | inr f ↦
              let heap = update (update k.heap block (replicate (size / 4) 0)) block f.stack in
              (
                ready_insert (born k f.tid f.tcb k.stacks heap) f.tid priority,
                ap (λ r. r >>= λ p. ok p.1) f.returned,
                raw-IsBooting f.tid f.tcb heap priority f.lowest f.own f.fit f.level,
              )
        ]

    pub create-Boots :
        (closure priority : ℕ) (name : String) → Boots (create k closure priority name)
    create-Boots closure priority name = elim (create-Fresh k closure priority name sized.stacked) [
      | inl (e, all) ↦ rw e (record {
        handle = rejected _;
        after = k;
        returned = refl;
        booting = boot;
        there = λ t e. cc;
      })
      | inr f ↦
          let same : f.stack ≡ f.framed.after = cc (f.framed.returned) in
          let size : length f.stack ≡ page_size_words =
            ap length same ∙ f.framed.same_length ∙ sized.stacked f.tid in
          let j = born k f.tid f.tcb (update k.stacks f.tid f.stack) k.heap in
          rw f.returned (
            rw (preempt_new-none (ready_insert j f.tid priority) priority nobody)
              (fresh-Boots f.tid f.tcb f.stack priority f.lowest f.own f.fit f.level size))
    ]

  -- With an id free, `create` succeeds.
  pub create-accepted :
      {k : Kernel}
      → IsBooting k
      → (closure priority : ℕ) (name : String) (u : ℕ) → u < task_max
      → test_bit k.tid_bitmap u ≡ false
      → (t : ℕ) × (k' : Kernel) × (create k closure priority name ≡ ok (accepted t, k'))
  create-accepted {k} boot closure priority name u lt free =
      elim (create-Fresh k closure priority name boot.sized.stacked) [
        | inl (e, all) ↦ absurd (ground (arith, all u lt))
        | inr f ↦
            let j =
              ready_insert (born k f.tid f.tcb (update k.stacks f.tid f.stack) k.heap) f.tid
                priority in
            (
              f.tid,
              j,
              f.returned
                  ∙ ap (λ r. r >>= λ i. ok (accepted f.tid, i))
                      (preempt_new-none j priority boot.nobody),
            )
      ]

  -- Every state before the launch.
  pub Booting-IsBooting : {layout : Layout} {k : Kernel} → Booting layout k → IsBooting k
  unfolding perform
  Booting-IsBooting {layout} at_reset = initial_kernel-IsBooting layout
  Booting-IsBooting {layout} (created {k} {k'} closure priority name before e) =
      let b = create-Boots (Booting-IsBooting before) closure priority name in
      let at : perform k (creates closure priority name) ≡ ok b.after =
        ap (λ r. r >>= λ p. ok p.1) b.returned in
      let same : b.after ≡ k' = cc in subst IsBooting same b.booting
  Booting-IsBooting {layout}
        (created_raw {k} {k'} entry param priority name size address before h e) =
      let (j, at, b) =
        create_raw-IsBooting (Booting-IsBooting before) entry param priority name size address h in
      let same : j ≡ k' = cc in subst IsBooting same b

  module _ {k : Kernel} (boot : IsBooting k) where
    -- The launch with the idle task created.
    pub launch-Runs :
        (strict : Bool) (closure idle : ℕ) (k1 : Kernel)
        → create k closure pri_min "idle" ≡ ok (accepted idle, k1)
        → Runs strict idle (launch k closure)
    unfolding launch
    launch-Runs strict closure idle k1 e =
        let b = create-Boots boot closure pri_min "idle" in
        let same : b.after ≡ k1 = cc (e, b.returned) in
        let given : b.handle ≡ accepted idle = cc (e, b.returned) in
        let booted : IsBooting k1 = subst IsBooting same b.booting in
        let there : 0 < count idle k1.ready_list =
          subst (λ j. 0 < count idle j.ready_list) same (b.there idle given) in
        let (first, at) = front_of_count idle k1.ready_list there in
        let el = elect-Elected first booted.valid at in
        let k' : Kernel = record (set_status k1 first running) {
          current = some first;
          sched_ready = true;
        } in
        let done : launch k closure ≡ ok k' =
          rw (e, launch)
            (ap
              (λ o. elim o [
                | none ↦ stop panicked
                | some f ↦
                    ok (record (set_status k1 f running) { current = some f; sched_ready = true })
              ])
              at) in
        let v = el.valid in
        let valid_ : IsValid k' = record {
          once = v.once;
          small = v.small;
          runs = v.runs;
          waits = v.waits;
          used = v.used;
          owned = v.owned;
          here = v.here;
          by_priority = v.by_priority;
          by_wake = v.by_wake;
        } in
        record {
          after = k';
          task = first;
          returned = done;
          running = record {
            live = record { valid = valid_; runs_now = refl; started = refl };
            sized = record { stacked = booted.sized.stacked; clocked = booted.sized.clocked };
            fit = el.fit;
            present = count-front first k1.ready_list at;
            idle_ready = there;
            highest = λ s t ht. All-count _ t k1.ready_list el.highest ht;
          };
        }
