-- ===== src/Kernel/Task/Admit.antt =====
-- `Task::create` of core/src/kernel/task.rs in a running system, with the switch that may follow.
use Prim.Native.String.{String}
use mos_rust.Config.{task_max, page_size_words}
use mos_rust.Prelude.{
  ℕ, ◌+◌, ◌≤◌, ◌<◌, ◌≡◌, ◌⊎◌, inl, inr, refl, ap, subst, ◌∙◌, true, ltb, ◌==◌, if◌then◌else◌,
  length, update, count, count-insert_before, All-count, Bool-cases, arith, Run, ok, ◌>>=◌, Result,
  accepted, rejected,
}
use mos_rust.Prelude.Bits.{test_bit}
use mos_rust.TaskList.{HeaplessVec}
use mos_rust.Kernel.{Kernel, ready_insert}
use mos_rust.Kernel.Invariant.{IsValid, is_runnable}
use mos_rust.Kernel.Invariant.Ids.{free-listed}
use mos_rust.Kernel.Invariant.Moves.{ready_insert_lem, ready_insert-IsValid}
use mos_rust.Kernel.Sched.{next_tcb, yield_task}
use mos_rust.Kernel.Sched.Switch.{Elected, next_tcb-Switched}
use mos_rust.Kernel.Task.{create, pool_full}
use mos_rust.Kernel.Task.Block.{IsLive}
use mos_rust.Kernel.Task.Create.{Fresh, create-Fresh, born, born-IsValid, preempt_new-eq}
use mos_rust.Kernel.Task.Leave.{yield_started}

module _ ⦃vec : HeaplessVec⦄ where
  -- The kernel with the new task in the ready list, before any switch.
  abbrev pub admitted :
      {k : Kernel} {closure priority : ℕ} {name : String} {r : Run (Result ℕ String × Kernel)}
      → Fresh k closure priority name r
      → Kernel
  admitted {k} {priority = priority} f =
      ready_insert (born k f.tid f.tcb (update k.stacks f.tid f.stack) k.heap) f.tid priority

  -- What `create` leads to when task `c` is running and an id is free.
  pub record Created (k : Kernel) (c closure priority : ℕ) (name : String)
      (r : Run (Result ℕ String × Kernel)) : Type 0 where
    pub fresh : Fresh k closure priority name r
    pub after : Kernel
    pub gives : r ≡ ok (accepted fresh.tid, after)
    pub valid : IsValid after
    pub as_built : (admitted fresh).tcbs fresh.tid ≡ fresh.tcb
    pub stack_kept : after.stacks fresh.tid ≡ fresh.stack
    pub listed_then :
        (t : ℕ)
        → count t (admitted fresh).ready_list
          ≡ count t k.ready_list + (if fresh.tid == t then 1 else 0)
    pub is_ready : count fresh.tid after.ready_list ≡ 1
    pub next :
        (((k.tcbs c).priority ≤ priority) × (after ≡ admitted fresh) × (after.current ≡ k.current))
        ⊎ ((priority < (k.tcbs c).priority)
            × (next_tcb (admitted fresh) ≡ ok after)
            × ((st : ℕ) × Elected after st × ((after.tcbs st).priority ≤ priority)))

  module _ {k : Kernel} (c : ℕ) (live : IsLive k c) (fit : is_runnable (k.tcbs c).status ≡ true)
      (sized : (t : ℕ) → length (k.stacks t) ≡ page_size_words) where
    admit-Created :
        (closure priority : ℕ) (name : String) {r : Run (Result ℕ String × Kernel)}
        → Fresh k closure priority name r
        → Created k c closure priority name r
    admit-Created closure priority name f =
        let stacks = update k.stacks f.tid f.stack in
        let j0 = born k f.tid f.tcb stacks k.heap in
        let j = admitted f in
        let v0 : IsValid j0 =
          born-IsValid f.tid f.tcb stacks k.heap live.valid f.lowest.in_range f.lowest.free f.own in
        let out = free-listed live.valid f.tid f.lowest.in_range f.lowest.free in
        let level : (j0.tcbs f.tid).priority ≡ priority = ground (arith, f.level) in
        let v : IsValid j =
          subst (λ q. IsValid (ready_insert j0 f.tid q)) level
            (ready_insert-IsValid v0 f.tid f.lowest.in_range out (ground (arith, f.fit))) in
        let more : (t : ℕ)
            → count t j.ready_list ≡ count t k.ready_list + (if f.tid == t then 1 else 0) =
          λ t.
            ap (λ i. count t i.ready_list)
              (ready_insert_lem v0 f.tid f.lowest.in_range out priority)
            ∙ count-insert_before t f.tid (λ u. ltb priority (j0.tcbs u).priority) k.ready_list in
        let one : count f.tid j.ready_list ≡ 1 = ground (arith, more f.tid, out) in
        let busy : (j.tcbs c).priority ≡ (k.tcbs c).priority =
          ground
            (arith, fit, live.valid.used c (live.valid.here c live.runs_now).1, f.lowest.free) in
        let whole =
          f.returned
          ∙ ap (λ y. y >>= λ i. ok (accepted f.tid, i))
              (preempt_new-eq j c priority live.runs_now live.started) in
        elim (Bool-cases (ltb priority (j.tcbs c).priority)) [
          | inl higher ↦
              let (k', st, s) = next_tcb-Switched v c live.runs_now f.tid (omega (arith, one)) in
              let here = s.kept f.tid (omega (arith, one)) in
              let first = All-count _ f.tid k'.ready_list s.elected.highest here in
              record {
                fresh = f;
                after = k';
                gives =
                    whole
                    ∙ ap (λ b. (if b then yield_task j else ok j) >>= λ i. ok (accepted f.tid, i))
                        higher
                    ∙ ap (λ y. y >>= λ i. ok (accepted f.tid, i))
                        (yield_started j live.started ∙ s.returned);
                valid = s.elected.valid;
                as_built = ground arith;
                stack_kept = ap (λ g. g f.tid) s.stacks ∙ ground arith;
                listed_then = more;
                is_ready = ground (arith, s.elected.valid.once f.tid);
                next = inr (
                  ground (arith, busy),
                  s.returned,
                  (st, s.elected, ground (arith, first, s.priority f.tid, level)),
                );
              }
          | inr lower ↦ record {
            fresh = f;
            after = j;
            gives =
                whole
                ∙ ap (λ b. (if b then yield_task j else ok j) >>= λ i. ok (accepted f.tid, i))
                    lower;
            valid = v;
            as_built = ground arith;
            stack_kept = ground arith;
            listed_then = more;
            is_ready = one;
            next = inl (ground (arith, busy), refl, refl);
          }
        ]

  -- In a running system whose current task is runnable and whose stacks have their size, `create`
  -- does not panic. It fails only with every id taken, and then changes nothing. Otherwise the lowest
  -- free id gets a control block and a first frame that enters the trampoline, which the task's end
  -- leaves by the exit stub, and is added to the ready list, once, with the invariant kept. Either its
  -- priority is not higher than the current task's, which goes on, or it is higher, and `next_tcb`
  -- then elects a task of at least that priority.
  pub create-Created :
      {k : Kernel} (c closure priority : ℕ) (name : String)
      → IsLive k c
      → is_runnable (k.tcbs c).status ≡ true
      → ((t : ℕ) → length (k.stacks t) ≡ page_size_words)
      → ((create k closure priority name ≡ ok (rejected pool_full, k))
          × ((u : ℕ) → u < task_max → test_bit k.tid_bitmap u ≡ true))
        ⊎ Created k c closure priority name (create k closure priority name)
  create-Created {k} c closure priority name live fit sized =
      elim (create-Fresh k closure priority name sized) [
        | inl full ↦ inl full
        | inr f ↦ inr (admit-Created c live fit sized closure priority name f)
      ]
