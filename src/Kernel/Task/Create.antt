-- ===== src/Kernel/Task/Create.antt =====
-- `Task::create` and `Task::create_raw` of core/src/kernel/task.rs, up to the switch that may
-- follow: which id the task gets, its control block and its stack.
use Prim.Native.String.{String}
use mos_rust.Config.{task_max, page_size_words, time_slice_ticks}
use mos_rust.Prelude.{
  ℕ, ◌+◌, ◌*◌, ◌/◌, ◌-◌, ◌<◌, ◌≡◌, ◌⊎◌, ◌&&◌, inl, inr, refl, ap, sym, ◌∙◌, List, true, false, none,
  some, update, replicate, length, length-replicate, if◌then◌else◌, ltb, Option-cases,
  IsSortedBy-agree, arith, Run, ok, ◌>>=◌, Result, accepted, rejected,
}
use mos_rust.Prelude.Bits.{test_bit, test_bit-set_bit}
use mos_rust.TaskList.{HeaplessVec}
use mos_rust.Kernel.{ready, Tcb, Kernel, ready_insert, alloc_tid}
use mos_rust.Kernel.Invariant.{IsValid}
use mos_rust.Kernel.Invariant.Ids.{allocated, alloc_tid-Allocates, free-listed}
use mos_rust.Kernel.Stack.{context_words, init_stack_frame}
use mos_rust.Kernel.Stack.Frame.{Framed, init_stack_frame-Framed, init_stack_frame_raw-Framed}
use mos_rust.Kernel.Sched.{yield_task}
use mos_rust.Kernel.Task.{create, create_as, create_raw, preempt_new, pool_full}

-- The kernel with the new task `t`, before it is in the ready list.
abbrev pub born : Kernel → ℕ → Tcb → (ℕ → List ℕ) → (ℕ → List ℕ) → Kernel
born k t x stacks heap = record (allocated k t) {
  tcbs = update (allocated k t).tcbs t x;
  stacks = stacks;
  heap = heap;
}

pub born-IsValid :
    {k : Kernel} (t : ℕ) (x : Tcb) (stacks heap : ℕ → List ℕ)
    → IsValid k
    → t < task_max
    → test_bit k.tid_bitmap t ≡ false
    → x.tid ≡ t
    → IsValid (born k t x stacks heap)
born-IsValid {k} t x stacks heap v lt free own =
    let out = free-listed v t lt free in
    record {
      once = v.once;
      small = v.small;
      runs = λ u h. ground (arith, v.runs u h);
      waits = λ u h. ground (arith, v.waits u h);
      used = λ u h. ground (arith, v.used u h, test_bit-set_bit k.tid_bitmap t u);
      owned = λ u. ground (arith, v.owned u);
      here = λ c e. ground (arith, v.here c e);
      by_priority = IsSortedBy-agree _ _ k.ready_list (λ u h. ground arith) v.by_priority;
      by_wake = IsSortedBy-agree _ _ k.sleeping_list (λ u h. ground arith) v.by_wake;
    }

-- The lowest free id.
pub record Lowest (k : Kernel) (t : ℕ) : Type 0 where
  pub in_range : t < task_max
  pub free : test_bit k.tid_bitmap t ≡ false
  pub before : (u : ℕ) → u < t → test_bit k.tid_bitmap u ≡ true

-- Either every id is taken, or `alloc_tid` hands out the lowest free one.
alloc_tid-cases :
    (k : Kernel)
    → ((alloc_tid k ≡ none) × ((u : ℕ) → u < task_max → test_bit k.tid_bitmap u ≡ true))
      ⊎ ((t : ℕ) × (alloc_tid k ≡ some (t, allocated k t)) × Lowest k t)
alloc_tid-cases k = elim (Option-cases (alloc_tid k)) [
  | inl e ↦ let all = rw e at (alloc_tid-Allocates k) in inl (e, λ u lt. all u (omega arith) lt)
  | inr ((t, k'), e) ↦
      let (lo, lt, free, same, before) = rw e at (alloc_tid-Allocates k) in
      inr (
        t,
        e ∙ ap (λ j. some (t, j)) same,
        record { in_range = lt; free = free; before = λ u h. before u (omega arith) h },
      )
]

module _ ⦃vec : HeaplessVec⦄ where
  -- A task that was created and waits to be put into the ready list.
  pub record Fresh (k : Kernel) (closure priority : ℕ) (name : String)
      (r : Run (Result ℕ String × Kernel)) : Type 0 where
    pub tid : ℕ
    pub lowest : Lowest k tid
    pub tcb : Tcb
    pub stack : List ℕ
    pub own : tcb.tid ≡ tid
    pub fit : tcb.status ≡ ready
    pub level : tcb.priority ≡ priority
    pub slice : tcb.time_slice ≡ time_slice_ticks
    pub called : tcb.name ≡ name
    pub runs : tcb.closure ≡ some closure
    pub frame_at : tcb.sp ≡ k.layout.stack_base tid + 4 * (page_size_words - context_words)
    pub framed :
        Framed
          (k.stacks tid)
          k.layout.closure_trampoline
          0
          k.layout.task_exit_stub
          (ok (stack, page_size_words - context_words))
    pub returned : r ≡ (
        preempt_new
          (ready_insert (born k tid tcb (update k.stacks tid stack) k.heap) tid priority)
          priority
        >>= λ j. ok (accepted tid, j))

  create_as-Fresh :
      (k : Kernel) (t closure priority : ℕ) (name : String)
      → length (k.stacks t) ≡ page_size_words
      → Lowest k t
      → Fresh k closure priority name (create_as (allocated k t) t closure priority name)
  unfolding create_as
  create_as-Fresh k t closure priority name sized low =
      let entry = k.layout.closure_trampoline in
      let f =
        init_stack_frame-Framed (k.stacks t) entry 0 k.layout.task_exit_stub
          (omega (arith, sized)) in
      let base : length (k.stacks t) - context_words ≡ page_size_words - context_words =
        omega (arith, sized) in
      let at : init_stack_frame (k.stacks t) entry 0 k.layout.task_exit_stub
          ≡ ok (f.after, page_size_words - context_words) =
        f.returned ∙ ap (λ b. ok (f.after, b)) base in
      record {
        tid = t;
        lowest = low;
        tcb = record ((allocated k t).tcbs t) {
          closure = some closure;
          sp = k.layout.stack_base t + 4 * (page_size_words - context_words);
          status = ready;
          priority = priority;
          time_slice = time_slice_ticks;
          name = name;
          stack_bottom = k.layout.stack_base t;
        };
        stack = f.after;
        own = ground arith;
        fit = refl;
        level = refl;
        slice = refl;
        called = refl;
        runs = refl;
        frame_at = refl;
        framed = record {
          after = f.after;
          returned = ap (λ b. ok (f.after, b)) (sym base);
          same_length = f.same_length;
          below = f.below;
          frame = f.frame;
        };
        returned = rw at refl;
      }

  -- `create` fails only with every id taken, and then changes nothing; otherwise the lowest free id
  -- gets a control block and a first frame that enters the trampoline, which the task's end leaves
  -- by the exit stub, and goes into the ready list.
  pub create-Fresh :
      (k : Kernel) (closure priority : ℕ) (name : String)
      → ((t : ℕ) → length (k.stacks t) ≡ page_size_words)
      → ((create k closure priority name ≡ ok (rejected pool_full, k))
          × ((u : ℕ) → u < task_max → test_bit k.tid_bitmap u ≡ true))
        ⊎ Fresh k closure priority name (create k closure priority name)
  unfolding create
  create-Fresh k closure priority name sized = elim (alloc_tid-cases k) [
    | inl (e, all) ↦ inl (rw (e, create) refl, all)
    | inr (t, e, low) ↦
        inr (rw (e, create) (create_as-Fresh k t closure priority name (sized t) low))
  ]

  -- A task over a block of the heap, in the ready list.
  pub record FreshRaw (k : Kernel) (entry param priority : ℕ) (name : String) (words : List ℕ)
      (block : ℕ) (r : Run (Result ℕ String × Kernel)) : Type 0 where
    pub tid : ℕ
    pub lowest : Lowest k tid
    pub tcb : Tcb
    pub stack : List ℕ
    pub own : tcb.tid ≡ tid
    pub fit : tcb.status ≡ ready
    pub level : tcb.priority ≡ priority
    pub slice : tcb.time_slice ≡ time_slice_ticks
    pub called : tcb.name ≡ name
    pub frame_at : tcb.sp ≡ block + 4 * (length words - context_words)
    pub framed :
        Framed words entry param k.layout.task_exit_stub (ok (stack, length words - context_words))
    pub returned :
        r
        ≡ ok (
          accepted tid,
          ready_insert
              (born k tid tcb k.stacks (update (update k.heap block words) block stack))
              tid
              priority,
        )

  -- `create_raw` fails only with every id taken; otherwise, with a stack that is larger than a
  -- frame, the lowest free id gets a control block whose stack is the given block, with a first
  -- frame that enters the function with its parameter, and goes into the ready list.
  pub create_raw-FreshRaw :
      (k : Kernel) (entry param priority : ℕ) (name : String) (stack_size block : ℕ)
      → context_words < stack_size / 4
      → let words : List ℕ = replicate (stack_size / 4) 0 in
        let r = create_raw k entry param priority name stack_size block in
        ((r ≡ ok (rejected pool_full, record k { heap = update k.heap block words }))
          × ((u : ℕ) → u < task_max → test_bit k.tid_bitmap u ≡ true))
        ⊎ FreshRaw k entry param priority name words block r
  unfolding create_raw
  create_raw-FreshRaw k entry param priority name stack_size block h =
      let words : List ℕ = replicate (stack_size / 4) 0 in
      let k0 : Kernel = record k { heap = update k.heap block words } in
      elim (alloc_tid-cases k0) [
        | inl (e, all) ↦ inl (rw (e, create_raw) refl, all)
        | inr (t, e, low) ↦
            let size = length-replicate {A = ℕ} (stack_size / 4) 0 in
            let f =
              init_stack_frame_raw-Framed words entry param k.layout.task_exit_stub
                (omega (arith, size)) in
            inr (record {
              tid = t;
              lowest = record { in_range = low.in_range; free = low.free; before = low.before };
              tcb = record ((allocated k t).tcbs t) {
                sp = block + 4 * (length words - context_words);
                status = ready;
                priority = priority;
                time_slice = time_slice_ticks;
                name = name;
                stack_bottom = block;
                heap_stack_base = block;
              };
              stack = f.after;
              own = ground arith;
              fit = refl;
              level = refl;
              slice = refl;
              called = refl;
              frame_at = refl;
              framed = record {
                after = f.after;
                returned = refl;
                same_length = f.same_length;
                below = f.below;
                frame = f.frame;
              };
              returned = rw (e, create_raw) (rw f.returned refl);
            })
      ]

  pub preempt_new-eq :
      (k : Kernel) (c p : ℕ)
      → k.current ≡ some c
      → k.sched_ready ≡ true
      → preempt_new k p ≡ (if ltb p (k.tcbs c).priority then yield_task k else ok k)
  unfolding preempt_new
  preempt_new-eq k c p at started =
      ap
        (λ o. elim o [
          | none ↦ ok k
          | some d ↦ if k.sched_ready && ltb p (k.tcbs d).priority then yield_task k else ok k
        ])
        at
      ∙ ap (λ b. if b && ltb p (k.tcbs c).priority then yield_task k else ok k) started

  pub preempt_new-none : (k : Kernel) (p : ℕ) → k.current ≡ none → preempt_new k p ≡ ok k
  unfolding preempt_new
  preempt_new-none k p at =
      ap
        (λ o. elim o [
          | none ↦ ok k
          | some d ↦ if k.sched_ready && ltb p (k.tcbs d).priority then yield_task k else ok k
        ])
        at
