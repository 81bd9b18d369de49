-- ===== src/Kernel/Task/Block.antt =====
-- `Task::block` and `Task::resume` of core/src/kernel/task.rs.
use mos_rust.Config.{task_max}
use mos_rust.Prelude.{
  ℕ, ltb, ◌==◌, if◌then◌else◌, any, any-count, ◌⊎◌, inl, inr, Bool-cases, refl, ◌≤◌,
  count-insert_before, All-count, ◌<◌, ◌≡◌, ◌≢◌, ap, ◌∙◌, [], ◌∷◌, ◌++◌, true, some, none, count,
  count-append, arith, ok,
}
use mos_rust.TaskList.{HeaplessVec}
use mos_rust.Kernel.{Kernel, blocked, ready, set_status, blocked_remove, ready_insert, blocked_push}
use mos_rust.Kernel.Invariant.{IsValid, listed, is_runnable}
use mos_rust.Kernel.Invariant.Moves.{
  set_status-IsValid, blocked_remove-IsValid, blocked_remove-listed, ready_insert-IsValid,
  ready_insert_lem, blocked_push-IsValid, blocked_push_lem,
}
use mos_rust.Kernel.Sched.{yield_task}
use mos_rust.Kernel.Sched.Switch.{Elected, next_tcb-Switched, count-front}
use mos_rust.Kernel.Task.{block, resume, preempt_woken}
use mos_rust.Kernel.Task.Leave.{left, left-listed, left-IsValid, left-others, yield_started}

module _ ⦃vec : HeaplessVec⦄ where
  -- The running system: the invariant, the scheduler started, a current task.
  pub record IsLive (k : Kernel) (c : ℕ) : Type 0 where
    pub valid : IsValid k
    pub runs_now : k.current ≡ some c
    pub started : k.sched_ready ≡ true

  pub block-runnable :
      (k : Kernel) (tid : ℕ)
      → tid < task_max
      → is_runnable (k.tcbs tid).status ≡ true
      → block k tid ≡ yield_task (blocked_push (left k tid) tid)
  unfolding block
  block-runnable k tid lt run = ground arith

  -- A task that is not ready or running is left as it is.
  pub block_other :
      (k : Kernel) (tid : ℕ)
      → tid < task_max
      → is_runnable (k.tcbs tid).status ≢ true
      → block k tid ≡ ok k
  unfolding block
  block_other k tid lt h = ground arith

  -- In a running system with some other task ready, `block` of a ready or running task puts it at
  -- the end of the blocked list and off the ready list, and another task of the highest ready
  -- priority runs; the invariant is kept.
  pub block-Elected :
      {k : Kernel} (c tid i : ℕ)
      → IsLive k c
      → tid < task_max
      → is_runnable (k.tcbs tid).status ≡ true
      → i ≢ tid
      → 0 < count i k.ready_list
      → (k' : Kernel) × (st : ℕ) × (block k tid ≡ ok k')
        × Elected k' st
        × (k'.blocked_list ≡ k.blocked_list ++ (tid ∷ []))
        × (count tid k'.ready_list ≡ 0)
        × (st ≢ tid)
  block-Elected {k} c tid i live lt run ne h =
      let v1 = left-IsValid live.valid tid run in
      let out = left-listed live.valid tid run in
      let v2 = blocked_push-IsValid v1 tid lt out (ground arith) in
      let push = blocked_push_lem v1 tid lt out in
      let others = left-others live.valid tid run i ne h in
      let (k', st, s) = next_tcb-Switched v2 c live.runs_now i others in
      let list : k'.blocked_list ≡ k.blocked_list ++ (tid ∷ []) =
        s.blockers ∙ ap (λ j. j.blocked_list) push in
      let gone : count tid k'.ready_list ≡ 0 = ground (
        arith,
        s.elected.valid.once tid,
        ap (count tid) list,
        count-append tid k.blocked_list (tid ∷ []),
      ) in
      (
        k',
        st,
        block-runnable k tid lt run
            ∙ yield_started (blocked_push (left k tid) tid) live.started
            ∙ s.returned,
        s.elected,
        list,
        gone,
        λ e. absurd (
            ground (
              arith,
              count-front st k'.ready_list s.elected.first,
              gone,
              ap (λ t. count t k'.ready_list) e,
            )),
      )

  -- The task moved from the blocked list to the ready list.
  abbrev pub resumed : Kernel → ℕ → Kernel
  resumed k tid = set_status (blocked_remove k tid) tid ready

  module _ {k : Kernel} (v : IsValid k) (tid : ℕ) (h : 0 < count tid k.blocked_list) where
    pub was_blocked : (k.tcbs tid).status ≡ blocked
    was_blocked = v.waits tid (omega arith)

    pub in_range : tid < task_max
    in_range = ground (arith, v.small tid)

    pub unlisted : listed (resumed k tid) tid ≡ 0
    unlisted = blocked_remove-listed v tid h

    pub resumed-IsValid : IsValid (resumed k tid)
    resumed-IsValid =
        set_status-IsValid (blocked_remove-IsValid v tid) tid ready (λ p. cc)
          (λ p. ground (arith, was_blocked)) (λ p. refl) (λ p. absurd (omega (arith, unlisted)))

    abbrev pub back : Kernel
    back = ready_insert (resumed k tid) tid ((resumed k tid).tcbs tid).priority

    pub back-IsValid : IsValid back
    back-IsValid = ready_insert-IsValid resumed-IsValid tid in_range unlisted (ground arith)

    pub back-count : count tid back.ready_list ≡ 1
    back-count =
        ap (λ j. count tid j.ready_list)
          (ready_insert_lem resumed-IsValid tid in_range unlisted
            ((resumed k tid).tcbs tid).priority)
        ∙ ground (
          arith,
          unlisted,
          count-insert_before tid tid
              (λ u. ltb ((resumed k tid).tcbs tid).priority ((resumed k tid).tcbs u).priority)
              k.ready_list,
        )

    pub resume-eq : resume k tid ≡ preempt_woken back (k.tcbs tid).priority
    unfolding resume
    resume-eq =
        let listed_ : any (λ t. t == tid) k.blocked_list ≡ true =
          ground (arith, any-count tid k.blocked_list) in
        ground (arith, was_blocked, in_range, listed_)

  pub preempt_woken-eq :
      (k : Kernel) (c p : ℕ)
      → k.current ≡ some c
      → preempt_woken k p ≡ (if ltb p (k.tcbs c).priority then yield_task k else ok k)
  unfolding preempt_woken
  preempt_woken-eq k c p at =
      ap
        (λ o. elim o [
          | none ↦ ok k
          | some d ↦ if ltb p (k.tcbs d).priority then yield_task k else ok k
        ])
        at

  -- A task that is not in the blocked list is left as it is.
  pub resume_absent :
      (k : Kernel) (tid : ℕ) → tid < task_max → count tid k.blocked_list ≡ 0 → resume k tid ≡ ok k
  unfolding resume
  resume_absent k tid lt h = ground (arith, any-count tid k.blocked_list)

  -- In a running system `resume` of a task in the blocked list does not panic. It keeps the
  -- invariant and moves the task from the blocked list to the ready list. Either the task's priority
  -- is not higher than the current task's, and the current task goes on, or it is higher, and a task
  -- of at least that priority runs next, which is the head of the ready list.
  pub resume-Elected :
      {k : Kernel} (c tid : ℕ)
      → IsLive k c
      → 0 < count tid k.blocked_list
      → (k' : Kernel) × (resume k tid ≡ ok k')
        × IsValid k'
        × (count tid k'.blocked_list ≡ 0)
        × (count tid k'.ready_list ≡ 1)
        × ((((k.tcbs c).priority ≤ (k.tcbs tid).priority) × (k'.current ≡ some c))
            ⊎ (((k.tcbs tid).priority < (k.tcbs c).priority)
                × ((st : ℕ) × Elected k' st × ((k'.tcbs st).priority ≤ (k.tcbs tid).priority))))
  resume-Elected {k} c tid live h =
      let v = live.valid in
      let v2 = back-IsValid v tid h in
      let one = back-count v tid h in
      let j = back v tid h in
      let p = (k.tcbs tid).priority in
      let same : (j.tcbs c).priority ≡ (k.tcbs c).priority = ground arith in
      let whole = resume-eq v tid h ∙ preempt_woken-eq j c p live.runs_now in
      elim (Bool-cases (ltb p (j.tcbs c).priority)) [
        | inl higher ↦
            let (k', st, s) = next_tcb-Switched v2 c live.runs_now tid (omega (arith, one)) in
            let here = s.kept tid (omega (arith, one)) in
            let first = All-count _ tid k'.ready_list s.elected.highest here in
            (
              k',
              whole
                  ∙ ap (λ b. if b then yield_task j else ok j) higher
                  ∙ yield_started j live.started
                  ∙ s.returned,
              s.elected.valid,
              ground (arith, s.elected.valid.once tid),
              ground (arith, s.elected.valid.once tid),
              inr (ground arith, (st, s.elected, ground (arith, first, s.priority tid))),
            )
        | inr lower ↦ (
          j,
          whole ∙ ap (λ b. if b then yield_task j else ok j) lower,
          v2,
          ground (arith, v2.once tid),
          one,
          inl (ground arith, live.runs_now),
        )
      ]
