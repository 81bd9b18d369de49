-- ===== src/Kernel/Sched/Requeue.antt =====
-- `next_tcb` of core/src/kernel/sched.rs: the task that ran goes back to the ready list, or
-- leaves it, and the invariant is kept.
use mos_rust.Config.{time_slice_ticks}
use mos_rust.Prelude.{
  fun_ext, ℕ, ◌<◌, ◌≡◌, ◌≢◌, refl, ap, ◌∙◌, inl, inr, true, some, ltb, ◌==◌, ◌||◌, count, erase,
  count-erase, count-insert_before, insert_before, arith, Bool-cases,
}
use mos_rust.TaskList.{HeaplessVec}
use mos_rust.TaskList.Laws.{remove_lem}
use mos_rust.Kernel.{
  TaskStatus, terminated, ready, running, blocked, status_eq, Kernel, set_status, set_time_slice,
  ready_remove, ready_insert,
}
use mos_rust.Kernel.Invariant.{IsValid, is_runnable, parked, listed}
use mos_rust.Kernel.Invariant.Moves.{
  set_status-IsValid, set_time_slice-IsValid, ready_remove-IsValid, ready_remove-listed,
  ready_insert-IsValid, ready_insert_lem,
}
use mos_rust.Kernel.Sched.{requeue}

pub runnable-ne : (s : TaskStatus) → is_runnable s ≡ true → (s ≢ terminated) × (s ≢ blocked)
runnable-ne ready e = (λ p. cc, λ p. cc)
runnable-ne running e = (λ p. cc, λ p. cc)
runnable-ne terminated e = (λ p. cc, λ p. cc)
runnable-ne blocked e = (λ p. cc, λ p. cc)

-- What a change of the running task leaves alone.
pub record SameRest (k k' : Kernel) : Type 0 where
  pub blockers : k'.blocked_list ≡ k.blocked_list
  pub sleepers : k'.sleeping_list ≡ k.sleeping_list
  pub ticks : k'.os_ticks ≡ k.os_ticks
  pub bitmap : k'.tid_bitmap ≡ k.tid_bitmap
  pub started : k'.sched_ready ≡ k.sched_ready
  pub stacks : k'.stacks ≡ k.stacks
  pub unmoved :
      (t : ℕ) → count t k.ready_list ≡ 0 → (k.tcbs t).status ≡ blocked → k'.tcbs t ≡ k.tcbs t
  pub priority : (t : ℕ) → (k'.tcbs t).priority ≡ (k.tcbs t).priority

module _ ⦃vec : HeaplessVec⦄ where
  -- The task that ran goes behind the others of its priority with a new time slice.
  abbrev pub rotated : Kernel → ℕ → Kernel
  rotated k c =
      let k1 = ready_remove (set_status (set_time_slice k c time_slice_ticks) c ready) c in
      ready_insert k1 c (k1.tcbs c).priority

  module _ {k : Kernel} (v : IsValid k) (c : ℕ) (at : k.current ≡ some c) where
    -- The task that ran, taken off the ready list and marked ready.
    abbrev taken : Kernel
    taken = ready_remove (set_status (set_time_slice k c time_slice_ticks) c ready) c

    module _ (live : (k.tcbs c).status ≢ terminated) (awake : (k.tcbs c).status ≢ blocked) where
      marked-IsValid : IsValid (set_status (set_time_slice k c time_slice_ticks) c ready)
      marked-IsValid =
          let free : parked k c ≡ 0 = ground (arith, v.waits c) in
          set_status-IsValid (set_time_slice-IsValid v c time_slice_ticks) c ready (λ p. cc)
            (λ p. live (ground arith)) (λ h. refl) (λ h. absurd (omega arith))

      taken-listed : listed taken c ≡ 0
      taken-listed = ready_remove-listed marked-IsValid c (ground (arith, v.waits c))

      rotated-IsValid : IsValid (rotated k c)
      rotated-IsValid =
          ready_insert-IsValid (ready_remove-IsValid marked-IsValid c) c (v.here c at).1
            taken-listed (ground arith)

      -- Behind the ready tasks whose priority is at least as high.
      pub rotated-ready_list :
          (rotated k c).ready_list
          ≡ insert_before
              (λ u. ltb (k.tcbs c).priority (k.tcbs u).priority)
              c
              (erase k.ready_list c)
      rotated-ready_list =
          ap (λ j. j.ready_list)
            (ready_insert_lem (ready_remove-IsValid marked-IsValid c) c (v.here c at).1 taken-listed
              (taken.tcbs c).priority)
          ∙ rw (remove_lem k.ready_list c)
              (ap (λ p. insert_before p c (erase k.ready_list c)) (fun_ext λ u. ground arith))

    pub requeue-IsValid : IsValid (requeue k c)
    unfolding requeue
    requeue-IsValid =
        elim (Bool-cases
          (status_eq (k.tcbs c).status terminated || status_eq (k.tcbs c).status blocked)) [
            | inl gone ↦ rw gone (ready_remove-IsValid v c)
            | inr stays ↦
                elim (Bool-cases
                  ((k.tcbs c).time_slice == 0 || status_eq (k.tcbs c).status running)) [
                    | inl spent ↦ rw (stays, spent) (rotated-IsValid (ground arith) (ground arith))
                    | inr keeps ↦ rw (stays, keeps) v
                  ]
          ]

    -- What is in the ready list stays there.
    pub requeue-keeps : (t : ℕ) → 0 < count t k.ready_list → 0 < count t (requeue k c).ready_list
    unfolding requeue
    requeue-keeps t h =
        elim (Bool-cases
          (status_eq (k.tcbs c).status terminated || status_eq (k.tcbs c).status blocked)) [
            | inl gone ↦
                let other : c ≢ t = λ e. ground (arith, v.runs t h) in
                rw (gone, remove_lem k.ready_list c) (ground (arith, count-erase t c k.ready_list))
            | inr stays ↦
                elim (Bool-cases
                  ((k.tcbs c).time_slice == 0 || status_eq (k.tcbs c).status running)) [
                    | inl spent ↦
                        rw (stays, spent, rotated-ready_list (ground arith) (ground arith))
                          (ground (
                            arith,
                            count-insert_before t c
                                (λ u. ltb (k.tcbs c).priority (k.tcbs u).priority)
                                (erase k.ready_list c),
                            count-erase t c k.ready_list,
                          ))
                    | inr keeps ↦ rw (stays, keeps) h
                  ]
          ]

    -- A blocked task that is not in the ready list does not get there.
    pub requeue-absent :
        (t : ℕ)
        → count t k.ready_list ≡ 0
        → (k.tcbs t).status ≡ blocked
        → count t (requeue k c).ready_list ≡ 0
    unfolding requeue
    requeue-absent t h b =
        elim (Bool-cases
          (status_eq (k.tcbs c).status terminated || status_eq (k.tcbs c).status blocked)) [
            | inl gone ↦
                rw (gone, remove_lem k.ready_list c) (ground (arith, count-erase t c k.ready_list))
            | inr stays ↦
                let other : c ≢ t = λ e. ground arith in
                elim (Bool-cases
                  ((k.tcbs c).time_slice == 0 || status_eq (k.tcbs c).status running)) [
                    | inl spent ↦
                        rw (stays, spent, rotated-ready_list (ground arith) (ground arith))
                          (ground (
                            arith,
                            count-insert_before t c
                                (λ u. ltb (k.tcbs c).priority (k.tcbs u).priority)
                                (erase k.ready_list c),
                            count-erase t c k.ready_list,
                          ))
                    | inr keeps ↦ rw (stays, keeps) h
                  ]
          ]

  pub requeue-current : (k : Kernel) (c : ℕ) → (requeue k c).current ≡ k.current
  unfolding requeue
  requeue-current k c = ground arith

  pub requeue-SameRest : (k : Kernel) (c : ℕ) → SameRest k (requeue k c)
  unfolding requeue
  requeue-SameRest k c = record {
    blockers = ground arith;
    sleepers = ground arith;
    ticks = ground arith;
    bitmap = ground arith;
    started = ground arith;
    stacks = ground arith;
    unmoved = λ t h e. ground arith;
    priority = λ t. ground arith;
  }
