-- ===== src/Kernel/Task/Rouse.antt =====
-- A waiting task becomes ready and may take over: the end of `Sema::up` and of the calls like it.
use mos_rust.Config.{task_max}
use mos_rust.Prelude.{
  ℕ, ◌+◌, ◌≤◌, ◌<◌, ◌≡◌, ◌≢◌, ◌⊎◌, inl, inr, refl, ap, ◌∙◌, some, ltb, ◌==◌, if◌then◌else◌, count,
  count-insert_before, All-count, Bool-cases, arith, Run, ok,
}
use mos_rust.TaskList.{HeaplessVec}
use mos_rust.Kernel.{ready, blocked, Kernel, set_status, ready_insert}
use mos_rust.Kernel.Invariant.{IsValid, listed}
use mos_rust.Kernel.Invariant.Moves.{set_status-IsValid, ready_insert-IsValid, ready_insert_lem}
use mos_rust.Kernel.Sched.{yield_task}
use mos_rust.Kernel.Sched.Switch.{Elected, next_tcb-Switched}
use mos_rust.Kernel.Task.{preempt_woken}
use mos_rust.Kernel.Task.Block.{IsLive, preempt_woken-eq}
use mos_rust.Kernel.Task.Leave.{yield_started}

module _ ⦃vec : HeaplessVec⦄ where
  abbrev pub roused : Kernel → ℕ → Kernel
  roused k w = ready_insert (set_status k w ready) w ((set_status k w ready).tcbs w).priority

  -- What the wake-up of `w` leads to when task `c` is running.
  pub record Roused (k : Kernel) (c w : ℕ) (r : Run Kernel) : Type 0 where
    pub after : Kernel
    pub returned : r ≡ ok after
    pub valid : IsValid after
    pub is_ready : count w after.ready_list ≡ 1
    pub others :
        (t : ℕ)
        → t ≢ w
        → listed k t ≡ 0
        → (k.tcbs t).status ≡ blocked
        → (after.tcbs t ≡ k.tcbs t) × (listed after t ≡ 0)
    pub priority : (t : ℕ) → (after.tcbs t).priority ≡ (k.tcbs t).priority
    pub next :
        (((k.tcbs c).priority ≤ (k.tcbs w).priority) × (after.current ≡ some c))
        ⊎ (((k.tcbs w).priority < (k.tcbs c).priority)
            × ((st : ℕ) × Elected after st × ((after.tcbs st).priority ≤ (k.tcbs w).priority)))

  module _ {k : Kernel} (c w : ℕ) (live : IsLive k c) (lt : w < task_max) (out : listed k w ≡ 0)
      (waited : (k.tcbs w).status ≡ blocked) where
    abbrev marked : Kernel
    marked = set_status k w ready

    marked-IsValid : IsValid marked
    marked-IsValid =
        set_status-IsValid live.valid w ready (λ p. cc) (λ p. ground arith) (λ p. refl)
          (λ p. absurd (omega arith))

    pub roused-IsValid : IsValid (roused k w)
    roused-IsValid = ready_insert-IsValid marked-IsValid w lt out (ground arith)

    pub roused-count :
        (t : ℕ) → count t (roused k w).ready_list ≡ count t k.ready_list + (if w == t then 1 else 0)
    roused-count t =
        ap (λ j. count t j.ready_list)
          (ready_insert_lem marked-IsValid w lt out (marked.tcbs w).priority)
        ∙ count-insert_before t w (λ u. ltb (marked.tcbs w).priority (marked.tcbs u).priority)
            k.ready_list

    pub rouse-Roused : Roused k c w (preempt_woken (roused k w) ((roused k w).tcbs w).priority)
    rouse-Roused =
        let j = roused k w in
        let p = (j.tcbs w).priority in
        let whole = preempt_woken-eq j c p live.runs_now in
        let one : count w j.ready_list ≡ 1 = ground (arith, roused-count w) in
        elim (Bool-cases (ltb p (j.tcbs c).priority)) [
          | inl higher ↦
              let (k', st, s) =
                next_tcb-Switched roused-IsValid c live.runs_now w (omega (arith, one)) in
              let here = s.kept w (omega (arith, one)) in
              let first = All-count _ w k'.ready_list s.elected.highest here in
              record {
                after = k';
                returned =
                    whole
                    ∙ ap (λ b. if b then yield_task j else ok j) higher
                    ∙ yield_started j live.started
                    ∙ s.returned;
                valid = s.elected.valid;
                is_ready = ground (arith, s.elected.valid.once w);
                others = λ t ne o b. ground (arith, s.unmoved t, roused-count t);
                priority = λ t. s.priority t ∙ ground arith;
                next = inr (ground arith, (st, s.elected, ground (arith, first, s.priority w)));
              }
          | inr lower ↦ record {
            after = j;
            returned = whole ∙ ap (λ b. if b then yield_task j else ok j) lower;
            valid = roused-IsValid;
            is_ready = one;
            others = λ t ne o b. ground (arith, roused-count t);
            priority = λ t. ground arith;
            next = inl (ground arith, live.runs_now);
          }
        ]
