-- ===== src/Kernel/Sched/Rotate.antt =====
-- Tasks of one priority take turns: `next_tcb` of core/src/kernel/sched.rs with other tasks of the
-- running task's priority ready.
use mathlib.Core.List.{append_assoc}
use mos_rust.Prelude.{
  ℕ, ◌<◌, ◌≡◌, ◌≢◌, refl, sym, ap, ◌∙◌, List, [], ◌∷◌, ◌++◌, some, ltb, count, count-append, erase,
  zero, suc, Run, ◌>>=◌, subst, insert_before, insert_before-append, arith, ok, length,
}
use mos_rust.TaskList.{HeaplessVec, front}
use mos_rust.Kernel.{ready, running, Kernel, set_status}
use mos_rust.Kernel.Invariant.{IsValid}
use mos_rust.Kernel.Sched.{wake_up_sleepers, wake_loop, requeue, switch, next_tcb}
use mos_rust.Kernel.Sched.Requeue.{rotated, rotated-ready_list}
use mos_rust.Kernel.Sched.Switch.{next_tcb-eq, next_tcb-Switched}

module _ ⦃vec : HeaplessVec⦄ where
  no_sleepers : (k : Kernel) → k.sleeping_list ≡ [] → wake_up_sleepers k ≡ k
  unfolding wake_up_sleepers wake_loop
  no_sleepers k h = rw (ap length h) refl

  requeue-running : (k : Kernel) (c : ℕ) → (k.tcbs c).status ≡ running → requeue k c ≡ rotated k c
  unfolding requeue
  requeue-running k c h = ground arith

  switch-other :
      (k : Kernel) (c h : ℕ)
      → front k.ready_list ≡ some h
      → h ≢ c
      → (k.tcbs c).status ≡ ready
      → switch k c ≡ ok (record (set_status k h running) { current = some h })
  unfolding switch
  switch-other k c h e ne st = rw (e, switch) (ground arith)

  front_list :
      (k : Kernel) {h : ℕ} {l : List ℕ} → k.ready_list ≡ h ∷ l → front k.ready_list ≡ some h
  unfolding front
  front_list k e = rw e refl

  -- The running task with others of its priority behind it, then those of lower priority.
  pub record TakesTurns (k : Kernel) (c : ℕ) (peers lower : List ℕ) : Type 0 where
    pub valid : IsValid k
    pub runs_now : k.current ≡ some c
    pub status : (k.tcbs c).status ≡ running
    pub nobody_sleeps : k.sleeping_list ≡ []
    pub list : k.ready_list ≡ c ∷ (peers ++ lower)
    pub same : (u : ℕ) → 0 < count u peers → (k.tcbs u).priority ≡ (k.tcbs c).priority
    pub less : (u : ℕ) → 0 < count u lower → (k.tcbs c).priority < (k.tcbs u).priority

  module _ {k : Kernel} (c h : ℕ) (ps lower : List ℕ) (t : TakesTurns k c (h ∷ ps) lower) where
    open t use {valid, runs_now, status, nobody_sleeps, list, same, less}

    other : h ≢ c
    other = λ e. absurd (ground (arith, valid.once c, ap (count c) list))

    turned_list : (rotated k c).ready_list ≡ h ∷ ((ps ++ (c ∷ [])) ++ lower)
    turned_list =
        let alive = rotated-ready_list valid c runs_now (λ p. ground arith) (λ p. ground arith) in
        let front_ : erase (c ∷ ((h ∷ ps) ++ lower)) c ≡ (h ∷ ps) ++ lower = ground arith in
        alive
        ∙ ap (λ l. insert_before (λ u. ltb (k.tcbs c).priority (k.tcbs u).priority) c (erase l c))
            list
        ∙ ap (insert_before (λ u. ltb (k.tcbs c).priority (k.tcbs u).priority) c) front_
        ∙ insert_before-append (λ u. ltb (k.tcbs c).priority (k.tcbs u).priority) c (h ∷ ps) lower
            (λ u i. ground (arith, same u i)) (λ u i. ground (arith, less u i))
        ∙ ap (◌∷◌ h) (sym (append_assoc ps (c ∷ []) lower))

    abbrev turned : Kernel
    turned = record (set_status (rotated k c) h running) { current = some h }

    turned-eq : next_tcb k ≡ ok turned
    turned-eq =
        next_tcb-eq valid c runs_now
        ∙ ap (λ j. switch (requeue j c) c) (no_sleepers k nobody_sleeps)
        ∙ ap (λ j. switch j c) (requeue-running k c status)
        ∙ switch-other (rotated k c) c h (front_list (rotated k c) turned_list) other (ground arith)

    -- The next task of the priority runs, and the one that ran is the last of them.
    pub next_tcb-TakesTurns :
        (k' : Kernel) × (next_tcb k ≡ ok k')
        × TakesTurns k' h (ps ++ (c ∷ [])) lower
        × (k'.sched_ready ≡ k.sched_ready)
    next_tcb-TakesTurns =
        let here : 0 < count c k.ready_list = ground (arith, ap (count c) list) in
        let (j, st, s) = next_tcb-Switched valid c runs_now c here in
        let is : j ≡ turned = cc (s.returned, turned-eq) in
        let valid_ : IsValid turned = subst IsValid is s.elected.valid in
        let prio : (u : ℕ) → (turned.tcbs u).priority ≡ (k.tcbs u).priority =
          λ u. ap (λ i. (i.tcbs u).priority) (sym is) ∙ s.priority u in
        let level : (turned.tcbs h).priority ≡ (k.tcbs c).priority =
          prio h ∙ same h (ground arith) in
        (
          turned,
          turned-eq,
          record {
            valid = valid_;
            runs_now = refl;
            status = ground arith;
            nobody_sleeps = nobody_sleeps;
            list = turned_list;
            same = λ u i. prio u ∙ ground (arith, same u, count-append u ps (c ∷ [])) ∙ sym level;
            less = λ u i. ground (arith, less u i, prio u, level);
          },
          refl,
        )

  -- `n` switches, one after the other.
  pub switches : ℕ → Kernel → Run Kernel
  switches zero k = ok k
  switches (suc n) k = next_tcb k >>= λ k1. switches n k1

  -- Round robin in a valid kernel where nobody sleeps and where the current task heads the ready list
  -- with the status running, followed by the ready tasks of its priority and then those of lower
  -- priorities. While no task blocks or ends, the task of that priority with `before` between the two
  -- runs after that many switches and one more, none of which panics. The same conditions hold then,
  -- and the order of the others is kept, the tasks that ran behind them.
  pub switches-TakesTurns :
      (before : List ℕ) (k : Kernel) (c t : ℕ) (behind lower : List ℕ)
      → TakesTurns k c (before ++ (t ∷ behind)) lower
      → (k' : Kernel) × (switches (suc (length before)) k ≡ ok k')
        × TakesTurns k' t (behind ++ (c ∷ before)) lower
  unfolding switches
  switches-TakesTurns [] k c t behind lower turns =
      let (k', e, turns', _) = next_tcb-TakesTurns c t behind lower turns in
      (k', ap (λ r. r >>= λ j. ok j) e, turns')
  switches-TakesTurns (a ∷ before) k c t behind lower turns =
      let (k1, e, turns1, _) = next_tcb-TakesTurns c a (before ++ (t ∷ behind)) lower turns in
      let regroup : (before ++ (t ∷ behind)) ++ (c ∷ []) ≡ before ++ (t ∷ (behind ++ (c ∷ []))) =
        append_assoc before (t ∷ behind) (c ∷ []) in
      let (k', done, turns') =
        switches-TakesTurns before k1 a t (behind ++ (c ∷ [])) lower
          (subst (λ l. TakesTurns k1 a l lower) regroup turns1) in
      (
        k',
        ap (λ r. r >>= λ j. switches (suc (length before)) j) e ∙ done,
        subst (λ l. TakesTurns k' t l lower) (append_assoc behind (c ∷ []) (a ∷ before)) turns',
      )
