-- ===== src/Kernel/Sched/Switch.antt =====
-- `next_tcb` of core/src/kernel/sched.rs: which task runs next, and that the invariant is kept.
use native.Mathlib.Nat.{le_refl}
use mos_rust.Prelude.{
  ℕ, ◌≤◌, ◌<◌, ◌≡◌, refl, ap, subst, ◌∙◌, inl, inr, List, [], ◌∷◌, true, some, ◌==◌, count, arith,
  Bool-cases, All, IsSortedBy, ok, ◌>>=◌,
}
use mos_rust.TaskList.{HeaplessVec, front}
use mos_rust.Kernel.{ready, running, blocked, status_eq, Kernel, set_status}
use mos_rust.Kernel.Invariant.{IsValid, is_runnable, listed, current_tid-ok}
use mos_rust.Kernel.Invariant.Moves.{set_status-IsValid, current-IsValid}
use mos_rust.Kernel.Sched.{wake_up_sleepers, requeue, switch, next_tcb}
use mos_rust.Kernel.Sched.Wake.{count-sleep_on, wake_up_sleepers-Woken, sleep_on, expires}
use mos_rust.Kernel.Sched.Requeue.{
  runnable-ne, SameRest, requeue-IsValid, requeue-keeps, requeue-absent, requeue-current,
  requeue-SameRest,
}

-- A task was chosen: it heads the ready list, its status is right and no ready task comes before it
-- in priority.
pub record Elected (k : Kernel) (c : ℕ) : Type 0 where
  pub valid : IsValid k
  pub runs_now : k.current ≡ some c
  pub first : front k.ready_list ≡ some c
  pub fit : is_runnable (k.tcbs c).status ≡ true
  pub highest : All (λ t. (k.tcbs c).priority ≤ (k.tcbs t).priority) k.ready_list

highest_of_front :
    (f : ℕ → ℕ) (c : ℕ) (l : List ℕ) → IsSortedBy f l → front l ≡ some c → All (λ t. f c ≤ f t) l
unfolding front
highest_of_front f c [] s e = tt
highest_of_front f c (x ∷ l) s e =
    let same : x ≡ c = cc in subst (λ y. All (λ t. f y ≤ f t) (x ∷ l)) same (le_refl (f x), s.0)

pub count-front : (c : ℕ) (l : List ℕ) → front l ≡ some c → 0 < count c l
unfolding front
count-front c [] e = cc
count-front c (x ∷ l) e = ground arith

module _ ⦃vec : HeaplessVec⦄ where
  -- A valid task may be marked as running where it is in the ready list.
  pub elect-Elected :
      {k : Kernel} (c : ℕ)
      → IsValid k
      → front k.ready_list ≡ some c
      → Elected (record (set_status k c running) { current = some c }) c
  elect-Elected {k} c v e =
      let listed_ = count-front c k.ready_list e in
      let live = runnable-ne (k.tcbs c).status (v.runs c listed_) in
      let one =
        set_status-IsValid v c running (λ p. cc) live.0 (λ h. refl)
          (λ h. absurd (omega (arith, v.once c))) in
      let own : (k.tcbs c).tid ≡ c = ground (arith, v.owned c, live.0) in
      let two = current-IsValid one c (ground arith) (ground (arith, v.small c)) in
      record {
        valid = two;
        runs_now = refl;
        first = e;
        fit = ground arith;
        highest = highest_of_front _ c k.ready_list two.by_priority e;
      }

  module _ {k : Kernel} (v : IsValid k) (c : ℕ) (at : k.current ≡ some c) where
    switch-Elected :
        (st : ℕ)
        → front k.ready_list ≡ some st
        → (k' : Kernel) × (switch k c ≡ ok k')
          × Elected k' st
          × (k'.ready_list ≡ k.ready_list)
          × SameRest k k'
    unfolding switch
    switch-Elected st e = elim (Bool-cases (st == c)) [
      | inl same ↦
          let is : c ≡ st = ground arith in
          (
            k,
            rw (e, switch, same) refl,
            record {
              valid = v;
              runs_now = at ∙ ap some is;
              first = e;
              fit = v.runs st (count-front st k.ready_list e);
              highest = highest_of_front _ st k.ready_list v.by_priority e;
            },
            refl,
            record {
              blockers = refl;
              sleepers = refl;
              ticks = refl;
              bitmap = refl;
              started = refl;
              stacks = refl;
              unmoved = λ t h b. refl;
              priority = λ t. refl;
            },
          )
      | inr other ↦ elim (Bool-cases (status_eq (k.tcbs c).status running)) [
        | inl ran ↦
            let one =
              set_status-IsValid v c ready (λ p. cc) (ground arith) (λ h. refl)
                (λ h. ground (arith, v.waits c)) in
            (
              record (set_status (set_status k c ready) st running) { current = some st },
              rw (e, switch, other, ran) refl,
              elect-Elected st one e,
              refl,
              ground (arith, count-front st k.ready_list e),
            )
        | inr waited ↦ (
          record (set_status k st running) { current = some st },
          rw (e, switch, other, waited) refl,
          elect-Elected st v e,
          refl,
          ground (arith, count-front st k.ready_list e),
        )
      ]
    ]

  pub front_of_count : (t : ℕ) (l : List ℕ) → 0 < count t l → (st : ℕ) × (front l ≡ some st)
  unfolding front
  front_of_count t [] h = absurd (omega arith)
  front_of_count t (x ∷ l) h = (x, refl)

  -- `next_tcb` with the current task known.
  pub next_tcb-eq :
      {k : Kernel} (v : IsValid k) (c : ℕ)
      → k.current ≡ some c
      → next_tcb k ≡ switch (requeue (wake_up_sleepers k) c) c
  unfolding next_tcb
  next_tcb-eq {k} v c at =
      let w = wake_up_sleepers-Woken k v in
      ap (λ r. r >>= λ cr. switch (requeue (wake_up_sleepers k) cr) cr)
        (current_tid-ok w.valid c (w.same_current ∙ at))

  module _ {k : Kernel} (v : IsValid k) (c : ℕ) (at : k.current ≡ some c) where
    -- What `next_tcb` leads to.
    pub record Switched (k' : Kernel) (st : ℕ) : Type 0 where
      pub returned : next_tcb k ≡ ok k'
      pub elected : Elected k' st
      pub kept : (t : ℕ) → 0 < count t k.ready_list → 0 < count t k'.ready_list
      pub woken :
          (t : ℕ) → expires k.os_ticks k k.sleeping_list t ≡ true → 0 < count t k'.ready_list
      pub unmoved :
          (t : ℕ)
          → listed k t ≡ 0
          → (k.tcbs t).status ≡ blocked
          → (k'.tcbs t ≡ k.tcbs t) × (listed k' t ≡ 0)
      pub blockers : k'.blocked_list ≡ k.blocked_list
      pub sleepers : k'.sleeping_list ≡ sleep_on k.os_ticks k k.sleeping_list
      pub ticks : k'.os_ticks ≡ k.os_ticks
      pub bitmap : k'.tid_bitmap ≡ k.tid_bitmap
      pub started : k'.sched_ready ≡ k.sched_ready
      pub stacks : k'.stacks ≡ k.stacks
      pub priority : (t : ℕ) → (k'.tcbs t).priority ≡ (k.tcbs t).priority

    -- If some task is ready, `next_tcb` does not panic: it makes the head of the ready list the
    -- current task, which is runnable and of the highest priority that is ready. It keeps the
    -- invariant, every ready task and every sleeper whose
    -- time has come in the ready list, the blocked list, all priorities, and the
    -- sleepers whose time has not come.
    pub next_tcb-Switched :
        (t : ℕ) → 0 < count t k.ready_list → (k' : Kernel) × (st : ℕ) × Switched k' st
    next_tcb-Switched t h =
        let w = wake_up_sleepers-Woken k v in
        let k1 = wake_up_sleepers k in
        let at1 : k1.current ≡ some c = w.same_current ∙ at in
        let stays = λ (u : ℕ) (h : 0 < count u k.ready_list).
          requeue-keeps w.valid c at1 u (omega (arith, w.ready_count u)) in
        let v2 = requeue-IsValid w.valid c at1 in
        let (st, e) = front_of_count t (requeue k1 c).ready_list (stays t h) in
        let at2 = requeue-current k1 c ∙ at1 in
        let (k', done, elected, list, rest) = switch-Elected v2 c at2 st e in
        let mid = requeue-SameRest k1 c in
        let still : (u : ℕ)
            → listed k u ≡ 0
            → (k.tcbs u).status ≡ blocked
            → (k'.tcbs u ≡ k.tcbs u) × (listed k' u ≡ 0) =
          λ u out b.
            let t1 : k1.tcbs u ≡ k.tcbs u = ground (arith, w.tcb u) in
            let b1 : (k1.tcbs u).status ≡ blocked = ap (λ x. x.status) t1 ∙ b in
            let r1 : count u k1.ready_list ≡ 0 = ground (arith, w.ready_count u) in
            let r2 = requeue-absent w.valid c at1 u r1 b1 in
            let t2 = mid.unmoved u r1 b1 in
            let t3 = rest.unmoved u r2 (ap (λ x. x.status) t2 ∙ b1) in
            let asleep : count u (sleep_on k.os_ticks k k.sleeping_list) ≡ 0 =
              ground (arith, count-sleep_on k.os_ticks k u k.sleeping_list) in
            let none_left : listed k' u ≡ 0 = omega (
              arith,
              ap (count u) list,
              r2,
              ap (count u) (rest.blockers ∙ mid.blockers ∙ w.same_blocked),
              ap (count u) (rest.sleepers ∙ mid.sleepers ∙ w.sleepers),
              asleep,
            ) in
            (t3 ∙ t2 ∙ t1, none_left) in
        (
          k',
          st,
          record {
            returned = next_tcb-eq v c at ∙ done;
            elected = elected;
            unmoved = still;
            kept = λ u hu. rw list (stays u hu);
            woken =
                λ u e. rw list (requeue-keeps w.valid c at1 u (ground (arith, w.ready_count u)));
            blockers = rest.blockers ∙ mid.blockers ∙ w.same_blocked;
            sleepers = rest.sleepers ∙ mid.sleepers ∙ w.sleepers;
            ticks = rest.ticks ∙ mid.ticks ∙ w.same_ticks;
            bitmap = rest.bitmap ∙ mid.bitmap ∙ w.same_bitmap;
            started = rest.started ∙ mid.started ∙ w.same_started;
            stacks = rest.stacks ∙ mid.stacks ∙ w.same_stacks;
            priority = λ u. rest.priority u ∙ mid.priority u ∙ ground (arith, w.tcb u);
          },
        )
