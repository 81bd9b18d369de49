-- ===== src/Sync/Sema/Wakes.antt =====
-- `Sema::up`: the first task in the queue becomes ready.
use mos_rust.Config.{task_max}
use mos_rust.Prelude.{
  ℕ, suc, ◌+◌, ◌-◌, ◌^◌, ◌<◌, ◌≡◌, ◌≢◌, ◌⊎◌, inl, inr, refl, sym, ap, ◌∙◌, List, [], ◌∷◌, true,
  false, ◌||◌, ◌==◌, count, IsSortedBy-agree, arith, ok, ◌>>=◌,
}
use mos_rust.TaskList.{HeaplessVec}
use mos_rust.Kernel.{Kernel}
use mos_rust.Kernel.Invariant.{IsValid}
use mos_rust.Kernel.Task.{preempt_woken}
use mos_rust.Kernel.Task.Block.{IsLive}
use mos_rust.Kernel.Task.Rouse.{roused, rouse-Roused}
use mos_rust.Sync.Sema.{Sema, is_negative, increment, up}
use mos_rust.Sync.Sema.Waits.{waiting, Waits}

module _ ⦃vec : HeaplessVec⦄ where
  pub up-counts :
      (k : Kernel) (n : ℕ)
      → up k (record { count = n; wait_queue = [] })
        ≡ ok (k, record { count = increment n; wait_queue = [] })
  unfolding up
  up-counts k n = ground arith

  pub up-wakes :
      (k : Kernel) (n w : ℕ) (rest : List ℕ)
      → (is_negative (increment n) || (increment n == 0)) ≡ true
      → up k (record { count = n; wait_queue = w ∷ rest }) ≡ (
          preempt_woken (roused k w) ((roused k w).tcbs w).priority >>= λ k3.
          ok (k3, record { count = increment n; wait_queue = rest }))
  unfolding up
  up-wakes k n w rest e = rw (e, vec.remove_at [] rest w) refl

  -- With a positive count nobody is woken.
  pub up_over :
      (k : Kernel) (s : Sema)
      → (is_negative (increment s.count) || (increment s.count == 0)) ≡ false
      → up k s ≡ ok (k, record s { count = increment s.count })
  unfolding up
  up_over k s e = rw e refl

  -- What `up` leads to: it adds to the count and leaves the kernel as it was, or it takes the first
  -- task off the queue and that task is ready.
  pub Released : Kernel → Sema → Kernel → Sema → Type 0
  Released k s k' s' =
      ((s.wait_queue ≡ []) × (k' ≡ k) × (s' ≡ record s { count = s.count + 1 }))
      ⊎ ((w : ℕ) × (s.wait_queue ≡ w ∷ s'.wait_queue)
          × (waiting s.count ≡ suc (waiting s'.count))
          × (count w k'.ready_list ≡ 1))

  up_nil :
      {k : Kernel} (c n : ℕ)
      → IsLive k c
      → Waits k (record { count = n; wait_queue = [] })
      → n ≢ 2 ^ 31 - 1
      → (k' : Kernel) × (s' : Sema) × (up k (record { count = n; wait_queue = [] }) ≡ ok (k', s'))
        × IsValid k'
        × Waits k' s'
        × Released k (record { count = n; wait_queue = [] }) k' s'
  unfolding Released
  up_nil {k} c n live w top =
      let next : increment n ≡ n + 1 = ground (arith, w.balance, w.fits) in
      (
        k,
        record { count = increment n; wait_queue = [] },
        up-counts k n,
        live.valid,
        record {
          fits = omega arith;
          balance = ground (arith, w.balance, w.fits);
          asleep = w.asleep;
          once = w.once;
          small = w.small;
          by_priority = w.by_priority;
        },
        inl (refl, refl, ap (λ m. record { count = m; wait_queue = [] }) next),
      )

  up_cons :
      {k : Kernel} (c n x : ℕ) (rest : List ℕ)
      → IsLive k c
      → Waits k (record { count = n; wait_queue = x ∷ rest })
      → (k' : Kernel) × (s' : Sema) × (up k (record { count = n; wait_queue = x ∷ rest })
          ≡ ok (k', s'))
        × IsValid k'
        × Waits k' s'
        × Released k (record { count = n; wait_queue = x ∷ rest }) k' s'
  unfolding Released
  up_cons {k} c n x rest live w =
      let at = w.asleep x (ground arith) in
      let lt : x < task_max = ground (arith, w.small x) in
      let r = rouse-Roused c x live lt at.1 at.0 in
      let test : (is_negative (increment n) || (increment n == 0)) ≡ true =
        ground (arith, w.balance, w.fits) in
      let apart : (t : ℕ) → 0 < count t rest → t ≢ x = λ t h e. absurd (ground (arith, w.once t)) in
      (
        r.after,
        record { count = increment n; wait_queue = rest },
        up-wakes k n x rest test
            ∙ ap (λ y. y >>= λ k3. ok (k3, record { count = increment n; wait_queue = rest }))
                r.returned,
        r.valid,
        record {
          fits = omega arith;
          balance = ground (arith, w.balance, w.fits);
          asleep = λ t h. ground (arith, w.asleep t, apart t, r.others t);
          once = λ t. ground (arith, w.once t);
          small = λ t h. ground (arith, w.small t);
          by_priority = IsSortedBy-agree _ _ rest (λ u h. sym (r.priority u)) w.by_priority.1;
        },
        inr (x, refl, ground (arith, w.balance, w.fits), r.is_ready),
      )

  up_split :
      (k : Kernel) (n : ℕ) (q : List ℕ) (c : ℕ)
      → IsLive k c
      → Waits k (record { count = n; wait_queue = q })
      → n ≢ 2 ^ 31 - 1
      → (k' : Kernel) × (s' : Sema) × (up k (record { count = n; wait_queue = q }) ≡ ok (k', s'))
        × IsValid k'
        × Waits k' s'
        × Released k (record { count = n; wait_queue = q }) k' s'
  up_split k n [] c live w top = up_nil c n live w top
  up_split k n (x ∷ rest) c live w top = up_cons c n x rest live w

  -- Let the count and the queue of a semaphore agree, and each task in its queue be blocked and in
  -- no list of the kernel. In a running system `up` does not panic and keeps that and the kernel's
  -- invariant, if the count is not the largest i32. If no task waits the count goes up by one and
  -- nothing else changes; otherwise the first task leaves the queue and is in the ready list, and
  -- one task less waits.
  pub up-Waits :
      {k : Kernel} (s : Sema) (c : ℕ)
      → IsLive k c
      → Waits k s
      → s.count ≢ 2 ^ 31 - 1
      → (k' : Kernel) × (s' : Sema) × (up k s ≡ ok (k', s'))
        × IsValid k'
        × Waits k' s'
        × Released k s k' s'
  up-Waits {k} s c live w top = up_split k s.count s.wait_queue c live w top
