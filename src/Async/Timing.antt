-- ===== src/Async/Timing.antt =====
-- The timer future's deadline over ticks that wrap, and which slot `spawn` takes.
use mos_rust.Prelude.{
  ℕ, ◌+◌, ◌%◌, ◌^◌, ◌<◌, ◌≡◌, ◌⊎◌, inl, inr, refl, subst, sym, ap, List, [], ◌∷◌, ◌++◌, Bool, true,
  false, some, leb, Bool-cases, arith,
}
use mos_rust.Kernel.{u32_mod}
use mos_rust.Async.{TaskSlot, Executor, is_free, spawn_from, spawn, precedes, has_come, delay_for}

-- A timer of less than 2^31 ticks that was made at tick `made` is done after `passed` ticks, of which
-- there are less than 2^31, exactly if the delay is not longer; the ticks may wrap in between.
pub timer_ready :
    (made ms passed : ℕ)
    → made < u32_mod
    → ms < 2 ^ 31
    → passed < 2 ^ 31
    → has_come ((made + passed) % u32_mod) (delay_for made ms) ≡ leb ms passed
unfolding has_come delay_for precedes
timer_ready made ms passed h hm hp = ground arith

module _ {ℓ} {F : Type ℓ} where
  AllTaken : List (TaskSlot F) → Type 0
  unfolding is_free
  AllTaken [] = Unit
  AllTaken (s ∷ rest) = (is_free s ≡ false) × AllTaken rest

  -- What is made of the slots: the first free one takes the future, or none is free.
  pub Placed : F → List (TaskSlot F) → Bool → List (TaskSlot F) → Type ℓ
  unfolding is_free AllTaken
  Placed f slots done after =
      ((done ≡ false) × (after ≡ slots) × AllTaken slots)
      ⊎ ((l : List (TaskSlot F)) × (s : TaskSlot F) × (r : List (TaskSlot F)) × (done ≡ true)
          × (slots ≡ l ++ s ∷ r)
          × AllTaken l
          × (is_free s ≡ true)
          × (after ≡ l ++ record { future = some f; ready = true } ∷ r))

  Placed-cons :
      (f : F) (s : TaskSlot F) (rest : List (TaskSlot F)) (done : Bool) (after : List (TaskSlot F))
      → is_free s ≡ false
      → Placed f rest done after
      → Placed f (s ∷ rest) done (s ∷ after)
  unfolding Placed AllTaken
  Placed-cons f s rest done after used (inl (failed, same, all)) =
      inl (failed, ap (◌∷◌ s) same, (used, all))
  Placed-cons f s rest done after used (inr (l, x, r, yes_, at, all, free, put)) =
      inr (s ∷ l, x, r, yes_, ap (◌∷◌ s) at, (used, all), free, ap (◌∷◌ s) put)

  spawn_from-free :
      (f : F) (s : TaskSlot F) (rest : List (TaskSlot F))
      → is_free s ≡ true
      → spawn_from f (s ∷ rest) ≡ (true, record { future = some f; ready = true } ∷ rest)
  unfolding spawn_from
  spawn_from-free f s rest e = rw e refl

  spawn_from-used :
      (f : F) (s : TaskSlot F) (rest : List (TaskSlot F))
      → is_free s ≡ false
      → spawn_from f (s ∷ rest) ≡ ((spawn_from f rest).0, s ∷ (spawn_from f rest).1)
  unfolding spawn_from
  spawn_from-used f s rest e = rw e refl

  spawn_from-Placed :
      (f : F) (slots : List (TaskSlot F))
      → Placed f slots (spawn_from f slots).0 (spawn_from f slots).1
  unfolding spawn_from Placed AllTaken
  spawn_from-Placed f [] = inl (refl, refl, tt)
  spawn_from-Placed f (s ∷ rest) = elim (Bool-cases (is_free s)) [
    | inl free ↦
        subst (λ p. Placed f (s ∷ rest) p.0 p.1) (sym (spawn_from-free f s rest free))
          (inr ([], s, rest, refl, refl, tt, free, refl))
    | inr used ↦
        subst (λ p. Placed f (s ∷ rest) p.0 p.1) (sym (spawn_from-used f s rest used))
          (Placed-cons f s rest (spawn_from f rest).0 (spawn_from f rest).1 used
            (spawn_from-Placed f rest))
  ]

  -- `spawn` puts the future into the first free slot, ready to be polled, and returns true; if no
  -- slot is free it returns false and changes nothing. The timers stay as they were.
  pub spawn-lowest :
      (x : Executor F) (f : F)
      → Placed f x.pool (spawn x f).0 (spawn x f).1.pool × ((spawn x f).1.timers ≡ x.timers)
  unfolding spawn
  spawn-lowest x f = (spawn_from-Placed f x.pool, refl)
