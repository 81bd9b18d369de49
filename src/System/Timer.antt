-- ===== src/System/Timer.antt =====
-- The timer interrupt, boards/esp32c6/src/trap.rs: its ticks, then the switch that they ask for.
use Prim.Native.Nat.{bit_or}
use mos_rust.Prelude.{
  ℕ, zero, suc, ◌≡◌, inl, inr, refl, ap, ◌∙◌, Bool, ◌==◌, if◌then◌else◌, Bool-cases, arith, ok,
  ◌>>=◌,
}
use mos_rust.TaskList.{HeaplessVec}
use mos_rust.Kernel.{Kernel}
use mos_rust.Kernel.Sched.{yield_task}
use mos_rust.Trap.{catch_up}
use mos_rust.Trap.Ticks.{spent, spent-IsLive, systick_tick-spent}
use mos_rust.System.Running.{IsRunning, Runs, yield_task-Runs}
use mos_rust.System.Leaving.{still-Runs}

module _ ⦃vec : HeaplessVec⦄ where
  module _ {strict : Bool} {idle c : ℕ} {k : Kernel} (run : IsRunning strict idle k c) where
    open run use {live, sized, fit, present, idle_ready, highest}

    spent-IsRunning : IsRunning strict idle (spent k c) c
    spent-IsRunning = record {
      live = spent-IsLive c live;
      sized = record { stacked = λ t. ground (arith, sized.stacked t); clocked = ground arith };
      fit = ground arith;
      present = ground arith;
      idle_ready = ground arith;
      highest = λ b t ht. ground (arith, highest b t);
    }

  -- The ticks of one timer interrupt do not switch.
  catch_up-IsRunning :
      {strict : Bool} {idle : ℕ} (n r c : ℕ) {k : Kernel}
      → IsRunning strict idle k c
      → (r' : ℕ) × (k' : Kernel) × (catch_up n r k ≡ ok (r', k')) × IsRunning strict idle k' c
  unfolding catch_up
  catch_up-IsRunning zero r c {k} run = (r, k, refl, run)
  catch_up-IsRunning (suc n) r c {k} run =
      let (x, e) = systick_tick-spent c run.live in
      let (r', k', done, run') = catch_up-IsRunning n (bit_or r x) c (spent-IsRunning run) in
      (r', k', ap (λ y. y >>= λ p. catch_up n (bit_or r p.0) p.1) e ∙ done, run')

  pub timer-Runs :
      {strict : Bool} {idle c : ℕ} {k : Kernel}
      → IsRunning strict idle k c
      → (n : ℕ)
      → Runs strict idle (catch_up n 0 k >>= λ (r, j). if r == 0 then ok j else yield_task j)
  timer-Runs {strict} {idle} {c} {k} run n =
      let (r, j, e, run') = catch_up-IsRunning n 0 c run in
      rw e (elim (Bool-cases (r == 0)) [
        | inl none_due ↦ rw none_due (still-Runs run')
        | inr due ↦ rw due (yield_task-Runs c run'.live run'.sized run'.idle_ready)
      ])
