-- ===== src/Async/Wakeup.antt =====
-- `Timer::poll` together with `wake_expired`: no wake-up of a registered timer is lost.
use mathlib.Core.List.{Mem, mem-cons, mem-append, not-mem-nil}
use mathlib.Core.List.Perm as P
use mathlib.Core.Logic.Or
use mos_rust.Prelude.{ℕ, ◌≤◌, ◌≡◌, refl, List, [], ◌∷◌, true, Run, ==_refl, arith}
use mos_rust.Async.{TimerEntry, Executor}
use mos_rust.Async.Heap.{rank}
use mos_rust.Async.Expiry.{wakes, Expired}

wakes-mem : (t : TimerEntry) (a : List TimerEntry) → Mem t a → wakes t.waker a ≡ true
wakes-mem t [] m = absurd (not-mem-nil m)
wakes-mem t (u ∷ a) m =
    Or.elim (hlevel) (mem-cons.0 m) (λ e. rw (← e, ==_refl t.waker) refl)
      (λ r. rw (wakes-mem t a r) (ground arith))

module _ {ℓ} {F : Type ℓ} where
  pub woken-wakes :
      {base now : ℕ} {x : Executor F} {a : List TimerEntry} {r : Run (Executor F)} (t : TimerEntry)
      (e : Expired base now x a r)
      → Mem t a
      → rank base t.wake_tick ≤ rank base now
      → wakes t.waker e.woken ≡ true
  woken-wakes t e m come =
      Or.elim (hlevel) (mem-append.0 ((P.mem_iff e.same).1 m)) (λ gone. wakes-mem t e.woken gone)
        (λ still. absurd (omega (arith, e.not_yet t still)))
