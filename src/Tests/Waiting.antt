-- ===== src/Tests/Waiting.antt =====
-- Tasks that wait for a mutex or a condition variable, at concrete inputs.
use mos_rust.Prelude.{◌⊎◌, ℕ, ◌≡◌, inr, refl, List, [], ◌∷◌, ok, arith}
use mos_rust.Kernel.{Kernel}
use mos_rust.Kernel.Task.Block.{IsLive}
use mos_rust.Kernel.Task.Rouse.{Roused}
use mos_rust.Sync.Mutex.{unlock}
use mos_rust.Sync.Mutex.Inherit.{taken}
use mos_rust.Sync.Mutex.Pass.{unlock-Roused}
use mos_rust.Sync.CondVar.{wait, notify_all}
use mos_rust.Sync.CondVar.Waits.{Sleeps, wait-Sleeps}
use mos_rust.Sync.CondVar.Wakes.{IsQueue, Notified, notify_all-Notified}
use mos_rust.Tests.Kernels.{live, live-used, live-IsLive}
use mos_rust.Tests.Vector.{reference_vec}

-- Task 1 gives the mutex back that task 5, of higher priority, waits for.
unlock-Roused_example :
    (k' : Kernel) × (unlock live (taken 1 1 (5 ∷ [])) ≡ ok (k', taken 5 1 []))
    × Roused live 1 5 (ok k')
unlock-Roused_example = unlock-Roused 1 5 [] live-IsLive refl (omega arith) refl refl

-- Tasks 4 and 5 wait.
abbrev crowded : Kernel
crowded = record live { blocked_list = [] }

crowded-IsLive : IsLive crowded 1
crowded-IsLive = record {
  valid = record {
    once = λ t. ground arith;
    small = λ t h. ground arith;
    runs = λ t h. ground arith;
    waits = λ t h. ground arith;
    used = live-used;
    owned = λ t. inr (ground arith);
    here = λ c e. ground arith;
    by_priority = ground arith;
    by_wake = ground arith;
  };
  runs_now = refl;
  started = refl;
}

crowded-IsQueue : IsQueue crowded (4 ∷ 5 ∷ [])
crowded-IsQueue = record {
  once = λ t. ground arith;
  small = λ t h. ground arith;
  asleep = λ t h. ground arith;
}

notify_all-Notified_example :
    ((◌≡◌ {A = List ℕ} (4 ∷ 5 ∷ []) [])
      × (notify_all crowded (record { wait_queue = 4 ∷ 5 ∷ [] })
          ≡ ok (crowded, record { wait_queue = [] })))
    ⊎ Notified crowded (4 ∷ 5 ∷ []) (notify_all crowded (record { wait_queue = 4 ∷ 5 ∷ [] }))
notify_all-Notified_example = notify_all-Notified 1 (4 ∷ 5 ∷ []) crowded-IsLive crowded-IsQueue

-- Task 1 waits behind task 4, and task 5 gets the mutex.
wait-Sleeps_example :
    Sleeps
      (4 ∷ [])
      (5 ∷ [])
      live
      1
      (wait live (record { wait_queue = 4 ∷ [] }) (taken 1 1 (5 ∷ [])))
wait-Sleeps_example =
    wait-Sleeps 1 5 (4 ∷ []) (5 ∷ []) live-IsLive refl refl (omega arith) (omega arith)
      (inr ([], refl, omega arith, refl, refl))
