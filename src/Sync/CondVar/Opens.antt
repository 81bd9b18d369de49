-- ===== src/Sync/CondVar/Opens.antt =====
-- `Barrier::wait` of the last task: the barrier opens for all that wait.
use mos_rust.Config.{pri_inv}
use mos_rust.Prelude.{ℕ, ◌+◌, ◌%◌, ◌<◌, ◌≡◌, ◌⊎◌, refl, [], ◌==◌, arith, ok, false, ==_iff}
use mos_rust.TaskList.{HeaplessVec}
use mos_rust.Kernel.{Kernel, u32_mod}
use mos_rust.Kernel.Sched.Switch.{Elected}
use mos_rust.Kernel.Task.Block.{IsLive}
use mos_rust.Sync.Mutex.{create as unlocked, unlock}
use mos_rust.Sync.Mutex.Recursion.{held, unlock-lock}
use mos_rust.Sync.CondVar.{Barrier, notifies, done, arrive, recheck, notify_all}
use mos_rust.Sync.CondVar.Wakes.{IsQueue, Notified, notify_all-Notified}

module _ ⦃vec : HeaplessVec⦄ where
  unlock-free :
      (k : Kernel) (c : ℕ)
      → Elected k c
      → (k.tcbs c).sub_priority ≡ pri_inv
      → unlock k (held c 1) ≡ ok (k, unlocked)
  unlock-free k c e own = (unlock-lock k c 0 e own (omega arith)).3

  -- The barrier after its last task came.
  abbrev pub opened : Barrier → Barrier
  opened b = record b { count = 0; generation = (b.generation + 1) % u32_mod; mutex = unlocked }

  arrive-last :
      (k : Kernel) (c : ℕ) (b : Barrier)
      → Elected k c
      → (k.tcbs c).sub_priority ≡ pri_inv
      → b.mutex ≡ held c 1
      → (b.count + 1) % u32_mod ≡ b.total
      → arrive k b ≡ ok (notifies, k, opened b)
  unfolding arrive
  arrive-last k c b e own at last =
      rw ((==_iff ((b.count + 1) % u32_mod) b.total).1 last, at, unlock-free k c e own) refl

  recheck-leaves :
      (k : Kernel) (c : ℕ) (b : Barrier) (my_gen : ℕ)
      → Elected k c
      → (k.tcbs c).sub_priority ≡ pri_inv
      → b.mutex ≡ held c 1
      → (b.generation == my_gen) ≡ false
      → recheck k b my_gen ≡ ok (done, k, record b { mutex = unlocked })
  unfolding recheck
  recheck-leaves k c b my_gen e own at new = rw (new, at, unlock-free k c e own) refl

  -- The last task comes to a barrier where the others wait: it gives the mutex back, which no other
  -- wants, with the count at 0 and the next generation, and the kernel as it was. By `notify_all`
  -- all the waiting tasks are ready then, if there are any. A task that runs and holds the mutex again
  -- in that generation leaves, and gives the mutex back.
  pub arrive-opens :
      {k k' : Kernel} (c w : ℕ) (b b' : Barrier)
      → IsLive k c
      → Elected k c
      → (k.tcbs c).sub_priority ≡ pri_inv
      → b.mutex ≡ held c 1
      → (b.count + 1) % u32_mod ≡ b.total
      → b.generation < u32_mod
      → IsQueue k b.cv.wait_queue
      → Elected k' w
      → (k'.tcbs w).sub_priority ≡ pri_inv
      → b'.mutex ≡ held w 1
      → b'.generation ≡ (opened b).generation
      → (arrive k b ≡ ok (notifies, k, opened b))
        × (((b.cv.wait_queue ≡ []) × (notify_all k b.cv ≡ ok (k, record { wait_queue = [] })))
            ⊎ Notified k b.cv.wait_queue (notify_all k b.cv))
        × (recheck k' b' b.generation ≡ ok (done, k', record b' { mutex = unlocked }))
  arrive-opens {k} {k'} c w b b' live e own at last fits q e' own' at' same = (
    arrive-last k c b e own at last,
    notify_all-Notified c b.cv.wait_queue live q,
    recheck-leaves k' w b' b.generation e' own' at' (ground (arith, same)),
  )
