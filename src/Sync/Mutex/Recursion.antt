-- ===== src/Sync/Mutex/Recursion.antt =====
-- A mutex that no other task wants: it counts how often its owner took it.
use mos_rust.Config.{pri_inv}
use mos_rust.Prelude.{ℕ, suc, ◌<◌, ◌≡◌, [], some, arith, ok}
use mos_rust.TaskList.{HeaplessVec, pop_front}
use mos_rust.Kernel.{Kernel, u32_mod}
use mos_rust.Kernel.Sched.Switch.{Elected}
use mos_rust.Sync.Mutex.{Mutex, create, lock, unlock, release, restore}

-- Taken `n` times by task `c`, with no task waiting.
abbrev pub held : ℕ → ℕ → Mutex
held c n = record { owner = some c; recursive_count = n; wait_queue = [] }

module _ ⦃vec : HeaplessVec⦄ where
  -- If the current task was chosen by the scheduler and has inherited no priority: it takes a free
  -- mutex, takes it again, gives that back, and frees it, and the kernel stays as it was throughout.
  pub unlock-lock :
      (k : Kernel) (c n : ℕ)
      → Elected k c
      → (k.tcbs c).sub_priority ≡ pri_inv
      → suc (suc n) < u32_mod
      → (lock k create ≡ ok (k, held c 1))
        × (lock k (held c (suc n)) ≡ ok (k, held c (suc (suc n))))
        × (unlock k (held c (suc (suc n))) ≡ ok (k, held c (suc n)))
        × (unlock k (held c 1) ≡ ok (k, create))
  unfolding lock unlock release restore create pop_front
  unlock-lock k c n chosen own fits =
      let at = chosen.valid.here c chosen.runs_now in
      (ground (arith, at), ground (arith, at), ground (arith, at), ground (arith, at, chosen.first))
