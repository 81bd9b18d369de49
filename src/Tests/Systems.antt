-- ===== src/Tests/Systems.antt =====
-- The kernel from reset on, at concrete calls.
use mos_rust.Prelude.{
  ℕ, ◌+◌, ◌*◌, ◌≡◌, refl, true, false, arith, ok, ◌<◌, ◌⊎◌, rejected, length-replicate, replicate,
}
use mos_rust.Prelude.Bits.{test_bit, test_bit_lem}
use mos_rust.Kernel.{Layout, Kernel}
use mos_rust.Config.{task_max, page_size_words}
use mos_rust.Kernel.Task.{create, pool_full}
use mos_rust.Kernel.Task.Admit.{Created, create-Created}
use mos_rust.Kernel.Task.Block.{IsLive}
use mos_rust.Tests.Kernels.{live, live-IsLive}
use mos_rust.Kernel.Launch.{launch}
use mos_rust.System.Boot.{initial_kernel-IsBooting, create_raw-IsBooting}
use mos_rust.System.{
  Booting, created_raw, initial_kernel, at_reset, Reachable, perform, creates, timer, allowed,
}
use mos_rust.System.Running.{IsRunning}
use mos_rust.System.Safety.{Reachable-IsRunning, perform-returns, launch-returns}
use mos_rust.Tests.Vector.{reference_vec}

abbrev esp32c6 : Layout
esp32c6 = record {
  stack_base = λ t. 0x4080_0000 + 1024 * t;
  closure_trampoline = 0x4200_0100;
  task_exit_stub = 0x4200_0200;
}

first_free : test_bit 0 0 ≡ false
first_free = rw (test_bit_lem 0 0) refl

-- The task of the radio is created before the launch.
raw_boot : (k' : Kernel) × Booting esp32c6 k'
unfolding perform
raw_boot =
    let (k', e, b) =
      create_raw-IsBooting (initial_kernel-IsBooting esp32c6) 0x4200_0300 0 3 "bt_init" 8192
        0x4081_0000 (omega arith) in
    (k', created_raw 0x4200_0300 0 3 "bt_init" 8192 0x4081_0000 at_reset (omega arith) e)

-- After the launch.
launch-returns_example :
    (idle : ℕ) × (k' : Kernel) × (launch (initial_kernel esp32c6) 7 ≡ ok k')
    × Reachable esp32c6 true idle k'
launch-returns_example = launch-returns {layout = esp32c6} 7 0 at_reset (omega arith) first_free

abbrev begun :
    (idle : ℕ) × (k' : Kernel) × (launch (initial_kernel esp32c6) 7 ≡ ok k')
    × Reachable esp32c6 true idle k'
begun = launch-returns {layout = esp32c6} 7 0 at_reset (omega arith) first_free

abbrev idle : ℕ
idle = begun.0

-- A task is created, then the timer interrupt comes with two ticks missed.
abbrev shell_created :
    (k' : Kernel) × (perform begun.1 (creates 8 10 "shell") ≡ ok k')
    × Reachable esp32c6 true idle k'
unfolding allowed
shell_created = perform-returns (creates 8 10 "shell") begun.3 (λ c e. refl)

perform-returns_example :
    (k' : Kernel) × (perform shell_created.0 (timer 2) ≡ ok k') × Reachable esp32c6 true idle k'
unfolding allowed
perform-returns_example = perform-returns (timer 2) shell_created.2 (λ c e. refl)

Reachable-IsRunning_example : (c : ℕ) × IsRunning true idle shell_created.0 c
Reachable-IsRunning_example = Reachable-IsRunning shell_created.2

-- In the running system one more task is created, of higher priority than the one that runs.
abbrev spare : Kernel
spare = record live { stacks = λ t. replicate page_size_words 0 }

spare-IsLive : IsLive spare 1
spare-IsLive = record {
  valid = record {
    once = live-IsLive.valid.once;
    small = live-IsLive.valid.small;
    runs = live-IsLive.valid.runs;
    waits = live-IsLive.valid.waits;
    used = live-IsLive.valid.used;
    owned = live-IsLive.valid.owned;
    here = live-IsLive.valid.here;
    by_priority = live-IsLive.valid.by_priority;
    by_wake = live-IsLive.valid.by_wake;
  };
  runs_now = refl;
  started = refl;
}

create-Created_example :
    ((create spare 8 9 "shell" ≡ ok (rejected pool_full, spare))
      × ((u : ℕ) → u < task_max → test_bit 63 u ≡ true))
    ⊎ Created spare 1 8 9 "shell" (create spare 8 9 "shell")
create-Created_example =
    create-Created 1 8 9 "shell" spare-IsLive refl (λ t. length-replicate {A = ℕ} page_size_words 0)
