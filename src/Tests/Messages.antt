-- ===== src/Tests/Messages.antt =====
-- Message queues and buffers at concrete inputs.
use mos_rust.Prelude.{ℕ, ◌≡◌, refl, [], ◌∷◌, false, none, some, count, ok, arith}
use mos_rust.Kernel.{Kernel}
use mos_rust.Kernel.Task.Rouse.{Roused}
use mos_rust.Queue.Refine.{Holds}
use mos_rust.Ipc.{MsgQueue, send, recv, try_wake_up}
use mos_rust.Ipc.Ring.{ring, recv-send}
use mos_rust.Ipc.Wake.{stirred, try_wake_up-Roused}
use mos_rust.Tests.Vector.{reference_vec}
use mos_rust.Tests.Kernels.{live, live-IsLive}

abbrev mail : MsgQueue ℕ
mail = record {
  capacity = 3;
  buffer = some 9 ∷ none ∷ some 8 ∷ [];
  head = 2;
  tail = 1;
  len = 2;
  senders = [];
  receivers = [];
}

mail-Holds : Holds (ring mail) (8 ∷ 9 ∷ [])
mail-Holds = record {
  room = omega arith;
  head_in = omega arith;
  len_in = omega arith;
  tail_at = omega arith;
  content = refl;
}

recv-send_example :
    (q1 : MsgQueue ℕ) × (q2 : MsgQueue ℕ) × (send live mail 5 ≡ ok (false, live, q1))
    × (recv live q1 ≡ ok (some 8, live, q2))
    × Holds (ring q2) (9 ∷ 5 ∷ [])
recv-send_example = recv-send live mail (8 ∷ 9 ∷ []) 5 mail-Holds (omega arith) refl refl

try_wake_up-Roused_example :
    (k' : Kernel) × (try_wake_up live (3 ∷ []) ≡ ok (k', []))
    × (count 3 k'.sleeping_list ≡ 0)
    × Roused (stirred live 3) 1 3 (ok k')
try_wake_up-Roused_example = try_wake_up-Roused 1 3 live-IsLive (omega arith) []
