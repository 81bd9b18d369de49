-- ===== src/Async/Heap.antt =====
-- The timer queue as a heap: the lemmas that the sifts share. Wake ticks wrap, so they are compared
-- by how far they lie after a tick `base` that all of them follow by less than 2^31.
pub mod Slots
pub mod Up
pub mod Down
use mos_rust.Prelude.{
  ℕ, zero, suc, ◌+◌, ◌-◌, ◌/◌, ◌%◌, ◌^◌, ◌≤◌, ◌<◌, ◌≡◌, List, ltb, length, get_or, arith,
}
use mos_rust.Kernel.{u32_mod}
use mos_rust.Async.{TimerEntry, precedes}

-- What an index out of range is taken to hold; no statement depends on it.
abbrev pub blank : TimerEntry
blank = record { wake_tick = 0; waker = 0 }

abbrev pub at : List TimerEntry → ℕ → TimerEntry
at a i = get_or a i blank

abbrev pub rank : ℕ → ℕ → ℕ
rank base t = (t + (u32_mod - base)) % u32_mod

-- A tick of 32 bits that follows `base` by less than 2^31.
abbrev pub IsNear : ℕ → ℕ → Type 0
IsNear base t = (t < u32_mod) × (rank base t < 2 ^ 31)

pub precedes-rank :
    (base t u : ℕ)
    → base < u32_mod
    → IsNear base t
    → IsNear base u
    → precedes t u ≡ ltb (rank base t) (rank base u)
unfolding precedes
precedes-rank base t u h ht hu = ground arith

abbrev pub parent : ℕ → ℕ
parent c = (c - 1) / 2

abbrev pub key : ℕ → List TimerEntry → ℕ → ℕ
key base a i = rank base (at a i).wake_tick

abbrev pub AllNear : ℕ → List TimerEntry → Type 0
AllNear base a = (i : ℕ) → i < length a → IsNear base (at a i).wake_tick

-- No entry comes before its parent in the tree.
abbrev pub IsHeap : ℕ → List TimerEntry → Type 0
IsHeap base a = (c : ℕ) → 0 < c → c < length a → key base a (parent c) ≤ key base a c

-- The edges past `i`, from its parent to its children, are in order.
abbrev pub IsBridged : ℕ → List TimerEntry → ℕ → Type 0
IsBridged base a i =
    (c : ℕ) → 0 < c → c < length a → parent c ≡ i → 0 < i → key base a (parent i) ≤ key base a c

root_least_below :
    (base k : ℕ) (a : List TimerEntry) (i : ℕ)
    → IsHeap base a
    → i < k
    → i < length a
    → key base a 0 ≤ key base a i
root_least_below base zero a i h f p = absurd (omega arith)
root_least_below base (suc k) a i h f p =
    ground (arith, h i, root_least_below base k a (parent i) h)

-- No entry comes before the root.
pub root_least :
    (base : ℕ) (a : List TimerEntry) (i : ℕ)
    → IsHeap base a
    → i < length a
    → key base a 0 ≤ key base a i
root_least base a i h p = root_least_below base (suc i) a i h (omega arith) p
