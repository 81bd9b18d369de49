-- ===== src/Kernel/Invariant/Ids.antt =====
-- `alloc_tid` and `free_tid` of core/src/kernel/global.rs: which id is handed out, and that both
-- keep the invariant.
use mos_rust.Config.{task_max}
use mos_rust.Prelude.{
  ℕ, zero, suc, ◌+◌, ◌≤◌, ◌<◌, ◌≡◌, refl, inl, inr, true, false, Option, none, some, ltb, update,
  IsSortedBy-agree, arith, Bool-cases,
}
use mos_rust.Prelude.Bits.{set_bit, test_bit, test_bit-set_bit, test_bit-clear_bit}
use mos_rust.Kernel.{Kernel, empty_tcb, alloc_scan, alloc_tid, free_tid}
use mos_rust.Kernel.Invariant.{IsValid, listed}

-- The kernel after id `t` was handed out.
abbrev pub allocated : Kernel → ℕ → Kernel
allocated k t = record k {
  tid_bitmap = set_bit k.tid_bitmap t;
  tcbs = update k.tcbs t (empty_tcb t);
}

-- What a search for an id between `lo` and `hi` returns: the lowest that is free, or none is free.
abbrev pub Allocates : Kernel → ℕ → ℕ → Option (ℕ × Kernel) → Type 0
Allocates k lo hi none = (u : ℕ) → lo ≤ u → u < hi → test_bit k.tid_bitmap u ≡ true
Allocates k lo hi (some (t, k')) =
    (lo ≤ t)
    × (t < hi)
    × (test_bit k.tid_bitmap t ≡ false)
    × (k' ≡ allocated k t)
    × ((u : ℕ) → lo ≤ u → u < t → test_bit k.tid_bitmap u ≡ true)

Allocates-next :
    (k : Kernel) (lo hi : ℕ) (o : Option (ℕ × Kernel))
    → test_bit k.tid_bitmap lo ≡ true
    → Allocates k (suc lo) hi o
    → Allocates k lo hi o
Allocates-next k lo hi none used a = λ u h lt. ground (arith, a u)
Allocates-next k lo hi (some (t, k')) used (ge, lt, free, e, before) =
    (omega arith, lt, free, e, λ u h hu. ground (arith, before u))

alloc_scan-Allocates : (n lo : ℕ) (k : Kernel) → Allocates k lo (lo + n) (alloc_scan n lo k)
unfolding alloc_scan
alloc_scan-Allocates zero lo k = λ u h lt. absurd (omega arith)
alloc_scan-Allocates (suc n) lo k = elim (Bool-cases (test_bit k.tid_bitmap lo)) [
  | inl used ↦
      let bound : lo + suc n ≡ suc lo + n = omega arith in
      rw (used, bound) (Allocates-next k lo (suc lo + n) _ used (alloc_scan-Allocates n (suc lo) k))
  | inr free ↦ rw free (omega arith, omega arith, free, refl, λ u h hu. absurd (omega arith))
]

-- `alloc_tid` hands out the lowest free id below TASK_MAX, with its bit set and its task control
-- block emptied and everything else as it was, and fails only if every id is taken.
pub alloc_tid-Allocates : (k : Kernel) → Allocates k 0 task_max (alloc_tid k)
unfolding alloc_tid
alloc_tid-Allocates k = alloc_scan-Allocates task_max 0 k

module _ {k : Kernel} (v : IsValid k) where
  open v use {once, small, runs, waits, used, owned, here, by_priority, by_wake}

  -- A free id is in no list.
  pub free-listed : (t : ℕ) → t < task_max → test_bit k.tid_bitmap t ≡ false → listed k t ≡ 0
  free-listed t lt free = ground (arith, used t lt, runs t, waits t)

  pub allocated-IsValid :
      (t : ℕ) → t < task_max → test_bit k.tid_bitmap t ≡ false → IsValid (allocated k t)
  allocated-IsValid t lt free =
      let out = free-listed t lt free in
      record {
        once = once;
        small = small;
        runs = λ u h. ground (arith, runs u h);
        waits = λ u h. ground (arith, waits u h);
        used = λ u h. ground (arith, used u h, test_bit-set_bit k.tid_bitmap t u);
        owned = λ u. ground (arith, owned u);
        here = λ c e. ground (arith, here c e);
        by_priority = IsSortedBy-agree _ _ k.ready_list (λ u h. ground arith) by_priority;
        by_wake = IsSortedBy-agree _ _ k.sleeping_list (λ u h. ground arith) by_wake;
      }

  -- Freeing an id that is in no list keeps the invariant.
  pub free_tid-IsValid : (t : ℕ) → listed k t ≡ 0 → IsValid (free_tid k t)
  unfolding free_tid
  free_tid-IsValid t out = elim (Bool-cases (ltb t task_max)) [
    | inr ge ↦ rw ge v
    | inl lt ↦ rw lt (record {
      once = once;
      small = small;
      runs = λ u h. ground (arith, runs u h);
      waits = λ u h. ground (arith, waits u h);
      used = λ u h. ground (arith, used u h, test_bit-clear_bit k.tid_bitmap t u);
      owned = λ u. ground (arith, owned u);
      here = λ c e. ground (arith, here c e);
      by_priority = IsSortedBy-agree _ _ k.ready_list (λ u h. ground arith) by_priority;
      by_wake = IsSortedBy-agree _ _ k.sleeping_list (λ u h. ground arith) by_wake;
    })
  ]
