-- ===== src/Async/Timers.antt =====
-- `TimerQueue::push` and `TimerQueue::pop_front` against the entries that the heap holds.
use mathlib.Core.List.{Mem, Perm, not-mem-nil, forall_mem-cons}
use mathlib.Core.List.Perm as P
use native.Mathlib.Bridge.{le_prop}
use mos_rust.Config.{async_pool_max}
use mos_rust.Prelude.{
  ℕ, suc, ◌+◌, ◌-◌, ◌≤◌, ◌<◌, ◌≡◌, refl, ap, List, [], ◌∷◌, ◌++◌, some, length, set, length-append,
  length-set, get_or-set, ok, ==_refl, ne→==_false, lt→ltb, not-le→leb, arith,
}
use mos_rust.Kernel.{u32_mod}
use mos_rust.Queue.{Slot, read_slot}
use mos_rust.Async.{TimerEntry, TimerQueue, add, take_first}
use mos_rust.Async.Heap.{blank, at, rank, IsNear, parent, key, AllNear, IsHeap, root_least}
use mos_rust.Async.Heap.Slots.{
  filled, set-perm, get_or-append, filled-append, set-filled, set-filled_end, read_slot-filled,
  length-perm, end-perm,
}
use mos_rust.Async.Heap.Up.{UpInv, sift_up-Sifted}
use mos_rust.Async.Heap.Down.{DownInv, sift_down-Sifted}

-- The queue holds the entries `a`, which are a heap by their ticks after `base`.
pub record IsTimed (base : ℕ) (q : TimerQueue) (a : List TimerEntry) : Type 0 where
  pub rest : List (Slot TimerEntry)
  pub stored : q.data_ ≡ filled a rest
  pub size : q.len ≡ length a
  pub room : length a + length rest ≡ async_pool_max
  pub heap : IsHeap base a
  pub near : AllNear base a

-- A queue with the entry besides the old ones.
pub record Added (base : ℕ) (q : TimerQueue) (a : List TimerEntry) (entry : TimerEntry)
    : Type 0 where
  pub queue : TimerQueue
  pub entries : List TimerEntry
  pub returned : add q entry ≡ ok queue
  pub timed : IsTimed base queue entries
  pub same : Perm entries (entry ∷ a)

append-UpInv :
    (base : ℕ) (a : List TimerEntry) (entry : TimerEntry)
    → IsHeap base a
    → AllNear base a
    → IsNear base entry.wake_tick
    → UpInv base (a ++ entry ∷ []) (length a)
append-UpInv base a entry heap near now =
    let size = length-append a (entry ∷ []) in
    let look = λ (c : ℕ). get_or-append a entry c blank in
    record {
      inside = omega (arith, size);
      near = λ c h. ground (arith, size, look c, near c);
      edges = λ c p q n. ground (arith, size, look c, look (parent c), heap c);
      bridged = λ c p q e u. absurd (ground (arith, size));
    }

-- With room the entry is added.
pub add-Added :
    (base : ℕ) (q : TimerQueue) (a : List TimerEntry) (entry : TimerEntry)
    → base < u32_mod
    → IsTimed base q a
    → IsNear base entry.wake_tick
    → length a < async_pool_max
    → Added base q a entry
unfolding add
add-Added base q a entry b v near h =
    elim v.rest as (λ r. (r ≡ v.rest) → Added base q a entry) [
      | [] ↦ λ e. absurd (omega (arith, v.room, ap length e))
      | old ∷ rest ↦ λ e.
          let size = length-append a (entry ∷ []) in
          let s =
            sift_up-Sifted base (length a) (a ++ entry ∷ []) rest (length a) b (omega arith)
              (append-UpInv base a entry v.heap v.near near) in
          let kept = length-perm s.same in
          record {
            queue = record { data_ = filled s.after rest; len = length a + 1 };
            entries = s.after;
            returned =
                rw
                  (
                    v.size,
                    v.stored,
                    ← e,
                    set-filled_end a old rest entry,
                    s.returned,
                    not-le→leb async_pool_max (length a) h,
                  )
                  refl;
            timed = record {
              rest = rest;
              stored = refl;
              size = omega (arith, kept, size);
              room = omega (arith, kept, size, v.room, ap length e);
              heap = s.heap;
              near = s.near;
            };
            same = P.trans s.same (end-perm a entry);
          }
    ]
      refl

-- The first entry, and a queue with the others.
pub record Taken (base : ℕ) (q : TimerQueue) (a : List TimerEntry) : Type 0 where
  pub top : TimerEntry
  pub queue : TimerQueue
  pub entries : List TimerEntry
  pub returned : take_first q ≡ ok (top, queue)
  pub timed : IsTimed base queue entries
  pub same : Perm (top ∷ entries) a
  pub first : top ≡ at a 0

module _ (base : ℕ) (a : List TimerEntry) (y : TimerEntry) where
  -- What is left before the sift: the last entry stands at the front.
  shortened-DownInv :
      0 < length a
      → IsHeap base (a ++ y ∷ [])
      → AllNear base (a ++ y ∷ [])
      → DownInv base (set a 0 y) 0
  shortened-DownInv h heap near =
      let size = length-set a 0 y in
      let longer = length-append a (y ∷ []) in
      let put = λ (c : ℕ). get_or-set a 0 c y blank h in
      let look = λ (c : ℕ). get_or-append a y c blank in
      record {
        inside = omega (arith, size);
        near = λ c p.
            ground (arith, size, longer, put c, look c, look (length a), near c, near (length a));
        edges = λ c p q n.
            ground (arith, size, longer, put c, put (parent c), look c, look (parent c), heap c);
        bridged = λ c p q e u. absurd (omega arith);
      }

  shortened-perm : 0 < length a → Perm (at a 0 ∷ set a 0 y) (a ++ y ∷ [])
  shortened-perm h = P.trans (set-perm a 0 y blank h) (P.symm (end-perm a y))

-- A list that is not empty, cut before its last entry.
data IsCut : List TimerEntry → Type 0 where
  cut : (a : List TimerEntry) (y : TimerEntry) → IsCut (a ++ y ∷ [])

IsCut-cons : (x : TimerEntry) (a : List TimerEntry) → IsCut (x ∷ a)
IsCut-cons x [] = cut [] x
IsCut-cons x (y ∷ a) = IsCut-cons_cons x (IsCut-cons y a)
  where
    IsCut-cons_cons : (x : TimerEntry) {b : List TimerEntry} → IsCut b → IsCut (x ∷ b)
    IsCut-cons_cons x (cut b z) = cut (x ∷ b) z

module _ (base : ℕ) (b : base < u32_mod) (a : List TimerEntry) (y : TimerEntry) (q : TimerQueue)
    (v : IsTimed base q (a ++ y ∷ [])) where
  longer : length (a ++ y ∷ []) ≡ length a + 1
  longer = length-append a (y ∷ [])

  counted : q.len - 1 ≡ length a
  counted = omega (arith, v.size, longer)

  -- The last entry moves to the front and sinks.
  take_first-many : 0 < length a → Taken base q (a ++ y ∷ [])
  unfolding take_first
  take_first-many h =
      let stale = some y ∷ v.rest in
      let size = length-set a 0 y in
      let s =
        sift_down-Sifted base (length a) (set a 0 y) stale 0 (length a) b (omega (arith, size))
          (omega arith) (shortened-DownInv base a y h v.heap v.near) in
      let kept = length-perm s.same in
      record {
        top = at (a ++ y ∷ []) 0;
        queue = record { data_ = filled s.after stale; len = length a };
        entries = s.after;
        returned =
            rw
              (
                v.stored,
                read_slot-filled (a ++ y ∷ []) v.rest 0 blank (omega (arith, longer)),
                counted,
                lt→ltb 0 (length a) h,
                read_slot-filled (a ++ y ∷ []) v.rest (length a) blank (omega (arith, longer)),
                get_or-append a y (length a) blank,
                ==_refl (length a),
                filled-append a y v.rest,
                set-filled a stale 0 y h,
                s.returned,
              )
              refl;
        timed = record {
          rest = stale;
          stored = refl;
          size = omega (arith, kept, size);
          room = omega (arith, kept, size, v.room, longer);
          heap = s.heap;
          near = s.near;
        };
        same = P.trans (P.cons (at (a ++ y ∷ []) 0) s.same) (
            rw (get_or-append a y 0 blank, ne→==_false 0 (length a) (omega arith))
              (shortened-perm base a y h));
        first = refl;
      }

take_first-cut :
    {c : List TimerEntry} (base : ℕ) (q : TimerQueue)
    → IsCut c
    → base < u32_mod
    → IsTimed base q c
    → Taken base q c
unfolding take_first read_slot
take_first-cut base q (cut [] y) b v = record {
  top = y;
  queue = record { data_ = q.data_; len = 0 };
  entries = [];
  returned = rw (v.size, v.stored) refl;
  timed = record {
    rest = some y ∷ v.rest;
    stored = v.stored;
    size = refl;
    room = omega (arith, v.room);
    heap = λ c p h. absurd (omega arith);
    near = λ c h. absurd (omega arith);
  };
  same = P.rfl;
  first = refl;
}
take_first-cut base q (cut (x ∷ a) y) b v = take_first-many base b (x ∷ a) y q v (omega arith)

-- From a queue that is not empty the root is taken.
pub take_first-Taken :
    (base : ℕ) (q : TimerQueue) (x : TimerEntry) (a : List TimerEntry)
    → base < u32_mod
    → IsTimed base q (x ∷ a)
    → Taken base q (x ∷ a)
take_first-Taken base q x a b v = take_first-cut base q (IsCut-cons x a) b v

-- No entry comes before the root of the heap.
pub first-least :
    (base : ℕ) (q : TimerQueue) (a : List TimerEntry) (n : ℕ)
    → IsTimed base q a
    → n ≤ key base a 0
    → (t : TimerEntry) → Mem t a
    → n ≤ rank base t.wake_tick
first-least base q a n v h = le_of_mem a λ i p. omega (arith, root_least base a i v.heap p)
  where
    le_of_mem :
        (c : List TimerEntry)
        → ((i : ℕ) → i < length c → n ≤ key base c i)
        → (t : TimerEntry) → Mem t c
        → n ≤ rank base t.wake_tick
    le_of_mem [] k = λ t m. absurd (not-mem-nil m)
    le_of_mem (x ∷ c) k =
        (forall_mem-cons λ t. le_prop).1
          (k 0 (omega arith), le_of_mem c λ i p. k (suc i) (omega arith))
