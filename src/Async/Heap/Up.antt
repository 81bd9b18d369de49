-- ===== src/Async/Heap/Up.antt =====
-- `sift_up`: an entry that may come before its parents rises to its place.
use mathlib.Core.List.{Perm}
use mathlib.Core.List.Perm as P
use mos_rust.Prelude.{
  ℕ, zero, suc, ◌≤◌, ◌<◌, ◌≡◌, ◌≢◌, refl, ◌∙◌, inl, inr, List, ltb, if◌then◌else◌, length, Run, ok,
  Bool-cases, lt→ltb, arith,
}
use mos_rust.Kernel.{u32_mod}
use mos_rust.Queue.{Slot}
use mos_rust.Async.{TimerEntry, precedes, sift_up}
use mos_rust.Async.Heap.{blank, at, precedes-rank, parent, key, AllNear, IsHeap, IsBridged}
use mos_rust.Async.Heap.Slots.{
  filled, exchange, length-exchange, get_or-exchange, exchange-perm, exchange-filled,
  read_slot-filled,
}

-- The run ends, with the entries of `a` as a heap before the same rest.
pub record Sifted (base : ℕ) (rest : List (Slot TimerEntry)) (a : List TimerEntry)
    (r : Run (List (Slot TimerEntry))) : Type 0 where
  pub after : List TimerEntry
  pub returned : r ≡ ok (filled after rest)
  pub heap : IsHeap base after
  pub near : AllNear base after
  pub same : Perm after a

module _ {base : ℕ} {rest : List (Slot TimerEntry)} where
  pub Sifted-exchange :
      {a : List TimerEntry} {i j : ℕ} {r r' : Run (List (Slot TimerEntry))}
      → i < length a
      → j < length a
      → r' ≡ r
      → Sifted base rest (exchange a i j blank) r
      → Sifted base rest a r'
  Sifted-exchange {a} {i} {j} hi hj e s = record {
    after = s.after;
    returned = e ∙ s.returned;
    heap = s.heap;
    near = s.near;
    same = P.trans s.same (exchange-perm a i j blank hi hj);
  }

  -- A heap that the run left as it was.
  pub Sifted-still :
      {a : List TimerEntry} {r : Run (List (Slot TimerEntry))}
      → r ≡ ok (filled a rest)
      → AllNear base a
      → IsHeap base a
      → Sifted base rest a r
  Sifted-still {a} e near heap = record {
    after = a;
    returned = e;
    heap = heap;
    near = near;
    same = P.rfl;
  }

pub exchange-AllNear :
    (base : ℕ) (a : List TimerEntry) (i j : ℕ)
    → i < length a
    → j < length a
    → AllNear base a
    → AllNear base (exchange a i j blank)
exchange-AllNear base a i j hi hj near c h = ground (
  arith,
  length-exchange a i j blank,
  get_or-exchange a i j blank hi hj c,
  near i,
  near j,
  near c,
)

-- Only the edge above `i` may be out of order.
pub record UpInv (base : ℕ) (a : List TimerEntry) (i : ℕ) : Type 0 where
  pub inside : i < length a
  pub near : AllNear base a
  pub edges : (c : ℕ) → 0 < c → c < length a → c ≢ i → key base a (parent c) ≤ key base a c
  pub bridged : IsBridged base a i

exchange-UpInv :
    (base : ℕ) (a : List TimerEntry) (i : ℕ)
    → UpInv base a i
    → 0 < i
    → key base a i < key base a (parent i)
    → UpInv base (exchange a i (parent i) blank) (parent i)
exchange-UpInv base a i v pos below =
    let p = parent i in
    let above : p < length a = ground (arith, v.inside) in
    let size = length-exchange a i p blank in
    let look = get_or-exchange a i p blank v.inside above in
    record {
      inside = rw size above;
      near = exchange-AllNear base a i p v.inside above v.near;
      edges = λ c q r t. ground (arith, size, look c, look (parent c), v.edges c, v.bridged c);
      bridged = λ c q r t u. ground (
        arith,
        size,
        look c,
        look (parent c),
        look (parent p),
        v.edges c,
        v.edges p,
        v.bridged c,
      );
    }

sift_up-step :
    (k : ℕ) (a : List TimerEntry) (rest : List (Slot TimerEntry)) (i : ℕ)
    → 0 < i
    → i < length a
    → sift_up (suc k) (filled a rest) i ≡ (
        if precedes (at a i).wake_tick (at a (parent i)).wake_tick
        then sift_up k (filled (exchange a i (parent i) blank) rest) (parent i)
        else ok (filled a rest))
unfolding sift_up
sift_up-step k a rest i pos h =
    let above : parent i < length a = ground arith in
    rw (
      lt→ltb 0 i pos,
      read_slot-filled a rest i blank h,
      read_slot-filled a rest (parent i) blank above,
      exchange-filled a i (parent i) blank h above rest,
    )

sift_up-root : (k : ℕ) (d : List (Slot TimerEntry)) (i : ℕ) → i ≤ 0 → sift_up k d i ≡ ok d
unfolding sift_up
sift_up-root zero d i h = refl
sift_up-root (suc k) d i h = ground arith

-- `sift_up` makes a heap of entries of which one may come too late in the array.
pub sift_up-Sifted :
    (base k : ℕ) (a : List TimerEntry) (rest : List (Slot TimerEntry)) (i : ℕ)
    → base < u32_mod
    → i ≤ k
    → UpInv base a i
    → Sifted base rest a (sift_up k (filled a rest) i)
sift_up-Sifted base zero a rest i b f v =
    Sifted-still (sift_up-root zero _ i f) v.near (λ c p q. v.edges c p q (ground arith))
sift_up-Sifted base (suc k) a rest i b f v = elim (Bool-cases (ltb 0 i)) [
  | inr root ↦
      Sifted-still (sift_up-root (suc k) _ i (ground arith)) v.near
        (λ c p q. v.edges c p q (ground arith))
  | inl pos ↦
      let p = parent i in
      let above : p < length a = ground (arith, v.inside) in
      let step = sift_up-step k a rest i (ground arith) v.inside in
      let test = precedes-rank base _ _ b (v.near i v.inside) (v.near p above) in
      elim (Bool-cases (ltb (key base a i) (key base a p))) [
        | inl below ↦ Sifted-exchange v.inside above (rw (step, test, below) refl) (
            sift_up-Sifted base k (exchange a i p blank) rest p b (ground arith)
              (exchange-UpInv base a i v (ground arith) (ground arith)))
        | inr settled ↦
            Sifted-still (rw (step, test, settled) refl) v.near (λ c q r. ground (arith, v.edges c))
      ]
]
