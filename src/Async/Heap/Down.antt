-- ===== src/Async/Heap/Down.antt =====
-- `sift_down`: an entry that may come after its children sinks to its place.
use mos_rust.Prelude.{
  ℕ, zero, suc, ◌+◌, ◌*◌, ◌≤◌, ◌<◌, ◌≡◌, ◌≢◌, refl, inl, inr, List, ltb, ◌==◌, if◌then◌else◌,
  length, ok, Bool-cases, arith,
}
use mos_rust.Kernel.{u32_mod}
use mos_rust.Queue.{Slot}
use mos_rust.Async.{TimerEntry, smaller, sift_down}
use mos_rust.Async.Heap.{blank, precedes-rank, parent, key, AllNear, IsBridged}
use mos_rust.Async.Heap.Slots.{
  filled, exchange, length-exchange, get_or-exchange, exchange-filled, read_slot-filled,
}
use mos_rust.Async.Heap.Up.{Sifted, Sifted-exchange, Sifted-still, exchange-AllNear}

-- Only the edges below `i` may be out of order.
pub record DownInv (base : ℕ) (a : List TimerEntry) (i : ℕ) : Type 0 where
  pub inside : i < length a
  pub near : AllNear base a
  pub edges : (c : ℕ) → 0 < c → c < length a → parent c ≢ i → key base a (parent c) ≤ key base a c
  pub bridged : IsBridged base a i

-- `child` if it is there and comes before `s`.
earlier : ℕ → List TimerEntry → ℕ → ℕ → ℕ
earlier base a s child =
    if ltb child (length a) then (if ltb (key base a child) (key base a s) then child else s) else s

earliest : ℕ → List TimerEntry → ℕ → ℕ
earliest base a i = earlier base a (earlier base a i (2 * i + 1)) (2 * i + 2)

smaller-ok :
    (base : ℕ) (a : List TimerEntry) (rest : List (Slot TimerEntry)) (s child : ℕ)
    → base < u32_mod
    → AllNear base a
    → s < length a
    → smaller (filled a rest) (length a) s child ≡ ok (earlier base a s child)
unfolding smaller earlier
smaller-ok base a rest s child b near h = elim (Bool-cases (ltb child (length a))) [
  | inr out ↦ rw out refl
  | inl there ↦
      let hc : child < length a = ground arith in
      rw
        (
          there,
          read_slot-filled a rest s blank h,
          read_slot-filled a rest child blank hc,
          precedes-rank base _ _ b (near child hc) (near s h),
        )
        (ground arith)
]

-- The entry that the loop exchanges with that at `i`: the first of it and its children.
record IsEarliest (base : ℕ) (a : List TimerEntry) (i m : ℕ) : Type 0 where
  inside : m < length a
  least : (c : ℕ) → 0 < c → c < length a → parent c ≡ i → key base a m ≤ key base a c
  up : key base a m ≤ key base a i
  child : m ≢ i → (parent m ≡ i) × (i < m) × (key base a m < key base a i)

earlier-lt :
    (base : ℕ) (a : List TimerEntry) (s child : ℕ)
    → s < length a
    → earlier base a s child < length a
unfolding earlier
earlier-lt base a s child h = ground arith

earliest-IsEarliest :
    (base : ℕ) (a : List TimerEntry) (i : ℕ)
    → i < length a
    → IsEarliest base a i (earliest base a i)
unfolding earliest earlier
earliest-IsEarliest base a i h = record {
  inside = ground arith;
  least = λ c p q r. elim (Bool-cases (c == (2 * i + 1))) [
    | inl left ↦ ground arith
    | inr right ↦ let at_right : c ≡ 2 * i + 2 = ground arith in ground arith
  ];
  up = ground arith;
  child = λ n. ground arith;
}

sift_down-step :
    (base k : ℕ) (a : List TimerEntry) (rest : List (Slot TimerEntry)) (i : ℕ)
    → base < u32_mod
    → AllNear base a
    → i < length a
    → sift_down (suc k) (filled a rest) (length a) i ≡ (
        if earliest base a i == i
        then ok (filled a rest)
        else sift_down k
            (filled (exchange a i (earliest base a i) blank) rest)
            (length a)
            (earliest base a i))
unfolding sift_down earliest
sift_down-step base k a rest i b near h =
    let s1 = earlier base a i (2 * i + 1) in
    let h1 = earlier-lt base a i (2 * i + 1) h in
    let hm = earlier-lt base a s1 (2 * i + 2) h1 in
    rw
      (
        smaller-ok base a rest i (2 * i + 1) b near h,
        smaller-ok base a rest s1 (2 * i + 2) b near h1,
        read_slot-filled a rest i blank h,
        read_slot-filled a rest (earlier base a s1 (2 * i + 2)) blank hm,
        exchange-filled a i (earlier base a s1 (2 * i + 2)) blank h hm rest,
      )
      (ground arith)

exchange-DownInv :
    (base : ℕ) (a : List TimerEntry) (i m : ℕ)
    → DownInv base a i
    → IsEarliest base a i m
    → m ≢ i
    → DownInv base (exchange a i m blank) m
exchange-DownInv base a i m v s ne =
    let size = length-exchange a i m blank in
    let look = get_or-exchange a i m blank v.inside s.inside in
    let (below, far, first) = s.child ne in
    record {
      inside = rw size s.inside;
      near = exchange-AllNear base a i m v.inside s.inside v.near;
      edges = λ c p q t.
          ground (arith, size, look c, look (parent c), v.edges c, v.bridged m, s.least c);
      bridged = λ c p q t u. ground (arith, size, look c, look (parent m), v.edges c);
    }

-- `sift_down` makes a heap of entries of which one may come too early in the array.
pub sift_down-Sifted :
    (base k : ℕ) (a : List TimerEntry) (rest : List (Slot TimerEntry)) (i n : ℕ)
    → base < u32_mod
    → n ≡ length a
    → n ≤ k + i
    → DownInv base a i
    → Sifted base rest a (sift_down k (filled a rest) n i)
sift_down-Sifted base zero a rest i n b size f v = absurd (omega (arith, v.inside))
sift_down-Sifted base (suc k) a rest i n b size f v =
    let step = sift_down-step base k a rest i b v.near v.inside in
    let s = earliest-IsEarliest base a i v.inside in
    let m = earliest base a i in
    elim (Bool-cases (m == i)) [
      | inl settled ↦
          Sifted-still (rw (size, step, settled) refl) v.near
            (λ c q r. ground (arith, v.edges c, s.least c, s.up))
      | inr below ↦
          let (_, far, _) = s.child (ground arith) in
          Sifted-exchange v.inside s.inside (rw (size, step, below) refl) (
            sift_down-Sifted base k (exchange a i m blank) rest m (length a) b
              (omega (arith, length-exchange a i m blank)) (omega arith)
              (exchange-DownInv base a i m v s (ground arith)))
    ]
