-- ===== src/Lcd/Chars.antt =====
-- The ring of characters against the list of those that wait.
use mos_rust.Prelude.{
  ℕ, zero, suc, ◌+◌, ◌-◌, ◌%◌, ◌≤◌, ◌<◌, ◌≡◌, refl, ap, ap₂, ◌∙◌, inl, inr, min, List, [], ◌∷◌,
  ◌++◌, ltb, ◌==◌, if◌then◌else◌, length, length-append, length-set, length-replicate,
  get_elem?-eq-get_or, get_or, get_or-set, set, take, drop, Bool-cases, ==_refl, lt→ltb, ok, arith,
}
use mos_rust.Lcd.{CharRing, ring, char_buf_size, read_at, write_at, push, drain_from, drain}

-- The characters `cs` wait, the oldest first.
pub record Pending (r : CharRing) (cs : List ℕ) : Type 0 where
  pub size : length r.buf ≡ char_buf_size
  pub head_in : r.head < char_buf_size
  pub tail_at : r.tail ≡ (r.head + r.len) % char_buf_size
  pub counted : r.len ≡ length cs
  pub room : length cs ≤ char_buf_size
  pub content :
      (i : ℕ) → i < length cs → get_or r.buf ((r.head + i) % char_buf_size) 0 ≡ get_or cs i 0

pub ring-Pending : Pending ring []
unfolding ring
ring-Pending = record {
  size = length-replicate {A = ℕ} char_buf_size 0;
  head_in = omega arith;
  tail_at = refl;
  counted = refl;
  room = omega arith;
  content = λ i h. absurd (omega arith);
}

-- The character goes behind those that wait, or is dropped.
abbrev pub queued : List ℕ → ℕ → List ℕ
queued cs c = if ltb (length cs) char_buf_size then cs ++ c ∷ [] else cs

get_or-append :
    (cs : List ℕ) (c i : ℕ)
    → get_or (cs ++ c ∷ []) i 0 ≡ (if i == length cs then c else get_or cs i 0)
get_or-append [] c zero = refl
get_or-append [] c (suc i) = ground arith
get_or-append (x ∷ cs) c zero = ground arith
get_or-append (x ∷ cs) c (suc i) = ground (arith, get_or-append cs c i)

write_at-ok : (xs : List ℕ) (i v : ℕ) → i < length xs → write_at xs i v ≡ ok (set xs i v)
write_at-ok xs i v h = rw (lt→ltb i (length xs) h) refl

read_at-ok : (xs : List ℕ) (i : ℕ) → i < length xs → read_at xs i ≡ ok (get_or xs i 0)
read_at-ok xs i h = rw (get_elem?-eq-get_or xs i 0 h, read_at) refl

pub push-Pending :
    (r : CharRing) (cs : List ℕ) (c : ℕ)
    → Pending r cs
    → (r' : CharRing) × (push r c ≡ ok r') × Pending r' (queued cs c)
unfolding push
push-Pending r cs c p = elim (Bool-cases (ltb (length cs) char_buf_size)) [
  | inr full ↦ (r, rw (p.counted, full) refl, rw full p)
  | inl fits ↦
      let lt : r.tail < length r.buf = omega (arith, p.size, p.tail_at) in
      let put = λ (j : ℕ). get_or-set r.buf r.tail j c 0 lt in
      (
        record r { buf = set r.buf r.tail c; tail = (r.tail + 1) % char_buf_size; len = r.len + 1 },
        rw (p.counted, fits, write_at-ok r.buf r.tail c lt) refl,
        rw fits (record {
          size = length-set r.buf r.tail c ∙ p.size;
          head_in = p.head_in;
          tail_at = omega (arith, p.tail_at);
          counted = omega (arith, p.counted, length-append cs (c ∷ []));
          room = ground (arith, length-append cs (c ∷ []));
          content = λ i h.
              let size = length-append cs (c ∷ []) in
              put ((r.head + i) % char_buf_size)
              ∙ ground
                  (arith, size, get_or-append cs c i, p.content i, p.tail_at, p.counted, p.head_in);
        }),
      )
]

-- The first `n` characters from the head on stand in the buffer from index `i` on.
record Copied (n i : ℕ) (r : CharRing) (out : List ℕ) : Type 0 where
  after : List ℕ
  returned : drain_from n i r out ≡ ok (record r { head = (r.head + n) % char_buf_size }, after)
  size : length after ≡ length out
  before : (j : ℕ) → j < i → get_or after j 0 ≡ get_or out j 0
  copied : (j : ℕ) → j < n → get_or after (i + j) 0 ≡ get_or r.buf ((r.head + j) % char_buf_size) 0

drain_from-step :
    (n i : ℕ) (r : CharRing) (out : List ℕ)
    → r.head < length r.buf
    → i < length out
    → drain_from (suc n) i r out
      ≡ drain_from n
          (i + 1)
          (record r { head = (r.head + 1) % char_buf_size })
          (set out i (get_or r.buf r.head 0))
unfolding drain_from
drain_from-step n i r out h hi =
    rw (read_at-ok r.buf r.head h, write_at-ok out i (get_or r.buf r.head 0) hi) refl

-- One character more in front.
copied_first :
    (n i : ℕ) (r : CharRing) (after : List ℕ)
    → r.head < char_buf_size
    → get_or after i 0 ≡ get_or r.buf r.head 0
    → ((j : ℕ)
        → j < n
        → get_or after (i + 1 + j) 0
          ≡ get_or r.buf (((r.head + 1) % char_buf_size + j) % char_buf_size) 0)
    → (j : ℕ) → j < suc n
    → get_or after (i + j) 0 ≡ get_or r.buf ((r.head + j) % char_buf_size) 0
copied_first n i r after h first rest zero lt =
    let stays : (r.head + 0) % char_buf_size ≡ r.head = omega arith in
    let here : i + 0 ≡ i = omega arith in rw (stays, here) first
copied_first n i r after h first rest (suc j) lt =
    let there : i + suc j ≡ i + 1 + j = omega arith in
    let far : (r.head + suc j) % char_buf_size
        ≡ ((r.head + 1) % char_buf_size + j) % char_buf_size =
      omega arith in
    rw (there, far) (rest j (omega arith))

drain_from-Copied :
    (n i : ℕ) (r : CharRing) (out : List ℕ)
    → length r.buf ≡ char_buf_size
    → r.head < char_buf_size
    → i + n ≤ length out
    → Copied n i r out
unfolding drain_from
drain_from-Copied zero i r out size h fits =
    let stays : (r.head + 0) % char_buf_size ≡ r.head = omega arith in
    record {
      after = out;
      returned = rw stays refl;
      size = refl;
      before = λ j lt. refl;
      copied = λ j lt. absurd (omega arith);
    }
drain_from-Copied (suc n) i r out size h fits =
    let c = get_or r.buf r.head 0 in
    let put = λ (j : ℕ). get_or-set out i j c 0 (omega arith) in
    let next = (r.head + 1) % char_buf_size in
    let kept = length-set out i c in
    let ih =
      drain_from-Copied n (i + 1) (record r { head = next }) (set out i c) size (omega arith)
        (omega (arith, kept)) in
    let far : (next + n) % char_buf_size ≡ (r.head + suc n) % char_buf_size = omega arith in
    record {
      after = ih.after;
      returned =
          drain_from-step n i r out (omega (arith, size)) (omega arith)
          ∙ ih.returned
          ∙ ap (λ m. ok (record r { head = m }, ih.after)) far;
      size = ih.size ∙ kept;
      before = λ j lt. ih.before j (omega arith) ∙ put j ∙ ground arith;
      copied =
          copied_first n i r ih.after h (ih.before i (omega arith) ∙ put i ∙ rw (==_refl i) refl)
            ih.copied;
    }

-- Lists that agree at each index below the count agree that far.
take-agree :
    (n : ℕ) (xs ys : List ℕ)
    → n ≤ length xs
    → n ≤ length ys
    → ((j : ℕ) → j < n → get_or xs j 0 ≡ get_or ys j 0)
    → take n xs ≡ take n ys
take-agree zero xs ys hx hy e = refl
take-agree (suc n) [] ys hx hy e = absurd (omega arith)
take-agree (suc n) (x ∷ xs) [] hx hy e = absurd (omega arith)
take-agree (suc n) (x ∷ xs) (y ∷ ys) hx hy e =
    ap₂ ◌∷◌ (e 0 (omega arith))
      (take-agree n xs ys (omega arith) (omega arith) λ j lt. e (suc j) (omega arith))

length-drop : (n : ℕ) (xs : List ℕ) → length (drop n xs) ≡ length xs - n
length-drop zero xs = omega arith
length-drop (suc n) [] = omega arith
length-drop (suc n) (x ∷ xs) = omega (arith, length-drop n xs)

get_or-drop : (n i : ℕ) (xs : List ℕ) → get_or (drop n xs) i 0 ≡ get_or xs (n + i) 0
get_or-drop zero i xs = ap (λ j. get_or xs j 0) (omega arith)
get_or-drop (suc n) i [] = refl
get_or-drop (suc n) i (x ∷ xs) =
    let next : suc n + i ≡ suc (n + i) = omega arith in rw next (get_or-drop n i xs)

-- `drain` takes the oldest characters, as many as fit, and leaves the others.
pub record Drained (r : CharRing) (cs out : List ℕ) : Type 0 where
  pub ring : CharRing
  pub after : List ℕ
  pub returned : drain r out ≡ ok (min r.len (length out), ring, after)
  pub pending : Pending ring (drop (length out) cs)
  pub size : length after ≡ length out
  pub read : take (min r.len (length out)) after ≡ take (length out) cs

take-min : (n : ℕ) (xs : List ℕ) → take (min (length xs) n) xs ≡ take n xs
take-min zero [] = refl
take-min zero (x ∷ xs) = let e : min (suc (length xs)) 0 ≡ 0 = omega arith in rw e refl
take-min (suc n) [] = let e : min 0 (suc n) ≡ 0 = omega arith in rw e refl
take-min (suc n) (x ∷ xs) =
    let e : min (suc (length xs)) (suc n) ≡ suc (min (length xs) n) = omega arith in
    rw e (ap (◌∷◌ x) (take-min n xs))

pub drain-Drained : (r : CharRing) (cs out : List ℕ) → Pending r cs → Drained r cs out
unfolding drain
drain-Drained r cs out p =
    let n = min r.len (length out) in
    let c = drain_from-Copied n 0 r out p.size p.head_in (omega arith) in
    let left = length-drop (length out) cs in
    record {
      ring = record r { head = (r.head + n) % char_buf_size; len = r.len - n };
      after = c.after;
      returned = rw c.returned refl;
      pending = record {
        size = p.size;
        head_in = omega arith;
        tail_at = omega (arith, p.tail_at, p.counted);
        counted = omega (arith, p.counted, left);
        room = omega (arith, p.room, left);
        content = λ i h.
            let all : n ≡ length out = omega (arith, p.counted, left) in
            let at : ((r.head + n) % char_buf_size + i) % char_buf_size
                ≡ (r.head + (length out + i)) % char_buf_size =
              omega (arith, all) in
            rw (at, get_or-drop (length out) i cs)
              (p.content (length out + i) (omega (arith, left)));
      };
      size = c.size;
      read =
          take-agree n c.after cs (omega (arith, c.size)) (omega (arith, p.counted)) (λ j lt.
            let here : 0 + j ≡ j = omega arith in
            rw here at (c.copied j lt) ∙ p.content j (omega (arith, p.counted)))
          ∙ ap (λ m. take (min m (length out)) cs) p.counted
          ∙ take-min (length out) cs;
    }
