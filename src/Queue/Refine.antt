-- ===== src/Queue/Refine.antt =====
-- A ring queue against the list of the entries that it holds, oldest first.
use native.Mathlib.Nat.{mod-lt}
use native.Mathlib.Numerals.{add-one}
use native.Mathlib.Decide.{dec_lt}
use mathlib.Core.List.{foldl, map-append}
use mos_rust.Prelude.{
  ℕ, suc, ◌+◌, ◌-◌, ◌%◌, ◌≤◌, ◌<◌, ◌≡◌, ◌≢◌, refl, sym, ap, ◌∙◌, List, [], ◌∷◌, ◌++◌, map, true,
  false, Option, none, some, ltb, if◌then◌else◌, length, length-set, length-append,
  length-replicate, get_or, get_elem?-eq-get_or, set, drop, le→leb, not-le→leb, not-lt→ltb, ◌==◌,
  ok, arith, lt→ltb,
}
use mos_rust.Queue.Window.{
  window, length-window, window_pop, window-set, window_snoc, tail_after-push, tail_after-pop,
  step_back,
}
use mos_rust.Queue.{
  Slot, Queue, new, clear, read_slot, front, back, push, pop, serve, iter_from, iter,
}

module _ {ℓ} {A : Type ℓ} where
  get_or_last : (xs : List (Slot A)) (a : Slot A) → get_or (xs ++ (a ∷ [])) (length xs) none ≡ a
  get_or_last [] a = refl
  get_or_last (x ∷ xs) a = get_or_last xs a

  last-inj :
      (xs ys : List (Slot A)) {a b : Slot A}
      → length xs ≡ length ys
      → xs ++ (a ∷ []) ≡ ys ++ (b ∷ [])
      → a ≡ b
  last-inj xs ys {a} {b} h e =
      sym (get_or_last xs a) ∙ ap (λ w. get_or w (length xs) none) e ∙ rw h (get_or_last ys b)

  -- A slot in range that was written is read.
  read_slot-ok :
      (slots : List (Slot A)) (i : ℕ) (x : A)
      → i < length slots
      → get_or slots i none ≡ some x
      → read_slot slots i ≡ ok x
  unfolding read_slot
  read_slot-ok slots i x h e =
      rw (get_elem?-eq-get_or {A = Slot A} slots i none h, read_slot, e) refl

  pub record Holds (q : Queue A) (xs : List A) : Type ℓ where
    pub room : q.capacity ≤ length q.slots
    pub head_in : q.head < q.capacity
    pub len_in : q.len ≤ q.capacity
    pub tail_at : q.tail ≡ (q.head + q.len) % q.capacity
    pub content : window {A = Slot A} none q.slots q.capacity q.head q.len ≡ map some xs

  abbrev pub head? : List A → Option A
  head? [] = none
  head? (x ∷ xs) = some x

  abbrev pub tail : List A → List A
  tail [] = []
  tail (x ∷ xs) = xs

  abbrev pub get_last? : List A → Option A
  get_last? [] = none
  get_last? (x ∷ xs) = elim (get_last? xs) [ none ↦ some x | some y ↦ some y ]

  length-map-some : (xs : List A) → length (map {B = Option A} some xs) ≡ length xs
  length-map-some [] = refl
  length-map-some (x ∷ xs) = ap suc (length-map-some xs)

  -- The length field counts the entries.
  pub Holds-len : {q : Queue A} {xs : List A} → Holds q xs → q.len ≡ length xs
  Holds-len {q} {xs} v =
      sym (length-window {A = Slot A} none q.slots q.capacity q.head q.len)
      ∙ ap length v.content
      ∙ length-map-some xs

  pub new-Holds : (n : ℕ) → 0 < n → Holds (new n) []
  unfolding new
  new-Holds n h = record {
    room = omega (arith, length-replicate {A = Slot A} n none);
    head_in = h;
    len_in = omega arith;
    tail_at = omega arith;
    content = refl;
  }

  pub clear-Holds : {q : Queue A} {xs : List A} → Holds q xs → Holds (clear q) []
  unfolding clear
  clear-Holds v = record {
    room = v.room;
    head_in = omega (arith, v.head_in);
    len_in = omega arith;
    tail_at = omega (arith, v.head_in);
    content = refl;
  }

  pushed-Holds :
      {q : Queue A} {xs : List A} (a : A)
      → Holds q xs
      → q.len < q.capacity
      → Holds
          (record q {
            slots = set q.slots q.tail (some a);
            tail = (q.tail + 1) % q.capacity;
            len = q.len + 1;
          })
          (xs ++ (a ∷ []))
  pushed-Holds {q} {xs} a v room = record {
    room = omega (arith, length-set q.slots q.tail (some a), v.room);
    head_in = v.head_in;
    len_in = omega arith;
    tail_at = tail_after-push q.capacity q.head q.len q.tail v.tail_at;
    content =
        ap (window {A = Slot A} none (set q.slots q.tail (some a)) q.capacity q.head)
          (add-one q.len)
        ∙ window-set {A = Slot A} none q.slots q.capacity (some a) q.len q.head q.tail v.room
            v.head_in room v.tail_at
        ∙ ap (λ w. w ++ (some a ∷ [])) v.content
        ∙ sym (map-append some xs (a ∷ []));
  }

  pub popped-Holds :
      {q : Queue A} {x : A} {xs : List A}
      → Holds q (x ∷ xs)
      → Holds (record q { head = (q.head + 1) % q.capacity; len = q.len - 1 }) xs
  popped-Holds {q} {x} {xs} v =
      let ne : q.len ≢ 0 = omega (arith, Holds-len v) in
      record {
        room = v.room;
        head_in = omega (arith, v.head_in, mod-lt (q.head + 1) {m = q.capacity});
        len_in = omega (arith, v.len_in);
        tail_at = tail_after-pop q.capacity q.head q.len q.tail ne v.tail_at;
        content =
            ap (drop 1)
              (sym (window_pop {A = Slot A} none q.slots q.capacity q.head q.len ne) ∙ v.content);
      }

  -- `push` returns true exactly when there is room, and then adds the entry at the end; with no
  -- room the queue stays as it was.
  pub push_refines :
      {q : Queue A} {xs : List A} (a : A)
      → Holds q xs
      → let (q', done) = push q a in
        (done ≡ ltb (length xs) q.capacity)
        × (q'.capacity ≡ q.capacity)
        × Holds q' (if ltb (length xs) q.capacity then xs ++ (a ∷ []) else xs)
  unfolding push
  push_refines {q} {xs} a v = elim (dec_lt q.len q.capacity) [
    | yes h ↦
        rw (← Holds-len v, not-le→leb q.capacity q.len h, lt→ltb q.len q.capacity h)
          (refl, refl, pushed-Holds a v h)
    | no h ↦
        rw
          (
            ← Holds-len v,
            le→leb q.capacity q.len (omega arith),
            not-lt→ltb q.len q.capacity (omega arith),
          )
          (refl, refl, v)
  ]

  pub read_head :
      {q : Queue A} {x : A} {xs : List A} → Holds q (x ∷ xs) → read_slot q.slots q.head ≡ ok x
  read_head {q} {x} {xs} v =
      let ne : q.len ≢ 0 = omega (arith, Holds-len v) in
      read_slot-ok q.slots q.head x (omega (arith, v.room, v.head_in)) (
        ap (λ w. get_or w 0 none)
          (sym (window_pop {A = Slot A} none q.slots q.capacity q.head q.len ne) ∙ v.content))

  not_empty : {q : Queue A} {x : A} {xs : List A} → Holds q (x ∷ xs) → (q.len == 0) ≡ false
  not_empty v = ground (arith, Holds-len v)

  -- `front` returns the oldest entry, and `none` on an empty queue; it never reads a slot that was
  -- not written.
  pub front_refines : {q : Queue A} (xs : List A) → Holds q xs → front q ≡ ok (head? xs)
  unfolding front
  front_refines {q} [] v = ground (arith, Holds-len v)
  front_refines {q} (x ∷ xs) v = rw (not_empty v, read_head v) refl

  -- `serve` takes the oldest entry off and returns it, and on an empty queue returns `none` and
  -- changes nothing; it never reads a slot that was not written.
  pub serve_refines :
      {q : Queue A} (xs : List A)
      → Holds q xs
      → (q' : Queue A) × (serve q ≡ ok (head? xs, q'))
        × (q'.capacity ≡ q.capacity)
        × Holds q' (tail xs)
  unfolding serve
  serve_refines {q} [] v = (q, ground (arith, Holds-len v), refl, v)
  serve_refines {q} (x ∷ xs) v = (
    record q { head = (q.head + 1) % q.capacity; len = q.len - 1 },
    rw (not_empty v, read_head v) refl,
    refl,
    popped-Holds v,
  )

  -- `pop` drops the oldest entry and returns true, and on an empty queue returns false.
  pub pop_refines :
      {q : Queue A} (xs : List A)
      → Holds q xs
      → let (q', done) = pop q in
        (done ≡ ltb 0 (length xs)) × (q'.capacity ≡ q.capacity) × Holds q' (tail xs)
  unfolding pop
  pop_refines {q} [] v =
      let e : (q.len == 0) ≡ true = ground (arith, Holds-len v) in rw e (refl, refl, v)
  pop_refines {q} (x ∷ xs) v = rw (not_empty v) (ground arith, refl, popped-Holds v)

  read_last :
      {q : Queue A} {x : A} (xs : List A)
      → Holds q (xs ++ (x ∷ []))
      → read_slot q.slots (if q.tail == 0 then q.capacity - 1 else q.tail - 1) ≡ ok x
  read_last {q} {x} xs v =
      let len : q.len ≡ suc (length xs) = omega (arith, Holds-len v, length-append xs (x ∷ [])) in
      let whole = ap (window {A = Slot A} none q.slots q.capacity q.head) (sym len) ∙ v.content in
      let ends =
        sym (window_snoc {A = Slot A} none q.slots q.capacity (length xs) q.head v.head_in)
        ∙ whole
        ∙ map-append some xs (x ∷ []) in
      let n : q.len - 1 ≡ length xs = omega arith in
      let front_len =
        length-window {A = Slot A} none q.slots q.capacity q.head (length xs)
        ∙ sym (length-map-some xs) in
      rw (step_back q.capacity q.head q.len q.tail v.head_in (omega arith) v.len_in v.tail_at, n)
        (read_slot-ok q.slots ((q.head + length xs) % q.capacity) x
          (omega (arith, v.room, mod-lt (q.head + length xs) {m = q.capacity}, v.head_in))
          (last-inj _ _ front_len ends))

  -- `back` returns the newest entry, whatever stands before it; it never reads a slot that was not
  -- written.
  pub back_refines :
      {q : Queue A} {x : A} (xs : List A) → Holds q (xs ++ (x ∷ [])) → back q ≡ ok (some x)
  unfolding back
  back_refines {q} {x} xs v =
      let ne : (q.len == 0) ≡ false = ground (arith, Holds-len v, length-append xs (x ∷ [])) in
      rw (ne, read_last xs v) refl

  iter_from_refines {κ} :
      {S : Type κ} (q : Queue A) (f : S → A → S) (xs : List A) (i : ℕ) (s : S)
      → i < q.capacity
      → q.capacity ≤ length q.slots
      → window {A = Slot A} none q.slots q.capacity i (length xs) ≡ map some xs
      → iter_from q (length xs) i f s ≡ ok (foldl f s xs)
  unfolding iter_from
  iter_from_refines q f [] i s hi room e = refl
  iter_from_refines q f (x ∷ xs) i s hi room e =
      rw (read_slot-ok q.slots i x (omega arith) (ap (λ w. get_or w 0 none) e)) (
        iter_from_refines q f xs ((i + 1) % q.capacity) (f s x)
          (omega (arith, mod-lt (i + 1) {m = q.capacity})) room (ap (drop 1) e))

  -- `iter` calls its function on the entries in order, oldest first, each once.
  pub iter_refines {κ} :
      {S : Type κ} {q : Queue A} (xs : List A) (f : S → A → S) (s : S)
      → Holds q xs
      → iter q f s ≡ ok (foldl f s xs)
  unfolding iter
  iter_refines {q} [] f s v = ground (arith, Holds-len v)
  iter_refines {q} (x ∷ xs) f s v =
      rw (not_empty v, Holds-len v)
        (iter_from_refines q f (x ∷ xs) q.head s v.head_in v.room (rw (Holds-len v) at v.content))
