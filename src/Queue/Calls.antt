-- ===== src/Queue/Calls.antt =====
-- Any sequence of calls of a ring queue against the same calls of a bounded list.
use mos_rust.Prelude.{
  ℕ, ◌≡◌, refl, sym, subst, ap, ◌∙◌, List, [], ◌∷◌, ◌++◌, Bool, Option, none, some, ltb, ◌==◌,
  if◌then◌else◌, length, arith, Run, ok, ◌>>=◌,
}
use mathlib.Core.List.{foldl, append-nil, append_assoc}
use mos_rust.Queue.{Queue, clear, front, back, push, pop, serve, iter, empty, full}
use mos_rust.Queue.Refine.{
  Holds, get_last?, head?, tail, Holds-len, clear-Holds, push_refines, front_refines, serve_refines,
  pop_refines, back_refines, iter_refines,
}

pub data Call {ℓ} (A : Type ℓ) : Type ℓ where
  pushes : A → Call A
  pops serves fronts backs clears iters fulls empties : Call A

pub data Answer {ℓ} (A : Type ℓ) : Type ℓ where
  flag : Bool → Answer A
  entry : Option A → Answer A
  entries : List A → Answer A
  nothing : Answer A

module _ {ℓ} {A : Type ℓ} where
  abbrev pub snoc : List A → A → List A
  snoc xs a = xs ++ (a ∷ [])

  -- A call of the ring; `iter` collects what its function is called on.
  pub perform : Queue A → Call A → Run (Answer A × Queue A)
  perform q (pushes a) = ok (flag (push q a).1, (push q a).0)
  perform q pops = ok (flag (pop q).1, (pop q).0)
  perform q serves = serve q >>= λ r. ok (entry r.0, r.1)
  perform q fronts = front q >>= λ o. ok (entry o, q)
  perform q backs = back q >>= λ o. ok (entry o, q)
  perform q clears = ok (nothing, clear q)
  perform q iters = iter q snoc [] >>= λ xs. ok (entries xs, q)
  perform q fulls = ok (flag (full q), q)
  perform q empties = ok (flag (empty q), q)

  pub perform_all : Queue A → List (Call A) → Run (List (Answer A) × Queue A)
  unfolding perform
  perform_all q [] = ok ([], q)
  perform_all q (c ∷ cs) = do
    (a, q1) ← perform q c
    (rest, q2) ← perform_all q1 cs
    ok (a ∷ rest, q2)

  -- The same call of a list of at most `n` entries, oldest first.
  unfoldable pub listed : ℕ → List A → Call A → Answer A × List A
  listed n xs (pushes a) =
      (flag (ltb (length xs) n), if ltb (length xs) n then xs ++ (a ∷ []) else xs)
  listed n xs pops = (flag (ltb 0 (length xs)), tail xs)
  listed n xs serves = (entry (head? xs), tail xs)
  listed n xs fronts = (entry (head? xs), xs)
  listed n xs backs = (entry (get_last? xs), xs)
  listed n xs clears = (nothing, [])
  listed n xs iters = (entries xs, xs)
  listed n xs fulls = (flag (length xs == n), xs)
  listed n xs empties = (flag (length xs == 0), xs)

  unfoldable pub listed_all : ℕ → List A → List (Call A) → List (Answer A)
  unfolding listed
  listed_all n xs [] = []
  listed_all n xs (c ∷ cs) = (listed n xs c).0 ∷ listed_all n (listed n xs c).1 cs

  record Refines (n : ℕ) (xs : List A) (c : Call A) (r : Run (Answer A × Queue A)) : Type ℓ where
    after : Queue A
    returned : r ≡ ok ((listed n xs c).0, after)
    capacity : after.capacity ≡ n
    holds : Holds after (listed n xs c).1

  split_last :
      (x : A) (xs : List A)
      → (ys : List A) × (y : A) × ((x ∷ xs) ≡ ys ++ (y ∷ [])) × (get_last? (x ∷ xs) ≡ some y)
  split_last x [] = ([], x, refl, refl)
  split_last x (z ∷ xs) =
      let (ys, y, e, l) = split_last z xs in (x ∷ ys, y, ap (◌∷◌ x) e, ground (arith, l))

  back-none : {q : Queue A} → Holds q [] → back q ≡ ok none
  unfolding back
  back-none v = ground (arith, Holds-len v)

  clear_capacity : (q : Queue A) → (clear q).capacity ≡ q.capacity
  unfolding clear
  clear_capacity q = refl

  full_flag : {q : Queue A} {xs : List A} → Holds q xs → full q ≡ (length xs == q.capacity)
  unfolding full
  full_flag v = ground (arith, Holds-len v, v.len_in)

  empty_flag : {q : Queue A} {xs : List A} → Holds q xs → empty q ≡ (length xs == 0)
  unfolding empty
  empty_flag v = ap (λ n. n == 0) (Holds-len v)

  back_last : {q : Queue A} (xs : List A) → Holds q xs → back q ≡ ok (get_last? xs)
  back_last {q} [] v = back-none v
  back_last {q} (x ∷ xs) v =
      let (ys, y, e, l) = split_last x xs in back_refines ys (subst (Holds q) e v) ∙ ap ok (sym l)

  foldl-snoc : (xs acc : List A) → foldl snoc acc xs ≡ acc ++ xs
  foldl-snoc [] acc = sym (append-nil acc)
  foldl-snoc (x ∷ xs) acc = foldl-snoc xs (acc ++ (x ∷ [])) ∙ append_assoc acc (x ∷ []) xs

  perform-Refines :
      {q : Queue A} {xs : List A} (c : Call A) → Holds q xs → Refines q.capacity xs c (perform q c)
  unfolding perform listed
  perform-Refines {q} {xs} (pushes a) v =
      let (done, cap, h) = push_refines a v in
      record {
        after = (push q a).0;
        returned = ap (λ b. ok (flag b, (push q a).0)) done;
        capacity = cap;
        holds = h;
      }
  perform-Refines {q} {xs} pops v =
      let (done, cap, h) = pop_refines xs v in
      record {
        after = (pop q).0;
        returned = ap (λ b. ok (flag b, (pop q).0)) done;
        capacity = cap;
        holds = h;
      }
  perform-Refines {q} {xs} serves v =
      let (q', e, cap, h) = serve_refines xs v in
      record {
        after = q';
        returned = ap (λ r. r >>= λ p. ok (entry p.0, p.1)) e;
        capacity = cap;
        holds = h;
      }
  perform-Refines {q} {xs} fronts v = record {
    after = q;
    returned = ap (λ r. r >>= λ o. ok (entry o, q)) (front_refines xs v);
    capacity = refl;
    holds = v;
  }
  perform-Refines {q} {xs} backs v = record {
    after = q;
    returned = ap (λ r. r >>= λ o. ok (entry o, q)) (back_last xs v);
    capacity = refl;
    holds = v;
  }
  perform-Refines {q} {xs} clears v = record {
    after = clear q;
    returned = refl;
    capacity = clear_capacity q;
    holds = clear-Holds v;
  }
  perform-Refines {q} {xs} iters v = record {
    after = q;
    returned =
        ap (λ r. r >>= λ o. ok (entries o, q))
          (iter_refines xs snoc [] v ∙ ap ok (foldl-snoc xs []));
    capacity = refl;
    holds = v;
  }
  perform-Refines {q} {xs} fulls v = record {
    after = q;
    returned = ap (λ b. ok (flag b, q)) (full_flag v);
    capacity = refl;
    holds = v;
  }
  perform-Refines {q} {xs} empties v = record {
    after = q;
    returned = ap (λ b. ok (flag b, q)) (empty_flag v);
    capacity = refl;
    holds = v;
  }

  -- A ring queue that holds a list answers every sequence of calls as the list does that is bounded
  -- by its capacity: `push` refuses when it is full, `pop` and `serve` take the oldest entry, `front`
  -- and `back` show the oldest and the newest, `iter` goes through all in order, `clear` empties it.
  -- No call reads a slot that was not written or is out of range.
  pub perform_all-listed_all :
      (cs : List (Call A)) {q : Queue A} {xs : List A}
      → Holds q xs
      → (q' : Queue A) × (perform_all q cs ≡ ok (listed_all q.capacity xs cs, q'))
  unfolding perform_all listed_all
  perform_all-listed_all [] {q} {xs} v = (q, refl)
  perform_all-listed_all (c ∷ cs) {q} {xs} v =
      let r = perform-Refines c v in
      let (q', e) = perform_all-listed_all cs r.holds in
      (
        q',
        rw (r.returned, e)
            (ap
              (λ n.
                ok ((listed q.capacity xs c).0 ∷ listed_all n (listed q.capacity xs c).1 cs, q'))
              r.capacity),
      )
