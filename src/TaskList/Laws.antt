-- ===== src/TaskList/Laws.antt =====
-- What the calls of `TaskList` do to the contents, from the interface of the vector alone.
use mos_rust.Config.{task_max}
use mos_rust.Prelude.{
  ℕ, suc, ◌+◌, ◌≤◌, ◌<◌, ◌≡◌, refl, sym, ap, ◌∙◌, List, [], ◌∷◌, ◌++◌, Bool, false, Option, none,
  some, ◌==◌, length, accepted, rejected, inl, inr, Option-cases, erase, insert_before, count,
  Bool-cases, arith, ==_iff,
}
use mos_rust.TaskList.{
  HeaplessVec, TaskList, position, insert_pos, push_back, remove, pop_front, insert_in_order,
}

-- Where `position` finds an id, the list splits there, and `erase` takes out just that entry.
abbrev Split : List ℕ → ℕ → Option ℕ → Type 0
Split l t none = (erase l t ≡ l) × (count t l ≡ 0)
Split l t (some i) =
    (a : List ℕ) × (b : List ℕ) × (i ≡ length a) × (l ≡ a ++ t ∷ b) × (erase l t ≡ a ++ b)

Split-cons :
    (x t : ℕ) (l : List ℕ) (o : Option ℕ)
    → (x == t) ≡ false
    → Split l t o
    → Split (x ∷ l) t (elim o [ none ↦ none | some i ↦ some (suc i) ])
Split-cons x t l none ne (same, absent) = (ground arith, ground arith)
Split-cons x t l (some i) ne (a, b, e, split, out) =
    (x ∷ a, b, ground arith, ap (◌∷◌ x) split, rw ne (ap (◌∷◌ x) out))

position-Split : (l : List ℕ) (t : ℕ) → Split l t (position l t)
unfolding position
position-Split [] t = (refl, refl)
position-Split (x ∷ l) t = elim (Bool-cases (x == t)) [
  | inl e ↦ rw e ([], l, refl, ap (λ y. y ∷ l) ((==_iff x t).0 e), rw e)
  | inr e ↦ rw e (Split-cons x t l (position l t) e (position-Split l t))
]

-- Where the loop stops, the list splits, and `insert_before` puts the new entry there.
insert_pos-splits :
    (p : ℕ → Bool) (t : ℕ) (l : List ℕ) (i end : ℕ)
    → end ≡ i + length l
    → (a : List ℕ) × (b : List ℕ) × (insert_pos p l i end ≡ i + length a)
      × (l ≡ a ++ b)
      × (insert_before p t l ≡ a ++ t ∷ b)
unfolding insert_pos
insert_pos-splits p t [] i end h = ([], [], h, refl, refl)
insert_pos-splits p t (x ∷ l) i end h = elim (Bool-cases (p x)) [
  | inl e ↦ rw e ([], x ∷ l, omega arith, refl, refl)
  | inr e ↦
      let (a, b, at, split, out) = insert_pos-splits p t l (suc i) end (omega arith) in
      rw e (x ∷ a, b, omega arith, ap (◌∷◌ x) split, ap (◌∷◌ x) out)
]

module _ ⦃vec : HeaplessVec⦄ where
  -- `remove` takes out the first occurrence, and changes nothing if there is none.
  pub remove_lem : (l : TaskList) (t : ℕ) → remove l t ≡ erase l t
  unfolding remove
  remove_lem l t = elim (Option-cases (position l t)) [
    | inl e ↦ rw (e, remove) (sym (rw e at (position-Split l t)).0)
    | inr (i, e) ↦
        let (a, b, at, split, out) = rw e at (position-Split l t) in
        let taken : vec.remove l i ≡ (t, a ++ b) = rw (at, split) (vec.remove_at a b t) in
        rw (e, remove, taken) (sym out)
  ]

  pub pop_front-nil : pop_front [] ≡ (none, [])
  unfolding pop_front
  pop_front-nil = refl

  pub pop_front-cons : (x : ℕ) (l : List ℕ) → pop_front (x ∷ l) ≡ (some x, l)
  unfolding pop_front
  pop_front-cons x l = rw (vec.remove_at [] l x)

  pub insert_in_order_full :
      (l : TaskList) (t : ℕ) (p : ℕ → Bool)
      → task_max ≤ length l
      → insert_in_order l t p ≡ (l, rejected t)
  unfolding insert_in_order
  insert_in_order_full l t p h = ground (arith, vec.is_full_lem l)

  -- With room in the list, `insert_in_order` puts the id before the first entry that passes the
  -- test, or at the end if none does, and reports success.
  pub insert_in_order_lem :
      (l : TaskList) (t : ℕ) (p : ℕ → Bool)
      → length l < task_max
      → insert_in_order l t p ≡ (insert_before p t l, accepted tt)
  unfolding insert_in_order
  insert_in_order_lem l t p h =
      let (a, b, at, split, out) = insert_pos-splits p t l 0 (length l) (omega arith) in
      let room : length (a ++ b) < task_max = omega (arith, ap length split) in
      let index : insert_pos p l 0 (length l) ≡ length a = omega arith in
      let done : vec.insert l (length a) t ≡ accepted (a ++ t ∷ b) =
        ap (λ m. vec.insert m (length a) t) split ∙ vec.insert_room a b t room in
      rw (index, out, done) (ground (arith, vec.is_full_lem l))

  pub push_back_lem :
      (l : TaskList) (t : ℕ) → length l < task_max → push_back l t ≡ (l ++ t ∷ [], accepted tt)
  unfolding push_back
  push_back_lem l t h = rw (vec.push_room l t h)
