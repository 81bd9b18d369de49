-- ===== src/Tests/Vector.antt =====
-- A vector that meets the interface of `TaskList`: it shows that the interface can be met.
use mos_rust.Config.{task_max}
use mos_rust.Prelude.{
  ℕ, zero, suc, ◌≡◌, refl, ap, List, [], ◌∷◌, ◌++◌, leb, length, accepted, rejected, arith,
  if◌then◌else◌,
}
use mos_rust.TaskList.{HeaplessVec}

unfoldable pub insert_at : List ℕ → ℕ → ℕ → List ℕ
insert_at l zero x = x ∷ l
insert_at [] (suc i) x = x ∷ []
insert_at (y ∷ l) (suc i) x = y ∷ insert_at l i x

pub insert_at_lem : (l r : List ℕ) (x : ℕ) → insert_at (l ++ r) (length l) x ≡ l ++ x ∷ r
unfolding insert_at
insert_at_lem [] r x = refl
insert_at_lem (y ∷ l) r x = ap (◌∷◌ y) (insert_at_lem l r x)

unfoldable pub take_at : List ℕ → ℕ → ℕ × List ℕ
take_at [] i = (0, [])
take_at (x ∷ l) zero = (x, l)
take_at (x ∷ l) (suc i) = let (y, rest) = take_at l i in (y, x ∷ rest)

pub take_at_lem : (l r : List ℕ) (x : ℕ) → take_at (l ++ x ∷ r) (length l) ≡ (x, l ++ r)
unfolding take_at
take_at_lem [] r x = refl
take_at_lem (y ∷ l) r x = ap (λ p. (p.0, y ∷ p.1)) (take_at_lem l r x)

instance unfoldable pub reference_vec : HeaplessVec
unfolding insert_at take_at
reference_vec = record {
  push = λ l x. if leb task_max (length l) then rejected x else accepted (l ++ x ∷ []);
  insert = λ l i x. if leb task_max (length l) then rejected x else accepted (insert_at l i x);
  remove = take_at;
  is_full = λ l. leb task_max (length l);
  is_full_lem = λ l. refl;
  push_room = λ l x h. ground arith;
  push_full = λ l x h. ground arith;
  insert_room = λ l r x h. ground (arith, insert_at_lem l r x);
  remove_at = take_at_lem;
}
