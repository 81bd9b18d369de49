-- ===== src/TaskList.antt =====
-- The bounded list of task ids, core/src/kernel/list.rs. Its one field is a vector of the package
-- `heapless`, which is given by its contents; what the package does is the interface below.
pub mod Laws
use mos_rust.Config.{task_max}
use mos_rust.Prelude.{
  ℕ, suc, ◌≤◌, ◌<◌, ◌≡◌, List, [], ◌∷◌, ◌++◌, Bool, true, false, Option, none, some, leb, ◌==◌,
  if◌then◌else◌, length, Result, accepted, rejected,
}

-- `heapless::Vec<usize, TASK_MAX>`, as its documentation describes it. `push` and `insert` give an
-- item back when the vector is full. `remove` and `insert` panic at an index past the end: there
-- the functions are left open, and `TaskList` calls them in range only.
pub record HeaplessVec : Type 0 where
  pub push : List ℕ → ℕ → Result (List ℕ) ℕ
  pub insert : List ℕ → ℕ → ℕ → Result (List ℕ) ℕ
  pub remove : List ℕ → ℕ → ℕ × List ℕ
  pub is_full : List ℕ → Bool
  pub is_full_lem : (l : List ℕ) → is_full l ≡ leb task_max (length l)
  pub push_room : (l : List ℕ) (x : ℕ) → length l < task_max → push l x ≡ accepted (l ++ x ∷ [])
  pub push_full : (l : List ℕ) (x : ℕ) → task_max ≤ length l → push l x ≡ rejected x
  pub insert_room :
      (l r : List ℕ) (x : ℕ)
      → length (l ++ r) < task_max
      → insert (l ++ r) (length l) x ≡ accepted (l ++ x ∷ r)
  pub remove_at : (l r : List ℕ) (x : ℕ) → remove (l ++ x ∷ r) (length l) ≡ (x, l ++ r)

abbrev pub TaskList : Type 0
TaskList = List ℕ

-- What a `&mut self` call leaves of the list, and what it returns.
abbrev settle : List ℕ → Result (List ℕ) ℕ → TaskList × Result (Unit {0}) ℕ
settle l (accepted l') = (l', accepted tt)
settle l (rejected x) = (l, rejected x)

-- `iter().position(|&x| x == tid)`
position : List ℕ → ℕ → Option ℕ
position [] t = none
position (x ∷ xs) t =
    if x == t then some 0 else elim (position xs t) [ none ↦ none | some i ↦ some (suc i) ]

-- The `for` of `insert_in_order`, from index `i` on: the first entry that passes, or else `end`.
insert_pos : (ℕ → Bool) → List ℕ → ℕ → ℕ → ℕ
insert_pos is_before [] i end = end
insert_pos is_before (x ∷ xs) i end = if is_before x then i else insert_pos is_before xs (suc i) end

unfoldable pub new : TaskList
new = []

unfoldable pub front : TaskList → Option ℕ
front [] = none
front (x ∷ xs) = some x

unfoldable pub is_empty : TaskList → Bool
is_empty [] = true
is_empty (x ∷ xs) = false

module _ ⦃vec : HeaplessVec⦄ where
  unfoldable pub push_back : TaskList → ℕ → TaskList × Result (Unit {0}) ℕ
  push_back l tid = settle l (vec.push l tid)

  unfoldable pub remove : TaskList → ℕ → TaskList
  unfolding position
  remove l tid = elim (position l tid) [ none ↦ l | some pos ↦ (vec.remove l pos).1 ]

  unfoldable pub pop_front : TaskList → Option ℕ × TaskList
  unfolding is_empty
  pop_front l = if is_empty l then (none, l) else (let (x, rest) = vec.remove l 0 in (some x, rest))

  unfoldable pub insert_in_order : TaskList → ℕ → (ℕ → Bool) → TaskList × Result (Unit {0}) ℕ
  unfolding insert_pos
  insert_in_order l tid is_before =
      if vec.is_full l
      then (l, rejected tid)
      else ((settle l (vec.insert l (insert_pos is_before l 0 (length l)) tid)).0, accepted tt)
