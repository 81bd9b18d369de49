-- ===== src/Prelude/Counts.antt =====
-- Lists of task ids: how often an id occurs, removal of its first occurrence, insertion before the
-- first entry that passes a test, and order by a key.
use Prim.Native.Nat.{ℕ, zero, suc, ◌+◌, ◌-◌, ◌≤◌, ◌<◌}
use mathlib.Core.Path.{◌≡◌, refl, subst}
use mathlib.Core.Logic.{inl, inr}
use mathlib.Core.List.{List, [], ◌∷◌, ◌++◌}
use mathlib.Core.Bool.{Bool, true, false}
use native.Mathlib.Omega.{arith}
use mos_rust.Prelude.Tests.{ltb, ◌==◌, if◌then◌else◌, Bool-cases, ==_iff}
use mos_rust.Prelude.Lists.{length}

abbrev pub count : ℕ → List ℕ → ℕ
count t [] = 0
count t (x ∷ xs) = (if x == t then 1 else 0) + count t xs

abbrev pub erase : List ℕ → ℕ → List ℕ
erase [] t = []
erase (x ∷ xs) t = if x == t then xs else x ∷ erase xs t

abbrev pub insert_before : (ℕ → Bool) → ℕ → List ℕ → List ℕ
insert_before p t [] = t ∷ []
insert_before p t (x ∷ xs) = if p x then t ∷ x ∷ xs else x ∷ insert_before p t xs

abbrev pub any : (ℕ → Bool) → List ℕ → Bool
any p [] = false
any p (x ∷ xs) = if p x then true else any p xs

abbrev pub All {ℓ} : (ℕ → Type ℓ) → List ℕ → Type ℓ
All P [] = Unit
All P (x ∷ xs) = P x × All P xs

-- The keys do not fall along the list.
abbrev pub IsSortedBy : (ℕ → ℕ) → List ℕ → Type 0
IsSortedBy f [] = Unit
IsSortedBy f (x ∷ xs) = All (λ y. f x ≤ f y) xs × IsSortedBy f xs

pub count-append : (t : ℕ) (xs ys : List ℕ) → count t (xs ++ ys) ≡ count t xs + count t ys
count-append t [] ys = omega arith
count-append t (x ∷ xs) ys = omega (arith, count-append t xs ys)

pub count-erase :
    (u t : ℕ) (xs : List ℕ) → count u (erase xs t) ≡ count u xs - (if t == u then 1 else 0)
count-erase u t [] = ground arith
count-erase u t (x ∷ xs) = ground (arith, count-erase u t xs)

pub count-insert_before :
    (u t : ℕ) (p : ℕ → Bool) (xs : List ℕ)
    → count u (insert_before p t xs) ≡ count u xs + (if t == u then 1 else 0)
count-insert_before u t p [] = ground arith
count-insert_before u t p (x ∷ xs) = ground (arith, count-insert_before u t p xs)

pub length-insert_before :
    (t : ℕ) (p : ℕ → Bool) (xs : List ℕ) → length (insert_before p t xs) ≡ suc (length xs)
length-insert_before t p [] = refl
length-insert_before t p (x ∷ xs) = ground (arith, length-insert_before t p xs)

pub length-erase :
    (t : ℕ) (xs : List ℕ) → length (erase xs t) + (if ltb 0 (count t xs) then 1 else 0) ≡ length xs
length-erase t [] = refl
length-erase t (x ∷ xs) = ground (arith, length-erase t xs)

-- Removing an id that does not occur changes nothing.
pub erase_absent : (t : ℕ) (xs : List ℕ) → count t xs ≡ 0 → erase xs t ≡ xs
erase_absent t [] h = refl
erase_absent t (x ∷ xs) h = ground (arith, erase_absent t xs)

pub any-count : (t : ℕ) (xs : List ℕ) → any (λ x. x == t) xs ≡ ltb 0 (count t xs)
any-count t [] = refl
any-count t (x ∷ xs) = ground (arith, any-count t xs)

pub All-erase {ℓ} : (P : ℕ → Type ℓ) (t : ℕ) (xs : List ℕ) → All P xs → All P (erase xs t)
All-erase P t [] h = h
All-erase P t (x ∷ xs) h = ground (arith, All-erase P t xs h.1)

pub All-insert_before {ℓ} :
    (P : ℕ → Type ℓ) (p : ℕ → Bool) (t : ℕ) (xs : List ℕ)
    → P t
    → All P xs
    → All P (insert_before p t xs)
All-insert_before P p t [] ht h = (ht, h)
All-insert_before P p t (x ∷ xs) ht h = ground (arith, All-insert_before P p t xs ht h.1)

pub All-count {ℓ} : (P : ℕ → Type ℓ) (t : ℕ) (xs : List ℕ) → All P xs → 0 < count t xs → P t
All-count P t [] h c = absurd (omega arith)
All-count P t (x ∷ xs) h c = elim (Bool-cases (x == t)) [
  | inl e ↦ subst P ((==_iff x t).0 e) h.0
  | inr e ↦ All-count P t xs h.1 (ground arith)
]

-- The number of entries below `n`, counted id by id.
abbrev pub total : ℕ → List ℕ → ℕ
total zero xs = 0
total (suc n) xs = total n xs + count n xs

total-nil : (n : ℕ) → total n [] ≡ 0
total-nil zero = refl
total-nil (suc n) = omega (arith, total-nil n)

total-cons : (n x : ℕ) (xs : List ℕ) → total n (x ∷ xs) ≡ total n xs + (if ltb x n then 1 else 0)
total-cons zero x xs = ground arith
total-cons (suc n) x xs = ground (arith, total-cons n x xs)

-- If no entry is `n` or more, the length is that total.
pub length-total :
    (n : ℕ) (xs : List ℕ) → ((t : ℕ) → n ≤ t → count t xs ≡ 0) → length xs ≡ total n xs
length-total n [] h = omega (arith, total-nil n)
length-total n (x ∷ xs) h =
    ground (arith, h x, total-cons n x xs, length-total n xs (λ t le. ground (arith, h t le)))

pub total-le :
    (n t : ℕ) (xs : List ℕ)
    → ((u : ℕ) → count u xs ≤ 1)
    → total n xs + (if ltb t n then 1 - count t xs else 0) ≤ n
total-le zero t xs h = ground arith
total-le (suc n) t xs h = ground (arith, h n, h t, total-le n t xs h)

-- Distinct ids below `n`, one of which is missing, are fewer than `n`.
pub length-lt_of_missing :
    (n t : ℕ) (xs : List ℕ)
    → ((u : ℕ) → count u xs ≤ 1)
    → ((u : ℕ) → n ≤ u → count u xs ≡ 0)
    → t < n
    → count t xs ≡ 0
    → length xs < n
length-lt_of_missing n t xs once low lt absent =
    ground (arith, length-total n xs low, total-le n t xs once)

pub All-weaken :
    (f : ℕ → ℕ) (a b : ℕ) (xs : List ℕ) → a ≤ b → All (λ y. b ≤ f y) xs → All (λ y. a ≤ f y) xs
All-weaken f a b [] h s = tt
All-weaken f a b (x ∷ xs) h s = (omega arith, All-weaken f a b xs h s.1)

-- Keys that agree on the entries sort alike.
All-agree :
    (f g : ℕ → ℕ) (a : ℕ) (xs : List ℕ)
    → ((u : ℕ) → 0 < count u xs → f u ≡ g u)
    → All (λ y. a ≤ f y) xs
    → All (λ y. a ≤ g y) xs
All-agree f g a [] e h = tt
All-agree f g a (x ∷ xs) e h =
    (ground (arith, e x), All-agree f g a xs (λ u c. e u (ground arith)) h.1)

pub IsSortedBy-agree :
    (f g : ℕ → ℕ) (xs : List ℕ)
    → ((u : ℕ) → 0 < count u xs → f u ≡ g u)
    → IsSortedBy f xs
    → IsSortedBy g xs
IsSortedBy-agree f g [] e s = tt
IsSortedBy-agree f g (x ∷ xs) e s =
    let at : f x ≡ g x = e x (ground arith) in
    (
      rw (← at) (All-agree f g (f x) xs (λ u c. e u (ground arith)) s.0),
      IsSortedBy-agree f g xs (λ u c. e u (ground arith)) s.1,
    )

pub erase-IsSortedBy :
    (f : ℕ → ℕ) (t : ℕ) (xs : List ℕ) → IsSortedBy f xs → IsSortedBy f (erase xs t)
erase-IsSortedBy f t [] s = tt
erase-IsSortedBy f t (x ∷ xs) s =
    ground (arith, All-erase (λ y. f x ≤ f y) t xs s.0, erase-IsSortedBy f t xs s.1)

-- Before the first greater key: the list stays sorted.
pub insert_before-IsSortedBy :
    (f : ℕ → ℕ) (t : ℕ) (xs : List ℕ)
    → IsSortedBy f xs
    → IsSortedBy f (insert_before (λ x. ltb (f t) (f x)) t xs)
insert_before-IsSortedBy f t [] s = (tt, tt)
insert_before-IsSortedBy f t (x ∷ xs) s = ground (
  arith,
  All-weaken f (f t) (f x) xs,
  All-insert_before (λ y. f x ≤ f y) (λ y. ltb (f t) (f y)) t xs,
  insert_before-IsSortedBy f t xs s.1,
)

-- Behind the entries that fail the test, before those that pass it.
pub insert_before-append :
    (p : ℕ → Bool) (t : ℕ) (xs ys : List ℕ)
    → ((u : ℕ) → 0 < count u xs → p u ≡ false)
    → ((u : ℕ) → 0 < count u ys → p u ≡ true)
    → insert_before p t (xs ++ ys) ≡ xs ++ (t ∷ ys)
insert_before-append p t [] [] hx hy = refl
insert_before-append p t [] (y ∷ ys) hx hy = ground (arith, hy y)
insert_before-append p t (x ∷ xs) ys hx hy =
    ground (arith, hx x, insert_before-append p t xs ys (λ u h. hx u (ground arith)) hy)
