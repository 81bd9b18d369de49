-- ===== src/Async/Heap/Slots.antt =====
-- Arrays of which the first entries are written, and the exchange of two entries.
use mathlib.Core.List.{Perm, Permᴰ}
use mathlib.Core.Logic.{∥∥₁_elim}
use native.Mathlib.Nat.{ℕ_set}
use mathlib.Core.List.Perm as P
use mos_rust.Prelude.{
  ℕ, zero, suc, ◌+◌, ◌<◌, ◌≡◌, refl, ap, ◌∙◌, List, [], ◌∷◌, ◌++◌, some, ◌==◌, if◌then◌else◌,
  length, get_or, set, length-set, get_or-set, ok, arith,
}
use mos_rust.Queue.{Slot, read_slot}

module _ {ℓ} {A : Type ℓ} where
  -- `a` is written at the front, and `rest` is behind it.
  abbrev pub filled : List A → List (Slot A) → List (Slot A)
  filled [] rest = rest
  filled (x ∷ a) rest = some x ∷ filled a rest

  pub read_slot-filled :
      (a : List A) (rest : List (Slot A)) (i : ℕ) (d : A)
      → i < length a
      → read_slot (filled a rest) i ≡ ok (get_or a i d)
  unfolding read_slot
  read_slot-filled [] rest i d h = absurd (omega arith)
  read_slot-filled (x ∷ a) rest zero d h = refl
  read_slot-filled (x ∷ a) rest (suc i) d h = read_slot-filled a rest i d (omega arith)

  pub set-filled :
      (a : List A) (rest : List (Slot A)) (i : ℕ) (v : A)
      → i < length a
      → set (filled a rest) i (some v) ≡ filled (set a i v) rest
  set-filled [] rest i v h = absurd (omega arith)
  set-filled (x ∷ a) rest zero v h = refl
  set-filled (x ∷ a) rest (suc i) v h = ap (◌∷◌ (some x)) (set-filled a rest i v (omega arith))

  -- A write just behind the front makes it longer.
  pub set-filled_end :
      (a : List A) (old : Slot A) (rest : List (Slot A)) (v : A)
      → set (filled a (old ∷ rest)) (length a) (some v) ≡ filled (a ++ v ∷ []) rest
  set-filled_end [] old rest v = refl
  set-filled_end (x ∷ a) old rest v = ap (◌∷◌ (some x)) (set-filled_end a old rest v)

  pub filled-append :
      (a : List A) (v : A) (rest : List (Slot A))
      → filled (a ++ v ∷ []) rest ≡ filled a (some v ∷ rest)
  filled-append [] v rest = refl
  filled-append (x ∷ a) v rest = ap (◌∷◌ (some x)) (filled-append a v rest)

  pub length-filled :
      (a : List A) (rest : List (Slot A)) → length (filled a rest) ≡ length a + length rest
  length-filled [] rest = omega arith
  length-filled (x ∷ a) rest = omega (arith, length-filled a rest)

  pub get_or-append :
      (a : List A) (v : A) (i : ℕ) (d : A)
      → get_or (a ++ v ∷ []) i d ≡ (if i == length a then v else get_or a i d)
  get_or-append [] v zero d = refl
  get_or-append [] v (suc i) d = ground arith
  get_or-append (x ∷ a) v zero d = ground arith
  get_or-append (x ∷ a) v (suc i) d = ground (arith, get_or-append a v i d)

  -- Rearranged lists are of one length.
  Permᴰ-size : {xs ys : List A} → Permᴰ xs ys → length xs ≡ length ys
  Permᴰ-size (Permᴰ.trans early late) = Permᴰ-size early ∙ Permᴰ-size late
  Permᴰ-size (Permᴰ.cons x tails) = omega (arith, Permᴰ-size tails)
  Permᴰ-size (Permᴰ.swap x y) = refl
  Permᴰ-size Permᴰ.nil = refl

  pub length-perm : {xs ys : List A} → Perm xs ys → length xs ≡ length ys
  length-perm same = ∥∥₁_elim same (ℕ_set _ _) Permᴰ-size

  -- An entry at the end may as well stand in front.
  pub end-perm : (xs : List A) (y : A) → Perm (xs ++ y ∷ []) (y ∷ xs)
  end-perm [] y = P.rfl
  end-perm (x ∷ xs) y = P.trans (P.cons x (end-perm xs y)) (P.swap y x xs)

  -- What a write puts out goes where the written entry was.
  pub set-perm :
      (xs : List A) (i : ℕ) (new d : A)
      → i < length xs
      → Perm (get_or xs i d ∷ set xs i new) (new ∷ xs)
  set-perm (x ∷ xs) (suc i) new d h =
      let inner = set-perm xs i new d (omega arith) in
      P.trans (P.trans (P.swap x (get_or xs i d) (set xs i new)) (P.cons x inner)) (P.swap new x xs)
  set-perm (x ∷ xs) zero new d h = P.swap new x xs
  set-perm [] i new d h = absurd (omega arith)

  -- `d` is read out of range, so never.
  pub exchange : List A → ℕ → ℕ → A → List A
  exchange xs i j d = let held = get_or xs i d in set (set xs i (get_or xs j d)) j held

  pub length-exchange : (xs : List A) (i j : ℕ) (d : A) → length (exchange xs i j d) ≡ length xs
  unfolding exchange
  length-exchange xs i j d =
      length-set (set xs i (get_or xs j d)) j (get_or xs i d) ∙ length-set xs i (get_or xs j d)

  module _ (xs : List A) (i j : ℕ) (d : A) (left : i < length xs) (right : j < length xs) where
    still_right : j < length (set xs i (get_or xs j d))
    still_right = omega (arith, length-set xs i (get_or xs j d))

    pub exchange-filled :
        (rest : List (Slot A))
        → set (set (filled xs rest) i (some (get_or xs j d))) j (some (get_or xs i d))
          ≡ filled (exchange xs i j d) rest
    unfolding exchange
    exchange-filled rest = rw (
      set-filled xs rest i (get_or xs j d) left,
      set-filled (set xs i (get_or xs j d)) rest j (get_or xs i d) still_right,
    )

    pub get_or-exchange :
        (k : ℕ)
        → get_or (exchange xs i j d) k d
          ≡ (if j == k then get_or xs i d else if i == k then get_or xs j d else get_or xs k d)
    unfolding exchange
    get_or-exchange k =
        get_or-set (set xs i (get_or xs j d)) j k (get_or xs i d) d still_right
        ∙ ap (λ below. if j == k then get_or xs i d else below)
            (get_or-set xs i k (get_or xs j d) d left)

    pub exchange-perm : Perm (exchange xs i j d) xs
    unfolding exchange
    exchange-perm =
        let half = set xs i (get_or xs j d) in
        let unmoved : get_or half j d ≡ get_or xs j d =
          get_or-set xs i j (get_or xs j d) d left ∙ ground arith in
        let whole = set-perm half j (get_or xs i d) d still_right in
        P.cons_inv (P.trans (rw unmoved at whole) (set-perm xs i (get_or xs j d) d left))
