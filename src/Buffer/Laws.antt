-- ===== src/Buffer/Laws.antt =====
-- The buffer against the list of what it holds, in the order of arrival.
use mos_rust.Prelude.{
  ◌+◌, ◌-◌, ◌≤◌, ◌<◌, ◌≡◌, refl, subst, sym, ap, ◌∙◌, [], ◌∷◌, ◌++◌, false, some, ltb, ◌==◌,
  if◌then◌else◌, length, set, take, get_elem?, get_or, get_elem?-eq-get_or, get_or-set,
  take-set_above, take-append_last, length-set, arith, ok, le→leb, not-le→leb, lt→ltb, not-lt→ltb,
  ap₂,
}
use native.Mathlib.Numerals.{add-one}
use native.Mathlib.Decide.{dec_lt}
use mos_rust.Buffer.{Buffer, push, pop, back, as_slice}

pub record IsValid {ℓ} {A : Type ℓ} (b : Buffer A) : Type ℓ where
  pub sized : length b.raw ≡ b.capacity
  pub in_range : b.len ≤ b.capacity

module _ {ℓ} {A : Type ℓ} where
  -- In a valid buffer `push` adds the entry at the end of the slice where there is room, and then
  -- `back` returns it; with no room the buffer stays as it was. The buffer stays valid.
  pub push-as_slice :
      (b : Buffer A) (a : A)
      → IsValid b
      → IsValid (push b a)
        × (as_slice (push b a)
            ≡ (if ltb b.len b.capacity then as_slice b ++ (a ∷ []) else as_slice b))
        × (back (push b a) ≡ (if ltb b.len b.capacity then ok (some a) else back b))
  unfolding push as_slice back
  push-as_slice b a v = elim (dec_lt b.len b.capacity) [
    | yes room ↦
        let size = length-set {A = A} b.raw b.len a in
        let written : get_or (set b.raw b.len a) b.len a ≡ a =
          get_or-set b.raw b.len b.len a a (omega (arith, v.sized)) ∙ ground arith in
        let read : get_elem? (set b.raw b.len a) b.len ≡ some a =
          get_elem?-eq-get_or {A = A} (set b.raw b.len a) b.len a (omega (arith, size, v.sized))
          ∙ ap some written in
        let slice : take (b.len + 1) (set b.raw b.len a) ≡ take b.len b.raw ++ (a ∷ []) =
          ap (λ n. take n (set b.raw b.len a)) (add-one b.len)
          ∙ take-append_last b.len (set b.raw b.len a) a (omega (arith, size, v.sized))
          ∙ ap₂ (λ l x. l ++ (x ∷ [])) (take-set_above b.len b.len b.raw a (omega arith)) written in
        rw (not-le→leb b.capacity b.len room, lt→ltb b.len b.capacity room)
          (record { sized = size ∙ v.sized; in_range = omega arith }, slice, ground (arith, read))
    | no none_left ↦
        rw (le→leb b.capacity b.len (omega arith), not-lt→ltb b.len b.capacity (omega arith))
          (v, refl, refl)
  ]

  pop_written :
      (b : Buffer A) (a : A)
      → b.len < b.capacity
      → pop (push b a) ≡ record b { raw = set b.raw b.len a }
  unfolding push pop
  pop_written b a room =
      let some_in : (b.len + 1 == 0) ≡ false = ground arith in
      let same : b.len + 1 - 1 ≡ b.len = omega arith in
      rw (not-le→leb b.capacity b.len room, some_in)
        (ap (λ n. record b { raw = set b.raw b.len a; len = n }) same)

  -- `pop` takes the newest entry off: after a `push` with room it gives back the old slice.
  pub pop-push :
      (b : Buffer A) (a : A)
      → IsValid b
      → b.len < b.capacity
      → IsValid (pop (push b a)) × (as_slice (pop (push b a)) ≡ as_slice b)
  unfolding as_slice
  pop-push b a v room =
      subst (λ (r : Buffer A). IsValid r × (as_slice r ≡ as_slice b)) (sym (pop_written b a room))
        (
          record { sized = length-set {A = A} b.raw b.len a ∙ v.sized; in_range = v.in_range },
          take-set_above b.len b.len b.raw a (omega arith),
        )
