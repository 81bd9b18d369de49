-- ===== src/Queue/Window.antt =====
-- A window of a ring: `n` slots from index `h` on, going round at `cap`. Shared by every ring of
-- the program.
use native.Mathlib.Nat.{mod-add-mod, mod-eq_of_lt, mod-eq-sub-mod, add-zero}
use native.Mathlib.Decide.{dec_lt}
use mos_rust.Prelude.{
  ℕ, zero, suc, ◌+◌, ◌-◌, ◌%◌, ◌≤◌, ◌<◌, ◌≡◌, ◌≢◌, refl, ap, ap₂, ◌∙◌, List, [], ◌∷◌, ◌++◌, length,
  get_or, set, get_or-set, ◌==◌, if◌then◌else◌, ne→==_false, ==_refl, arith,
}

module _ {ℓ} {A : Type ℓ} (d : A) where
  abbrev pub window : List A → ℕ → ℕ → ℕ → List A
  window slots cap h zero = []
  window slots cap h (suc n) = get_or slots h d ∷ window slots cap ((h + 1) % cap) n

  pub length-window : (slots : List A) (cap h n : ℕ) → length (window slots cap h n) ≡ n
  length-window slots cap h zero = refl
  length-window slots cap h (suc n) = ap suc (length-window slots cap ((h + 1) % cap) n)

  -- The code tests for 0, the window goes by `suc`.
  pub window_pop :
      (slots : List A) (cap h n : ℕ)
      → n ≢ 0
      → window slots cap h n ≡ get_or slots h d ∷ window slots cap ((h + 1) % cap) (n - 1)
  window_pop slots cap h zero ne = absurd (ne refl)
  window_pop slots cap h (suc n) ne =
      ap (λ k. get_or slots h d ∷ window slots cap ((h + 1) % cap) k) (omega arith)

-- One turn past the end is subtracted.
turn-mod : (cap i : ℕ) → cap ≤ i → i < cap + cap → i % cap ≡ i - cap
turn-mod cap i le lt =
    omega (
      arith,
      mod-eq-sub-mod {n = i} {m = cap} le,
      mod-eq_of_lt {n = i - cap} {m = cap} (omega arith),
    )

-- Going on by fewer than `cap` slots does not come back to the start.
round-ne : (cap h k : ℕ) → h < cap → suc k < cap → (h + suc k) % cap ≢ h
round-ne cap h k inside short = elim (dec_lt (h + suc k) cap) [
  | no past ↦ omega (arith, turn-mod cap (h + suc k) (omega arith) (omega arith))
  | yes before ↦ omega (arith, mod-eq_of_lt before)
]

pub step-mod : (cap h n : ℕ) → (h + suc n) % cap ≡ ((h + 1) % cap + n) % cap
step-mod cap h n = rw mod-add-mod (ap (λ k. k % cap) (omega arith))

module _ {ℓ} {A : Type ℓ} (d : A) where
  -- A write at the slot just past a window adds that entry to its end.
  pub window-set :
      (slots : List A) (cap : ℕ) (x : A) (n h i : ℕ)
      → cap ≤ length slots
      → h < cap
      → n < cap
      → i ≡ (h + n) % cap
      → window d (set slots i x) cap h (suc n) ≡ window d slots cap h n ++ (x ∷ [])
  window-set slots cap x zero h i room hh hn at =
      rw (at, add-zero, mod-eq_of_lt hh, get_or-set slots h h x d (omega arith), ==_refl h) refl
  window-set slots cap x (suc n) h i room hh hn at =
      let apart : i ≢ h = rw at (round-ne cap h n hh hn) in
      ap₂ ◌∷◌ (get_or-set slots i h x d (omega arith) ∙ rw (ne→==_false i h apart) refl) (
        window-set slots cap x n ((h + 1) % cap) i room (omega arith) (omega arith)
          (at ∙ step-mod cap h n))

  -- The last slot of a window.
  pub window_snoc :
      (slots : List A) (cap n h : ℕ)
      → h < cap
      → window d slots cap h (suc n)
        ≡ window d slots cap h n ++ (get_or slots ((h + n) % cap) d ∷ [])
  window_snoc slots cap zero h hh = rw (add-zero, mod-eq_of_lt hh) refl
  window_snoc slots cap (suc n) h hh = ap (◌∷◌ (get_or slots h d)) (
      window_snoc slots cap n ((h + 1) % cap) (omega arith)
      ∙ ap (λ k. window d slots cap ((h + 1) % cap) n ++ (get_or slots k d ∷ []))
          (rw (step-mod cap h n) refl))

-- Where the write index goes, and that the read index going on leaves it there.
pub tail_after-push : (cap h n t : ℕ) → t ≡ (h + n) % cap → (t + 1) % cap ≡ (h + (n + 1)) % cap
tail_after-push cap h n t at = rw (at, mod-add-mod) (ap (λ k. k % cap) (omega arith))

pub tail_after-pop :
    (cap h n t : ℕ) → n ≢ 0 → t ≡ (h + n) % cap → t ≡ ((h + 1) % cap + (n - 1)) % cap
tail_after-pop cap h n t ne at = rw mod-add-mod (at ∙ ap (λ k. k % cap) (omega arith))

-- The code steps back from the write index by hand.
pub step_back :
    (cap h n t : ℕ)
    → h < cap
    → n ≢ 0
    → n ≤ cap
    → t ≡ (h + n) % cap
    → (if t == 0 then cap - 1 else t - 1) ≡ (h + (n - 1)) % cap
step_back cap h n t hh ne le at = elim (dec_lt (h + n) cap) [
  | yes p ↦ ground (
    arith,
    mod-eq_of_lt {n = h + n} {m = cap} p,
    mod-eq_of_lt {n = h + (n - 1)} {m = cap} (omega arith),
  )
  | no p ↦
      let round : t ≡ h + n - cap = at ∙ turn-mod cap (h + n) (omega arith) (omega arith) in
      elim (dec_lt (h + (n - 1)) cap) [
        | yes s ↦ ground (arith, mod-eq_of_lt {n = h + (n - 1)} {m = cap} s)
        | no s ↦ ground (arith, turn-mod cap (h + (n - 1)) (omega arith) (omega arith))
      ]
]
