-- ===== src/Lcd/Runs.antt =====
-- Runs that do not stop, and indexed reads and writes as such runs.
-- Used for boards/esp32c6/src/lcd.rs.
use mos_rust.Prelude.{
  ℕ, zero, suc, ◌<◌, ◌≡◌, refl, ap, ◌∙◌, List, [], ◌∷◌, Bool, true, false, if◌then◌else◌, length,
  length-set, set, replicate, arith, Run, ok, ◌>>=◌, lt→ltb,
}
use mos_rust.Lcd.{read_at, write_at}

abbrev pub Each {ℓ} : {A : Type ℓ} → (A → Type 0) → List A → Type 0
Each P [] = Unit
Each P (x ∷ xs) = P x × Each P xs

-- The run does not stop, and what it returns satisfies the predicate.
abbrev pub Returns {ℓ} : {A : Type ℓ} → Run A → (A → Type 0) → Type ℓ
Returns {A = A} r P = (a : A) × (r ≡ ok a) × P a

module _ {ℓ} {A : Type ℓ} where
  pub Each-set :
      (P : A → Type 0) (xs : List A) (i : ℕ) (v : A) → Each P xs → P v → Each P (set xs i v)
  Each-set P [] i v h hv = tt
  Each-set P (x ∷ xs) zero v h hv = (hv, h.1)
  Each-set P (x ∷ xs) (suc i) v h hv = (h.0, Each-set P xs i v h.1 hv)

  pub Each-replicate : (P : A → Type 0) (n : ℕ) (v : A) → P v → Each P (replicate n v)
  Each-replicate P zero v h = tt
  Each-replicate P (suc n) v h = (h, Each-replicate P n v h)

  pub each : (xs : List A) → Each (λ x. Unit) xs
  each [] = tt
  each (x ∷ xs) = (tt, each xs)

  pub read_at-Returns :
      (P : A → Type 0) (xs : List A) (i : ℕ) → Each P xs → i < length xs → Returns (read_at xs i) P
  read_at-Returns P [] i h lt = absurd (omega arith)
  read_at-Returns P (x ∷ xs) zero h lt = (x, refl, h.0)
  read_at-Returns P (x ∷ xs) (suc i) h lt = read_at-Returns P xs i h.1 (omega arith)

  write_at-eq : (xs : List A) (i : ℕ) (v : A) → i < length xs → write_at xs i v ≡ ok (set xs i v)
  write_at-eq xs i v lt = rw (lt→ltb i (length xs) lt) refl

  pub write_at-Returns :
      (P : A → Type 0) (xs : List A) (n i : ℕ) (v : A)
      → length xs ≡ n
      → Each P xs
      → i < n
      → P v
      → Returns (write_at xs i v) (λ l. (length l ≡ n) × Each P l)
  write_at-Returns P xs n i v size h lt hv = (
    set xs i v,
    write_at-eq xs i v (omega arith),
    (length-set xs i v ∙ size, Each-set P xs i v h hv),
  )

  pub bind-Returns {κ} :
      {B : Type κ} {P : A → Type 0} {Q : B → Type 0} (r : Run A) (f : A → Run B)
      → Returns r P
      → ((a : A) → P a → Returns (f a) Q)
      → Returns (r >>= f) Q
  bind-Returns r f (a, e, h) g = let (b, eb, hb) = g a h in (b, ap (λ x. x >>= f) e ∙ eb, hb)

pub if-Returns {ℓ} :
    {A : Type ℓ} {P : A → Type 0} {x y : Run A} (b : Bool)
    → Returns x P
    → Returns y P
    → Returns (if b then x else y) P
if-Returns true h g = h
if-Returns false h g = g
