-- ===== src/Prelude/Outcome.antt =====
-- What a fallible routine returns: Rust's `Result`, and runs that can stop the machine.
use mathlib.Core.Path.{◌≡◌, refl}
use mathlib.Core.Logic.{◌⊎◌, inl, inr}

-- `Result<A, E>`
pub data Result {ℓ κ} (A : Type ℓ) (E : Type κ) : Type (ℓ ⊔ κ) where
  accepted : A → Result A E
  rejected : E → Result A E

-- How a run stops: `panic!` and failed assertions, an index out of range, a null pointer that is
-- followed, and a read of memory that was never written.
pub data Stop : Type 0 where
  panicked out_of_range null_deref uninit_read : Stop

pub data Run {ℓ} (A : Type ℓ) : Type ℓ where
  ok : A → Run A
  stop : Stop → Run A

infixl 5 ◌>>=◌
abbrev pub ◌>>=◌ {ℓ κ} : {A : Type ℓ} {B : Type κ} → Run A → (A → Run B) → Run B
ok a >>= f = f a
stop e >>= f = stop e

pub Run-cases {ℓ} : {A : Type ℓ} (r : Run A) → ((a : A) × (r ≡ ok a)) ⊎ ((e : Stop) × (r ≡ stop e))
Run-cases (ok a) = inl (a, refl)
Run-cases (stop e) = inr (e, refl)
