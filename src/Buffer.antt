-- ===== src/Buffer.antt =====
-- The linear buffer, core/src/data_type/buffer.rs.
pub mod Laws
use mos_rust.Prelude.{
  ℕ, ◌+◌, ◌-◌, List, Bool, Option, none, some, leb, ◌==◌, if◌then◌else◌, get_elem?, set, take,
  replicate, Run, ok, stop, out_of_range, ◌>>=◌,
}

-- `capacity` is the const parameter N, `raw` the array of that length.
pub record Buffer {ℓ} (A : Type ℓ) : Type ℓ where
  pub capacity : ℕ
  pub raw : List A
  pub len : ℕ

module _ {ℓ} {A : Type ℓ} where
  -- `zero` is the value whose bytes are all 0.
  unfoldable pub create : ℕ → A → Buffer A
  create n zero = record { capacity = n; raw = replicate n zero; len = 0 }

  unfoldable pub full : Buffer A → Bool
  full b = leb b.capacity b.len

  unfoldable pub empty : Buffer A → Bool
  empty b = b.len == 0

  unfoldable pub push : Buffer A → A → Buffer A
  unfolding full
  push b data_ = if full b then b else record b { raw = set b.raw b.len data_; len = b.len + 1 }

  unfoldable pub back : Buffer A → Run (Option A)
  unfolding empty
  back b =
      if empty b
      then ok none
      else elim (get_elem? b.raw (b.len - 1)) [ none ↦ stop out_of_range | some a ↦ ok (some a) ]

  unfoldable pub pop : Buffer A → Buffer A
  unfolding empty
  pop b = if empty b then b else record b { len = b.len - 1 }

  unfoldable pub clear : Buffer A → Buffer A
  clear b = record b { len = 0 }

  -- `&raw[..len]`, also what `iter` goes through
  unfoldable pub as_slice : Buffer A → List A
  as_slice b = take b.len b.raw
