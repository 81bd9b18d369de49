-- ===== src/Queue.antt =====
-- The ring queue, core/src/data_type/queue.rs. A slot that was never written is `none`; to read it
-- would be undefined behaviour, the stop `uninit_read`.
pub mod Window
pub mod Refine
pub mod Calls
use mos_rust.Prelude.{
  ℕ, zero, suc, ◌+◌, ◌-◌, ◌%◌, List, [], ◌∷◌, Bool, true, false, Option, none, some, leb, ◌==◌,
  if◌then◌else◌, get_elem?, set, replicate, Run, ok, stop, out_of_range, uninit_read, ◌>>=◌,
}

-- `MaybeUninit<T>`
abbrev pub Slot {ℓ} : Type ℓ → Type ℓ
Slot A = Option A

-- `assume_init` of `data[i]`
unfoldable pub read_slot {ℓ} : {A : Type ℓ} → List (Slot A) → ℕ → Run A
read_slot slots i = elim (get_elem? slots i) [
  | none ↦ stop out_of_range
  | some s ↦ elim s [ none ↦ stop uninit_read | some a ↦ ok a ]
]

-- `capacity` is the const parameter N.
pub record Queue {ℓ} (A : Type ℓ) : Type ℓ where
  pub capacity : ℕ
  pub slots : List (Slot A)
  pub head : ℕ
  pub tail : ℕ
  pub len : ℕ

module _ {ℓ} {A : Type ℓ} where
  pub new : ℕ → Queue A
  new n = record { capacity = n; slots = replicate n none; head = 0; tail = 0; len = 0 }

  unfoldable pub full : Queue A → Bool
  full q = leb q.capacity q.len

  unfoldable pub empty : Queue A → Bool
  empty q = q.len == 0

  pub clear : Queue A → Queue A
  clear q = record q { head = 0; tail = 0; len = 0 }

  pub front : Queue A → Run (Option A)
  unfolding empty
  front q = if empty q then ok none else (do a ← read_slot q.slots q.head; ok (some a))

  pub back : Queue A → Run (Option A)
  unfolding empty
  back q =
      let idx = if q.tail == 0 then q.capacity - 1 else q.tail - 1 in
      if empty q then ok none else (do a ← read_slot q.slots idx; ok (some a))

  -- `data[i] = v` at an index in range; `% N` runs at N ≠ 0 only, since `full` returned false.
  unfoldable pub push : Queue A → A → Queue A × Bool
  unfolding full
  push q val = if full q then (q, false) else (
    record q {
      slots = set q.slots q.tail (some val);
      tail = (q.tail + 1) % q.capacity;
      len = q.len + 1;
    },
    true,
  )

  pub pop : Queue A → Queue A × Bool
  unfolding empty
  pop q =
      if empty q
      then (q, false)
      else (record q { head = (q.head + 1) % q.capacity; len = q.len - 1 }, true)

  unfoldable pub serve : Queue A → Run (Option A × Queue A)
  unfolding empty
  serve q = if empty q then ok (none, q) else (do
    val ← read_slot q.slots q.head
    ok (some val, record q { head = (q.head + 1) % q.capacity; len = q.len - 1 }))

  -- The `for` of `iter`, with `n` rounds left at index `i`; the callback's state is `s`.
  iter_from {κ} : {S : Type κ} → Queue A → ℕ → ℕ → (S → A → S) → S → Run S
  iter_from q zero i f s = ok s
  iter_from q (suc n) i f s =
      read_slot q.slots i >>= λ a. iter_from q n ((i + 1) % q.capacity) f (f s a)

  pub iter {κ} : {S : Type κ} → Queue A → (S → A → S) → S → Run S
  unfolding iter_from empty
  iter q f s = if empty q then ok s else iter_from q q.len q.head f s
