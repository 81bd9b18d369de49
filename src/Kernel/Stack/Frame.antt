-- ===== src/Kernel/Stack/Frame.antt =====
-- The frame that a new task starts from: which word holds what.
use mos_rust.Prelude.{
  ℕ, zero, suc, ◌+◌, ◌-◌, ◌≤◌, ◌<◌, ◌≡◌, refl, ap, ◌∙◌, List, ltb, leb, ◌==◌, ◌&&◌, if◌then◌else◌,
  length, length-set, set, get_or, get_or-set, lt→ltb, arith, Run, ok,
}
use mos_rust.Kernel.Stack.{context_words, clear_words, init_stack_frame, init_stack_frame_raw}

length-clear_words : (n i : ℕ) (stack : List ℕ) → length (clear_words n i stack) ≡ length stack
unfolding clear_words
length-clear_words zero i stack = refl
length-clear_words (suc n) i stack =
    length-clear_words n (i + 1) (set stack i 0) ∙ length-set {A = ℕ} stack i 0

get_or-clear_words :
    (n i j : ℕ) (stack : List ℕ)
    → i + n ≤ length stack
    → get_or (clear_words n i stack) j 0
      ≡ (if leb i j && ltb j (i + n) then 0 else get_or stack j 0)
unfolding clear_words
get_or-clear_words zero i j stack h = ground arith
get_or-clear_words (suc n) i j stack h = ground (
  arith,
  get_or-clear_words n (i + 1) j (set stack i 0) (omega (arith, length-set {A = ℕ} stack i 0)),
  get_or-set {A = ℕ} stack i j 0 0,
)

-- What stands at word `o` of a first frame.
abbrev pub frame_word : ℕ → ℕ → ℕ → ℕ → ℕ
frame_word entry argv exit_fn o =
    if o == 0
    then entry
    else if o == 1
    then exit_fn
    else if o == 9
    then argv
    else if o == 31
    then 0x0000_1888
    else 0

-- A stack of more words than a frame gets its first frame at its upper end: the task's entry, its
-- argument, where it returns to and the status word stand in their places, the frame's other words
-- are 0, and the words below the frame are as they were.
pub record Framed (stack : List ℕ) (entry argv exit_fn : ℕ) (r : Run (List ℕ × ℕ)) : Type 0 where
  pub after : List ℕ
  pub returned : r ≡ ok (after, length stack - context_words)
  pub same_length : length after ≡ length stack
  pub below : (j : ℕ) → j < length stack - context_words → get_or after j 0 ≡ get_or stack j 0
  pub frame :
      (o : ℕ)
      → o < context_words
      → get_or after (length stack - context_words + o) 0 ≡ frame_word entry argv exit_fn o

-- Four words written over a cleared frame, read back at any index.
frame_words :
    (s : List ℕ) (base entry exit_fn argv status j : ℕ)
    → base + 31 < length s
    → get_or
        (set
          (set (set (set s (base + 0) entry) (base + 1) exit_fn) (base + 9) argv)
          (base + 31)
          status)
        j
        0
      ≡ (if base + 31 == j
          then status
          else if base + 9 == j
          then argv
          else if base + 1 == j
          then exit_fn
          else if base + 0 == j
          then entry
          else get_or s j 0)
frame_words s base entry exit_fn argv status j h =
    let s1 : List ℕ = set s (base + 0) entry in
    let s2 : List ℕ = set s1 (base + 1) exit_fn in
    let s3 : List ℕ = set s2 (base + 9) argv in
    let n1 = length-set {A = ℕ} s (base + 0) entry in
    let n2 = length-set {A = ℕ} s1 (base + 1) exit_fn in
    let n3 = length-set {A = ℕ} s2 (base + 9) argv in
    ground (
      arith,
      get_or-set s3 (base + 31) j status 0 (omega (arith, n1, n2, n3)),
      get_or-set s2 (base + 9) j argv 0 (omega (arith, n1, n2)),
      get_or-set s1 (base + 1) j exit_fn 0 (omega (arith, n1)),
      get_or-set s (base + 0) j entry 0 (omega (arith)),
    )

-- The words of a frame after the frame is cleared and four of its words are written.
framed :
    (stack : List ℕ) (entry argv exit_fn : ℕ) (after : List ℕ)
    → context_words < length stack
    → after ≡ (
        let base = length stack - context_words in
        set
          (set
            (set (set (clear_words context_words base stack) (base + 0) entry) (base + 1) exit_fn)
            (base + 9)
            argv)
          (base + 31)
          0x0000_1888)
    → (j : ℕ)
    → get_or after j 0 ≡ (
        let base = length stack - context_words in
        if base + 31 == j
        then 0x0000_1888
        else if base + 9 == j
        then argv
        else if base + 1 == j
        then exit_fn
        else if base + 0 == j
        then entry
        else if leb base j && ltb j (base + context_words)
        then 0
        else get_or stack j 0)
framed stack entry argv exit_fn after h eq j =
    let base = length stack - context_words in
    let s0 : List ℕ = clear_words context_words base stack in
    let n0 = length-clear_words context_words base stack in
    ap (λ s. get_or s j 0) eq
    ∙ frame_words s0 base entry exit_fn argv 0x0000_1888 j (omega (arith, n0))
    ∙ ground (arith, get_or-clear_words context_words base j stack (omega arith))

-- Lengths stay through the writes.
length-framed :
    (s : List ℕ) (a b c d entry exit_fn argv status : ℕ)
    → length (set (set (set (set s a entry) b exit_fn) c argv) d status) ≡ length s
length-framed s a b c d entry exit_fn argv status =
    let s1 : List ℕ = set s a entry in
    let s2 : List ℕ = set s1 b exit_fn in
    let s3 : List ℕ = set s2 c argv in
    length-set {A = ℕ} s3 d status
    ∙ length-set {A = ℕ} s2 c argv
    ∙ length-set {A = ℕ} s1 b exit_fn
    ∙ length-set {A = ℕ} s a entry

module _ (stack : List ℕ) (entry argv exit_fn : ℕ) (h : context_words < length stack) where
  abbrev base : ℕ
  base = length stack - context_words

  abbrev after : List ℕ
  after =
      set
        (set (set (set (clear_words context_words base stack) (base + 0) entry) (base + 1) exit_fn)
          (base + 9) argv)
        (base + 31) 0x0000_1888

  after-Framed : {r : Run (List ℕ × ℕ)} → r ≡ ok (after, base) → Framed stack entry argv exit_fn r
  after-Framed returned =
      let reads = framed stack entry argv exit_fn after h refl in
      record {
        after = after;
        returned = returned;
        same_length =
            length-framed (clear_words context_words base stack) (base + 0) (base + 1) (base + 9)
              (base + 31) entry exit_fn argv 0x0000_1888
            ∙ length-clear_words context_words base stack;
        below = λ j lt. reads j ∙ ground arith;
        frame = λ o lt. reads (base + o) ∙ ground arith;
      }

  pub init_stack_frame-Framed :
      Framed stack entry argv exit_fn (init_stack_frame stack entry argv exit_fn)
  unfolding init_stack_frame
  init_stack_frame-Framed = after-Framed (rw (lt→ltb context_words (length stack) h) refl)

  pub init_stack_frame_raw-Framed :
      Framed stack entry argv exit_fn (init_stack_frame_raw stack entry argv exit_fn)
  unfolding init_stack_frame_raw
  init_stack_frame_raw-Framed = after-Framed (rw (lt→ltb context_words (length stack) h) refl)
