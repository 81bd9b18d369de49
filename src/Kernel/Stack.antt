-- ===== src/Kernel/Stack.antt =====
-- The first context frame of a task, `init_stack_frame` and `init_stack_frame_raw` of
-- core/src/kernel/tcb.rs, over the frame size of core/src/arch/riscv.rs. The result is the stack
-- and the index of the frame's lowest word; the source returns that word's address.
pub mod Frame
use mos_rust.Prelude.{
  ℕ, zero, suc, ◌+◌, ◌-◌, List, ltb, if◌then◌else◌, length, set, Run, ok, stop, panicked,
}

abbrev pub context_words : ℕ
context_words = 32

-- `for i in 0..CONTEXT_WORDS { stack[frame_base + i] = 0 }`, with `n` rounds left from index `i`
unfoldable pub clear_words : ℕ → ℕ → List ℕ → List ℕ
clear_words zero i stack = stack
clear_words (suc n) i stack = clear_words n (i + 1) (set stack i 0)

-- the words at offsets 0 (mepc), 1 (ra), 9 (a0) and 31 (mstatus)
unfoldable pub init_stack_frame : List ℕ → ℕ → ℕ → ℕ → Run (List ℕ × ℕ)
unfolding clear_words
init_stack_frame stack entry argv exit_fn =
    let base = length stack - context_words in
    let s0 = clear_words context_words base stack in
    let s1 = set s0 (base + 0) entry in
    let s2 = set s1 (base + 1) exit_fn in
    let s3 = set s2 (base + 9) argv in
    let s4 = set s3 (base + 31) 0x0000_1888 in
    if ltb context_words (length stack) then ok (s4, base) else stop panicked

unfoldable pub init_stack_frame_raw : List ℕ → ℕ → ℕ → ℕ → Run (List ℕ × ℕ)
unfolding clear_words
init_stack_frame_raw stack entry_addr argv exit_addr =
    let base = length stack - context_words in
    let s0 = clear_words context_words base stack in
    let s1 = set s0 (base + 0) entry_addr in
    let s2 = set s1 (base + 1) exit_addr in
    let s3 = set s2 (base + 9) argv in
    let s4 = set s3 (base + 31) 0x0000_1888 in
    if ltb context_words (length stack) then ok (s4, base) else stop panicked
