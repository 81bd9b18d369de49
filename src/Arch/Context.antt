-- ===== src/Arch/Context.antt =====
-- What the trap handler saves comes back: the registers of a task across a switch, and the first
-- registers of a new task.
use Prim.Native.Nat.{bit_or, bit_and}
use mos_rust.Prelude.{
  ℕ, ◌+◌, ◌*◌, ◌%◌, ◌≤◌, ◌<◌, ◌≡◌, ◌≢◌, refl, sym, ap, subst, inl, inr, Bool-cases, ◌∙◌, [], ◌∷◌,
  ◌==◌, if◌then◌else◌, update, ne→==_false, arith,
}
use mos_rust.Kernel.{u32_mod}
use mos_rust.Arch.{
  Symbol, Cpu, sp, t0, add32, minus, save_regs, save_csrs, restore_regs, restore_csrs, step, run,
  save, restore, addi,
}
use mos_rust.Arch.Frame.{word_of, Stored, saves-Stored, Loaded, loads-Loaded}

module _ (address : Symbol → ℕ) where
  -- The frame at `base` is loaded: each register from its word, the program counter from word 0,
  -- the status from word 31 with the bit for interrupts after the return set, and the bit for
  -- interrupts now cleared.
  pub record Restored (base : ℕ) (mem : ℕ → ℕ) (d : Cpu) : Type 0 where
    pub same_mem : d.mem ≡ mem
    pub top : d.regs sp ≡ (base + 128) % u32_mod
    pub loaded : (r : ℕ) → 0 < r → r < 32 → r ≢ sp → d.regs r ≡ mem (base + 4 * word_of r)
    pub epc : d.epc ≡ mem base
    pub status : d.status ≡ bit_and (bit_or (mem (base + 124)) 0x80) (minus 9)

  read_regs :
      (base : ℕ) (c d : Cpu)
      → Loaded address base 30 1 c d
      → (r : ℕ) → 0 < r
      → r < 32
      → r ≢ sp
      → d.regs r ≡ c.mem (base + 4 * word_of r)
  read_regs base c d s r pos lt ne = ground (arith, s.regs r)

  keep_sp : (base : ℕ) (c d : Cpu) → Loaded address base 30 1 c d → d.regs sp ≡ c.regs sp
  keep_sp base c d s = s.regs sp

  pub restore-Restored :
      (base : ℕ) (c : Cpu)
      → c.regs sp ≡ base
      → base + 128 ≤ u32_mod
      → Restored base c.mem (restore address c)
  unfolding restore run step
  restore-Restored base c at fits =
      let c1 : Cpu = run address restore_csrs c in
      let low : add32 base 0 ≡ base = omega arith in
      let high : add32 base 124 ≡ base + 124 = omega arith in
      let s = loads-Loaded address 30 1 base c1 (omega arith) at (omega arith) in
      let d : Cpu = run address restore_regs c1 in
      let stays : d.regs sp ≡ base = keep_sp base c1 d s ∙ at in
      record {
        same_mem = s.mem;
        top = rw stays refl;
        loaded = λ r pos lt ne.
            rw (ne→==_false sp r (λ e. ne (sym e))) (read_regs base c1 d s r pos lt ne);
        epc = s.epc ∙ ap (λ a. c.mem (add32 a 0)) at ∙ ap c.mem low;
        status =
            s.status
            ∙ ap (λ a. bit_and (bit_or (c.mem a) 0x80) (minus 9)) (ap (λ a. add32 a 124) at ∙ high);
      }

  -- The context of `c` lies in the frame at `base`: its registers, where it goes on, its status.
  pub record Frames (base : ℕ) (c : Cpu) (mem : ℕ → ℕ) : Type 0 where
    pub words : (r : ℕ) → 0 < r → r < 32 → r ≢ sp → mem (base + 4 * word_of r) ≡ c.regs r
    pub epc : mem base ≡ c.epc
    pub status : mem (base + 124) ≡ c.status

  pub record Saved (base : ℕ) (c d : Cpu) : Type 0 where
    pub at : d.regs sp ≡ base
    pub frame : Frames base c d.mem
    pub kept : (r : ℕ) → r ≢ sp → r ≢ t0 → d.regs r ≡ c.regs r
    pub cause : d.cause ≡ c.cause
    pub below : (a : ℕ) → a < base → d.mem a ≡ c.mem a
    pub above : (a : ℕ) → base + 128 ≤ a → d.mem a ≡ c.mem a

  -- The two status words go into the first and the last word, once the registers are stored.
  Stored-Saved :
      (base : ℕ) (c c2 d : Cpu)
      → c.regs sp ≡ base + 128
      → base + 128 < u32_mod
      → Stored address base 30 1 (record c { regs = update c.regs sp base }) c2
      → d.mem ≡ update (update c2.mem base c.epc) (base + 124) c.status
      → d.regs ≡ update (update c2.regs t0 c.epc) t0 c.status
      → d.cause ≡ c2.cause
      → Saved base c d
  Stored-Saved base c c2 d top fits s mem regs cause =
      let m : (a : ℕ)
          → d.mem a
            ≡ (if base + 124 == a then c.status else if base == a then c.epc else c2.mem a) =
        λ a. ap (λ f. f a) mem in
      let rs : (r : ℕ) → d.regs r ≡ (if t0 == r then c.status else c2.regs r) =
        λ r. ap (λ f. f r) regs ∙ ground arith in
      let old : (r : ℕ) → c2.regs r ≡ (if sp == r then base else c.regs r) =
        λ r. ap (λ f. f r) s.regs in
      record {
        at = rs sp ∙ old sp;
        frame = record {
          words = λ r pos lt ne. m (base + 4 * word_of r) ∙ ground (arith, s.mem (word_of r));
          epc = m base ∙ ground arith;
          status = m (base + 124) ∙ ground arith;
        };
        kept = λ r ne nt. rs r ∙ ground (arith, old r);
        cause = cause ∙ s.cause;
        below = λ a h. m a ∙ ground (arith, s.below a);
        above = λ a h. m a ∙ ground (arith, s.above a);
      }

  record Csrs (base : ℕ) (c d : Cpu) : Type 0 where
    mem : d.mem ≡ update (update c.mem base c.epc) (base + 124) c.status
    regs : d.regs ≡ update (update c.regs t0 c.epc) t0 c.status
    cause : d.cause ≡ c.cause

  save_csrs-Csrs :
      (base : ℕ) (c : Cpu)
      → c.regs sp ≡ base
      → base + 128 < u32_mod
      → Csrs base c (run address save_csrs c)
  unfolding run step
  save_csrs-Csrs base c at fits =
      let low : add32 (c.regs sp) 0 ≡ base = omega (arith, at) in
      let high : add32 (c.regs sp) 124 ≡ base + 124 = omega (arith, at) in
      record {
        mem =
            ap (λ a. update (update c.mem a c.epc) (add32 (c.regs sp) 124) c.status) low
            ∙ ap (λ a. update (update c.mem base c.epc) a c.status) high;
        regs = refl;
        cause = refl;
      }

  lower :
      (base : ℕ) (c : Cpu)
      → c.regs sp ≡ base + 128
      → base + 128 < u32_mod
      → run address (addi sp sp (minus 128) ∷ []) c ≡ record c { regs = update c.regs sp base }
  unfolding run step
  lower base c top fits =
      let down : add32 (c.regs sp) (minus 128) ≡ base = omega (arith, top) in
      ap (λ a. record c { regs = update c.regs sp a }) down

  pub save-Saved :
      (base : ℕ) (c : Cpu)
      → c.regs sp ≡ base + 128
      → base + 128 < u32_mod
      → Saved base c (save address c)
  unfolding save
  save-Saved base c top fits =
      let c1 : Cpu = record c { regs = update c.regs sp base } in
      let s = saves-Stored address 30 1 base c1 refl (omega arith) in
      let c2 : Cpu = run address save_regs c1 in
      let at : c2.regs sp ≡ base = ap (λ f. f sp) s.regs in
      let e = save_csrs-Csrs base c2 at fits in
      let done =
        Stored-Saved base c c2 (run address save_csrs c2) top fits s
          (e.mem
            ∙ ap (λ x. update (update c2.mem base x) (base + 124) c2.status) s.epc
            ∙ ap (λ x. update (update c2.mem base c.epc) (base + 124) x) s.status)
          (e.regs
            ∙ ap (λ x. update (update c2.regs t0 x) t0 c2.status) s.epc
            ∙ ap (λ x. update (update c2.regs t0 c.epc) t0 x) s.status)
          e.cause in
      subst (λ x. Saved base c (run address save_csrs (run address save_regs x)))
        (sym (lower base c top fits)) done

  -- A task's context survives: from any later state whose memory still holds the frame, and
  -- whose stack pointer is back at it, the way out gives every register back its value, the stack
  -- pointer too, and goes on where the task was stopped.
  pub restore-save :
      (base : ℕ) (c d : Cpu)
      → c.regs sp ≡ base + 128
      → base + 128 < u32_mod
      → d.regs sp ≡ base
      → ((a : ℕ) → base ≤ a → a < base + 128 → d.mem a ≡ (save address c).mem a)
      → ((r : ℕ) → 0 < r → r < 32 → (restore address d).regs r ≡ c.regs r)
        × ((restore address d).epc ≡ c.epc)
        × ((restore address d).status ≡ bit_and (bit_or c.status 0x80) (minus 9))
  restore-save base c d top fits at same =
      let s = save-Saved base c top fits in
      let r = restore-Restored base d at (omega arith) in
      (
        λ x pos lt. elim (Bool-cases (x == sp)) [
          | inl e ↦ let is : x ≡ sp = ground arith in rw is (r.top ∙ omega (arith, top))
          | inr e ↦
              r.loaded x pos lt (ground arith)
              ∙ same (base + 4 * word_of x) (omega arith) (ground arith)
              ∙ s.frame.words x pos lt (ground arith)
        ],
        r.epc ∙ same base (omega arith) (omega arith) ∙ s.frame.epc,
        r.status
            ∙ ap (λ w. bit_and (bit_or w 0x80) (minus 9))
                (same (base + 124) (omega arith) (omega arith) ∙ s.frame.status),
      )
