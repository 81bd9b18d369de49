-- ===== src/Arch/Frame.antt =====
-- The words of a frame: runs of stores and loads, one register after the other.
use mos_rust.Prelude.{
  ℕ, zero, suc, ◌+◌, ◌-◌, ◌*◌, ◌≤◌, ◌<◌, ◌≡◌, refl, ◌∙◌, List, [], ◌∷◌, ltb, leb, ◌==◌, ◌&&◌,
  if◌then◌else◌, update, arith,
}
use mos_rust.Kernel.{u32_mod}
use mos_rust.Arch.{Symbol, Cpu, sp, Instr, lw, sw, add32, save_regs, restore_regs, step, run}

-- Which register lies in a word, and which word holds a register; word 0 stands for none.
abbrev pub reg_of : ℕ → ℕ
reg_of j = if j == 1 then 1 else j + 1

abbrev pub word_of : ℕ → ℕ
word_of r = if r == 1 then 1 else if r == 2 then 0 else r - 1

abbrev pub saves : ℕ → ℕ → List Instr
saves zero j = []
saves (suc n) j = sw (reg_of j) (4 * j) sp ∷ saves n (j + 1)

abbrev pub loads : ℕ → ℕ → List Instr
loads zero j = []
loads (suc n) j = lw (reg_of j) (4 * j) sp ∷ loads n (j + 1)

pub save_regs-saves : save_regs ≡ saves 30 1
save_regs-saves = refl

pub restore_regs-loads : restore_regs ≡ loads 30 1
restore_regs-loads = refl

module _ (address : Symbol → ℕ) where
  -- Stores into the `n` words from word `j` of the frame at `base`.
  pub record Stored (base n j : ℕ) (c d : Cpu) : Type 0 where
    pub regs : d.regs ≡ c.regs
    pub status : d.status ≡ c.status
    pub epc : d.epc ≡ c.epc
    pub cause : d.cause ≡ c.cause
    pub mem :
        (i : ℕ)
        → d.mem (base + 4 * i)
          ≡ (if leb j i && ltb i (j + n) then c.regs (reg_of i) else c.mem (base + 4 * i))
    pub below : (a : ℕ) → a < base + 4 * j → d.mem a ≡ c.mem a
    pub above : (a : ℕ) → base + 4 * (j + n) ≤ a → d.mem a ≡ c.mem a

  pub saves-Stored :
      (n j base : ℕ) (c : Cpu)
      → c.regs sp ≡ base
      → base + 4 * (j + n) ≤ u32_mod
      → Stored base n j c (run address (saves n j) c)
  unfolding run step
  saves-Stored zero j base c at fits = record {
    regs = refl;
    status = refl;
    epc = refl;
    cause = refl;
    mem = λ i. ground arith;
    below = λ a h. refl;
    above = λ a h. refl;
  }
  saves-Stored (suc n) j base c at fits =
      let d : Cpu = record c {
        mem = update c.mem (add32 (c.regs sp) (4 * j)) (c.regs (reg_of j));
      } in
      let s = saves-Stored n (j + 1) base d at (omega arith) in
      let here : add32 (c.regs sp) (4 * j) ≡ base + 4 * j = omega (arith, at) in
      let one : (a : ℕ) → d.mem a ≡ (if base + 4 * j == a then c.regs (reg_of j) else c.mem a) =
        λ a. rw here refl in
      record {
        regs = s.regs;
        status = s.status;
        epc = s.epc;
        cause = s.cause;
        mem = λ i. s.mem i ∙ ground (arith, one (base + 4 * i));
        below = λ a h. s.below a (omega arith) ∙ ground (arith, one a);
        above = λ a h. s.above a (omega arith) ∙ ground (arith, one a);
      }

  -- Loads from the `n` words from word `j` of the frame at `base`.
  pub record Loaded (base n j : ℕ) (c d : Cpu) : Type 0 where
    pub mem : d.mem ≡ c.mem
    pub status : d.status ≡ c.status
    pub epc : d.epc ≡ c.epc
    pub regs :
        (r : ℕ)
        → d.regs r ≡ (
            if leb j (word_of r) && ltb (word_of r) (j + n)
            then c.mem (base + 4 * word_of r)
            else c.regs r)

  pub loads-Loaded :
      (n j base : ℕ) (c : Cpu)
      → 0 < j
      → c.regs sp ≡ base
      → base + 4 * (j + n) ≤ u32_mod
      → Loaded base n j c (run address (loads n j) c)
  unfolding run step
  loads-Loaded zero j base c pos at fits = record {
    mem = refl;
    status = refl;
    epc = refl;
    regs = λ r. ground arith;
  }
  loads-Loaded (suc n) j base c pos at fits =
      let d : Cpu = record c {
        regs = update c.regs (reg_of j) (c.mem (add32 (c.regs sp) (4 * j)));
      } in
      let here : add32 (c.regs sp) (4 * j) ≡ base + 4 * j = omega (arith, at) in
      let one : (r : ℕ) → d.regs r ≡ (if reg_of j == r then c.mem (base + 4 * j) else c.regs r) =
        λ r. rw here refl in
      let s = loads-Loaded n (j + 1) base d (omega arith) (ground (arith, one sp)) (omega arith) in
      record {
        mem = s.mem;
        status = s.status;
        epc = s.epc;
        regs = λ r. s.regs r ∙ ground (arith, one r);
      }
