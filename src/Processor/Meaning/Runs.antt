-- ===== src/Processor/Meaning/Runs.antt =====
-- Whole programs on the processor of rtl/risc_v.sv, against what the instruction set says of their instructions.
use risc_v_cpu.Base.{ℕ, zero, suc, ◌+◌, ◌*◌, ◌≤◌, ◌≡◌, ◌∙◌, refl, IsWord, arith}
use mathlib.Core.Path.{subst}
use risc_v_cpu.Alu.Shift.{result-IsWord}
use risc_v_cpu.ControlUnit.Execute.{Op, executes, register_executes}
use risc_v_cpu.Memory.{Ram}
use risc_v_cpu.Processor.{Machine, instr_mem}
use risc_v_cpu.Processor.InOrder.{IsReady}
use risc_v_cpu.Processor.StraightLine.{cycles}
use risc_v_cpu.Processor.Manual.{updated-IsWord}
use risc_v_cpu.Processor.Branching.{InOrder, steps, view, penalty}
use risc_v_cpu.Processor.Branching.Steps.{AreSimple, cycles-steps}
use risc_v_cpu.Processor.Meaning.{
  IsHandled, Instruction, register, immediate, lui, jal, branch, store, encode, IsValid, meaning,
}
use risc_v_cpu.Processor.Meaning.Steps.{step-meaning}

executes-IsWord : (op : Op) (a b : ℕ) → IsWord a → IsWord b → IsWord (executes op a b)
executes-IsWord op a b ha hb =
    subst IsWord (register_executes op a b ha hb) (result-IsWord _ a b ha hb)

abbrev pub AreWords : InOrder → Type 0
AreWords q = (r : ℕ) → IsWord (q.state.file r)

meaning-AreWords : (i : Instruction) (q : InOrder) → IsValid i → AreWords q → AreWords (meaning i q)
unfolding meaning
meaning-AreWords (register op rd rs1 rs2) q valid words =
    updated-IsWord rd _ q.state.file (executes-IsWord op _ _ (words rs1) (words rs2)) words
meaning-AreWords (immediate op rd rs1 imm) q (d, h1, signed, ne, rest) words =
    updated-IsWord rd _ q.state.file (executes-IsWord op _ _ (words rs1) (omega arith)) words
meaning-AreWords (lui rd imm) q (d, small, clear) words =
    updated-IsWord rd imm q.state.file small words
meaning-AreWords (jal rd imm) q valid words = updated-IsWord rd _ q.state.file (omega arith) words
meaning-AreWords (branch f rs1 rs2 imm) q valid words = words
meaning-AreWords (store f rs1 rs2 imm) q valid words = words

-- A program, by the instruction at each address.
module _ (program : ℕ → Instruction) where
  unfoldable pub runs : ℕ → InOrder → InOrder
  runs zero q = q
  runs (suc k) q = runs k (meaning (program q.counter) q)

  -- The instruction memory holds the instructions that a run meets, and they are valid, and handled where they are met.
  abbrev pub Holds : Ram → ℕ → InOrder → Type 0
  Holds rom zero q = Unit
  Holds rom (suc k) q =
      (instr_mem rom q.counter ≡ encode (program q.counter))
      × IsValid (program q.counter)
      × IsHandled (program q.counter) q
      × Holds rom k (meaning (program q.counter) q)

  Holds-≤ : (rom : Ram) (k n : ℕ) (q : InOrder) → k ≤ n → Holds rom n q → Holds rom k q
  Holds-≤ rom zero n q le h = tt
  Holds-≤ rom (suc k) zero q le h = absurd (omega arith)
  Holds-≤ rom (suc k) (suc n) q le (e, valid, handled, rest) =
      (e, valid, handled, Holds-≤ rom k n _ (omega arith) rest)

  pub steps-runs :
      (unknown : ℕ) (rom : Ram) (k : ℕ) (q : InOrder)
      → AreWords q
      → Holds rom k q
      → steps unknown rom k q ≡ runs k q
  unfolding steps runs
  steps-runs unknown rom zero q words h = refl
  steps-runs unknown rom (suc k) q words (e, valid, handled, rest) =
      let i = program q.counter in
      rw (step-meaning unknown rom q i e valid words)
        (steps-runs unknown rom k (meaning i q) (meaning-AreWords i q valid words) rest)

  -- From a ready state whose registers, as they stand behind what is in flight, are words, with only arithmetic,
  -- conditional branches, `jal` and stores in flight and fetched in `n` cycles, and valid such instructions in the
  -- instruction memory as the program has them, whose stores write inside the memory of 2^17 bytes and whose blt
  -- and bge have no operands of `Misjudged`: after the `n` cycles the registers, the memory and the program
  -- counter, as they stand behind what is in flight, are what the instruction set says of `k` instructions of
  -- the program. `k` is at most `n`, and `n` is at most three times `k` plus what the branches in
  -- flight at the start still cost.
  pub cycles-runs :
      (unknown : ℕ) (rom : Ram) (n : ℕ) (old : ℕ → ℕ) (s : Machine)
      → IsReady old s
      → AreSimple unknown rom n s
      → AreWords (view unknown s)
      → Holds rom n (view unknown s)
      → (k : ℕ) × (view unknown (cycles unknown rom n s) ≡ runs k (view unknown s))
        × (k ≤ n)
        × (n ≤ 3 * k + penalty unknown s)
  cycles-runs unknown rom n old s ready simple words h =
      let (k, same, most, least) = cycles-steps unknown rom n old s ready simple in
      (
        k,
        same
            ∙ steps-runs unknown rom k (view unknown s) words
                (Holds-≤ rom k n (view unknown s) most h),
        most,
        least,
      )
