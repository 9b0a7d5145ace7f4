-- ===== src/Processor/Meaning/Progress.antt =====
-- Every instruction of a text is executed by the pipeline of rtl/risc_v.sv, in a bounded number of cycles.
use risc_v_cpu.Base.{ℕ, zero, suc, ◌+◌, ◌*◌, ◌≤◌, ◌≡◌, ◌∙◌, refl, ap, inl, inr, arith}
use risc_v_cpu.Memory.{Ram}
use risc_v_cpu.Processor.{Machine}
use risc_v_cpu.Processor.InOrder.{IsReady}
use risc_v_cpu.Processor.StraightLine.{cycle, cycles}
use risc_v_cpu.Processor.Branching.{InOrder, step, steps, view, penalty, penalty-≤2}
use risc_v_cpu.Processor.Branching.Steps.{cycle-view}
use risc_v_cpu.Processor.Branching.Lag.{held, held-view}
use risc_v_cpu.Processor.Meaning.{Instruction}
use risc_v_cpu.Processor.Meaning.Runs.{AreWords, Holds, runs, steps-runs}
use risc_v_cpu.Processor.Meaning.Text.{
  IsText, IsOnText, next-IsReady, next-IsOnText, text-AreSimple,
}

-- A machine on which the theorems about the pipeline apply.
pub record IsRunning (s : Machine) : Type 0 where
  pub old : ℕ → ℕ
  pub ready : IsReady old s
  pub on_text : IsOnText s

module _ (unknown : ℕ) (rom : Ram) (text : IsText rom) where
  next-IsRunning : (s : Machine) → IsRunning s → IsRunning (cycle unknown rom s)
  next-IsRunning s r = record {
    old = s.registers;
    ready = next-IsReady unknown rom text r.old s r.ready r.on_text;
    on_text = next-IsOnText unknown rom text r.old s r.ready r.on_text;
  }

  -- The cycles of one step in order, those that pay for a branch first.
  abbrev StepsOnce : Machine → ℕ → Type 0
  StepsOnce s n =
      (view unknown (cycles unknown rom n s) ≡ step unknown rom (view unknown s))
      × (n ≤ penalty unknown s + 1)
      × (1 ≤ n)
      × IsRunning (cycles unknown rom n s)

  next_step : (p : ℕ) (s : Machine) → IsRunning s → penalty unknown s ≡ p → (n : ℕ) × StepsOnce s n
  unfolding cycles
  next_step zero s r here = elim (cycle-view r.old s r.ready unknown rom) [
    | inl (moved, free) ↦ (1, (moved, omega arith, omega arith, next-IsRunning s r))
    | inr (stayed, paid) ↦ absurd (omega arith)
  ]
  next_step (suc p) s r here = elim (cycle-view r.old s r.ready unknown rom) [
    | inl (moved, free) ↦ absurd (omega arith)
    | inr (stayed, paid) ↦
        let (n, (moved, few, some_cycle, running)) =
          next_step p (cycle unknown rom s) (next-IsRunning s r) (omega arith) in
        (suc n, (moved ∙ ap (step unknown rom) stayed, omega arith, omega arith, running))
  ]

  cycles_add :
      (m n : ℕ) (s : Machine)
      → cycles unknown rom (m + n) s ≡ cycles unknown rom n (cycles unknown rom m s)
  unfolding cycles
  cycles_add zero n s = let e : 0 + n ≡ n = omega arith in rw e refl
  cycles_add (suc m) n s =
      let e : suc m + n ≡ suc (m + n) = omega arith in rw e (cycles_add m n (cycle unknown rom s))

  reaches :
      (k : ℕ) (s : Machine)
      → IsRunning s
      → (n : ℕ) × (view unknown (cycles unknown rom n s) ≡ steps unknown rom k (view unknown s))
        × (k ≤ n)
        × (n ≤ 3 * k + penalty unknown s)
  unfolding cycles steps
  reaches zero s r = (0, refl, omega arith, omega arith)
  reaches (suc k) s r =
      let (m, (moved, few, some_cycle, running)) = next_step (penalty unknown s) s r refl in
      let after = cycles unknown rom m s in
      let (n, same, less, enough) = reaches k after running in
      let bound = penalty-≤2 unknown after in
      (m + n, rw (cycles_add m n s) same ∙ ap (steps unknown rom k) moved, omega arith, omega arith)

  cycles-IsRunning : (n : ℕ) (s : Machine) → IsRunning s → IsRunning (cycles unknown rom n s)
  unfolding cycles
  cycles-IsRunning zero s r = r
  cycles-IsRunning (suc n) s r = cycles-IsRunning n (cycle unknown rom s) (next-IsRunning s r)

  -- What is in flight reaches the registers and the memory three cycles later.
  pub held-later :
      (n : ℕ) (s : Machine)
      → IsRunning s
      → held (cycles unknown rom (n + 3) s) ≡ (view unknown (cycles unknown rom n s)).state
  held-later n s r =
      let there = cycles-IsRunning n s r in
      rw (cycles_add n 3 s) (
        held-view there.old (cycles unknown rom n s) unknown rom there.ready (
          text-AreSimple unknown rom text 2 there.old (cycles unknown rom n s) there.ready
            there.on_text))

  -- With an instruction memory that holds at each multiple of 4 of the address space a valid instruction of arithmetic,
  -- `jal`, a conditional branch or a store, those that branch by a multiple of 4, or the word 0, from a
  -- ready state on it whose registers, as they stand behind what is in flight, are words: for every
  -- number `k` of instructions of a program that the memory holds where it runs, whose stores write inside
  -- the memory of 2^17 bytes and whose blt and bge have no operands of `Misjudged`, there is a number
  -- of cycles after which the registers, the memory and the program counter, as they stand behind
  -- what is in flight, and three cycles later the registers and the memory themselves, are what the
  -- instruction set says of these instructions. The number is at least `k`, and at most three times `k`
  -- plus what the branches in flight at the start still cost.
  pub reaches-runs :
      (program : ℕ → Instruction) (k : ℕ) (s : Machine)
      → IsRunning s
      → AreWords (view unknown s)
      → Holds program rom k (view unknown s)
      → (n : ℕ) × (view unknown (cycles unknown rom n s) ≡ runs program k (view unknown s))
        × (held (cycles unknown rom (n + 3) s) ≡ (runs program k (view unknown s)).state)
        × (k ≤ n)
        × (n ≤ 3 * k + penalty unknown s)
  reaches-runs program k s r words h =
      let (n, same, less, enough) = reaches k s r in
      let reached = same ∙ steps-runs program unknown rom k (view unknown s) words h in
      (n, reached, held-later n s r ∙ ap (λ (q : InOrder). q.state) reached, less, enough)
