-- ===== src/Testbench/RiscV/Early.antt =====
-- The tests of single instructions are timed for one instruction a cycle.
use risc_v_cpu.Base.{
  ℕ, zero, suc, ◌+◌, ◌≤◌, ◌≡◌, ◌∙◌, refl, ap, Bool, true, false, ◌&&◌, ◌==◌, List, [], ◌∷◌, arith,
  not, ◌||◌, leb, ◌-◌,
}
use mathlib.Core.Path.{subst}
use risc_v_cpu.Memory.{Ram}
use risc_v_cpu.Processor.{Machine, instr_mem}
use risc_v_cpu.Processor.StraightLine.{cycle, cycles}
use risc_v_cpu.Processor.Registers.{Quiet, edge-Quiet}
use risc_v_cpu.Testbench.RiscV.Tests.{early_tests}
use risc_v_cpu.Testbench.RiscV.{
  Action, ticks, assert_reg, expect_pc, rst_falls, reset, holds, passes,
}

-- The test looks for a value other than 0 in a register before more than `b` ticks have passed.
unfoldable pub early : ℕ → List Action → Bool
early b [] = false
early b (ticks n ∷ rest) = leb n b && early (b - n) rest
early b (assert_reg r v ∷ rest) = not (v == 0) || early b rest
early b (expect_pc v ∷ rest) = early b rest

-- A processor that has just been switched on: the stages are empty and all registers are 0.
pub record IsPoweredOn (s : Machine) : Type 0 where
  pub quiet : Quiet 3 s
  pub clear : (r : ℕ) → s.registers r ≡ 0

module _ (unknown : ℕ) (rom : Ram) where
  cycles-Quiet :
      (k c b : ℕ) (s : Machine)
      → b ≡ k + c
      → Quiet b s
      → Quiet c (cycles unknown rom k s) × ((cycles unknown rom k s).registers ≡ s.registers)
  unfolding cycles cycle
  cycles-Quiet zero c b s e h = (subst (λ n. Quiet n s) (e ∙ omega arith) h, refl)
  cycles-Quiet (suc k) c zero s e h = absurd (omega arith)
  cycles-Quiet (suc k) c (suc b) s e h =
      let (quiet, same) = edge-Quiet unknown b false (instr_mem rom s.front.pc) s h in
      let (later, same') = cycles-Quiet k c b (cycle unknown rom s) (omega arith) quiet in
      (later, same' ∙ same)

  holds-early :
      (t : List Action) (b : ℕ) (s : Machine)
      → Quiet b s
      → ((r : ℕ) → s.registers r ≡ 0)
      → early b t ≡ true
      → holds unknown rom t s ≡ false
  unfolding holds early
  holds-early [] b s quiet clear h = cc
  holds-early (ticks n ∷ rest) b s quiet clear h =
      let le : n ≤ b = ground arith in
      let (later, same) = cycles-Quiet n (b - n) b s (omega arith) quiet in
      holds-early rest (b - n) (cycles unknown rom n s) later
        (λ r. ap (λ (f : ℕ → ℕ). f r) same ∙ clear r) (ground arith)
  holds-early (assert_reg r v ∷ rest) b s quiet clear h =
      let ih = holds-early rest b s quiet clear in ground (arith, clear r, ih)
  holds-early (expect_pc v ∷ rest) b s quiet clear h =
      let ih = holds-early rest b s quiet clear h in ground (arith, ih)

  reset-Quiet :
      (s : Machine)
      → Quiet 3 s
      → Quiet 2 (reset unknown rom s) × ((reset unknown rom s).registers ≡ s.registers)
  unfolding reset rst_falls
  reset-Quiet s quiet = edge-Quiet unknown 2 true (instr_mem rom s.front.pc) s quiet

pub data Listed (t : List Action) : List (List Action) → Type 0 where
  here : {ts : List (List Action)} → Listed t (t ∷ ts)
  there : {u : List Action} {ts : List (List Action)} → Listed t ts → Listed t (u ∷ ts)

all_early : List (List Action) → Bool
all_early [] = true
all_early (t ∷ ts) = early 2 t && all_early ts

early-Listed :
    (t : List Action) (ts : List (List Action))
    → Listed t ts
    → all_early ts ≡ true
    → early 2 t ≡ true
unfolding all_early
early-Listed t [] l h = elim l [ ]
early-Listed t (u ∷ ts) here h = ground arith
early-Listed t (u ∷ ts) (there l) h = early-Listed t ts l (ground arith)

early_tests-early : all_early early_tests ≡ true
unfolding all_early early early_tests
early_tests-early = refl

-- Each test of `early_tests` fails on the pipelined processor from power-on, whatever program is
-- in the instruction memory: it asks for a result before an instruction can have written one.
pub early_tests-fail :
    (t : List Action) (unknown : ℕ) (rom : Ram) (s : Machine)
    → Listed t early_tests
    → IsPoweredOn s
    → passes unknown rom t s ≡ false
unfolding passes
early_tests-fail t unknown rom s l on =
    let (quiet, same) = reset-Quiet unknown rom s on.quiet in
    holds-early unknown rom t 2 (reset unknown rom s) quiet
      (λ r. ap (λ (f : ℕ → ℕ). f r) same ∙ on.clear r)
      (early-Listed t early_tests l early_tests-early)
