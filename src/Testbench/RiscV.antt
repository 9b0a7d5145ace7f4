-- ===== src/Testbench/RiscV.antt =====
-- testbench/risc_v/versions/risc_v_single_instructions.h: the fixture that resets the processor, runs its clock
-- and looks at a register or at the program counter, and what a test is.
pub mod Tests
pub mod Early
use risc_v_cpu.Base.{ℕ, zero, suc, Bool, true, false, ◌&&◌, ◌==◌, List, [], ◌∷◌}
use risc_v_cpu.Memory.{Ram}
use risc_v_cpu.Hazard.{HazardOut, hazard_unit}
use risc_v_cpu.Pipeline.{pc_edge, pc_next}
use risc_v_cpu.Processor.{Machine, hazard_in, pc_src_e, instr_mem, processor_edge}
use risc_v_cpu.Processor.StraightLine.{cycle, cycles}

-- `RiscVRegisters`, as far as the tests name them.
abbrev pub a0 : ℕ
a0 = 10

abbrev pub a1 : ℕ
a1 = 11

abbrev pub a2 : ℕ
a2 = 12

abbrev pub a3 : ℕ
a3 = 13

-- The calls of a test: `n_clock_ticks`, `assert_reg`, and an expectation of `pc_viewer`.
pub data Action : Type 0 where
  ticks : ℕ → Action
  assert_reg : ℕ → ℕ → Action
  expect_pc : ℕ → Action

-- The loop of a test over its first expected results: ticks, an assertion, ticks.
unfoldable pub loop : ℕ → ℕ → ℕ → ℕ → List ℕ → List Action
loop zero before r after values = []
loop (suc n) before r after [] = []
loop (suc n) before r after (v ∷ values) =
    ticks before ∷ assert_reg r v ∷ ticks after ∷ loop n before r after values

-- RST goes low: the block of pc.sv runs at that edge too, with RST at 0.
unfoldable pub rst_falls : Machine → Machine
rst_falls s =
    let b = pc_src_e s in
    let o = hazard_unit (hazard_in b s) in
    let next = pc_next b s.front.e s.front.pc in
    record s { front = record s.front { pc = pc_edge false o.stall_f next s.front.pc } }

module _ (unknown : ℕ) (rom : Ram) where
  unfoldable pub reset : Machine → Machine
  reset s = rst_falls (processor_edge unknown true (instr_mem rom s.front.pc) s)

  -- Whether every assertion holds.
  unfoldable pub holds : List Action → Machine → Bool
  holds [] s = true
  holds (ticks n ∷ rest) s = holds rest (cycles unknown rom n s)
  holds (assert_reg r v ∷ rest) s = s.registers r == v && holds rest s
  holds (expect_pc v ∷ rest) s = s.front.pc == v && holds rest s

  unfoldable pub passes : List Action → Machine → Bool
  passes test s = holds test (reset s)
