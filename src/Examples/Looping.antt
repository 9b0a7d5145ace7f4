-- ===== src/Examples/Looping.antt =====
-- A program with a store and a loop on the processor of rtl/risc_v.sv.
use risc_v_cpu.Base.{
  ◌^◌, ◌-◌, sym, arith, slice, ◌/◌, ◌%◌, ℕ, ◌+◌, ◌*◌, ◌≤◌, ◌≡◌, inl, inr, refl, ◌==◌, if◌then◌else◌,
}
use risc_v_cpu.Memory.{Ram, we_decoder, data_mem_write}
use risc_v_cpu.Pipeline.{front_edge, operand, bubble, empty_d, reg_file_edge}
use risc_v_cpu.Processor.{
  Machine, instr_mem, processor_edge, hazard_in, pc_src_e, pc_src_of, src_a, write_data_e, alu_of,
  decode, reg_file_m_edge, execute, reg_file_w_edge, leave_m,
}
use risc_v_cpu.SignExtend.{sign_extend}
use risc_v_cpu.Alu.{alu}
use risc_v_cpu.Flags.{pc_src}
use risc_v_cpu.ControlUnit.{control_unit}
use risc_v_cpu.Hazard.{hazard_unit, lwstall, forward}
use risc_v_cpu.Processor.InOrder.{IsPlain}
use mathlib.Core.Path.{subst}
use risc_v_cpu.Processor.InOrder.{retire_m}
use risc_v_cpu.Processor.Branching.{InOrder, view, penalty, behind_e-empty}
use risc_v_cpu.Processor.Visible.{commit_m, store_m}
use risc_v_cpu.ControlUnit.Execute.{add}
use risc_v_cpu.Processor.Meaning.{Instruction, IsValid, immediate, store, jal, meaning}
use risc_v_cpu.Processor.Manual.{updated, store_size}
use risc_v_cpu.Processor.Meaning.Runs.{AreWords, Holds, runs, cycles-runs}
use risc_v_cpu.Processor.Branching.Steps.{AreSimple}
use risc_v_cpu.Processor.StraightLine.{cycle, cycles}
use risc_v_cpu.Examples.Machine.{power_on, at-IsReady, add-sub}

-- `addi x1, x0, 8`, `sw x1, 64(x0)`, and `jal x2, -8`, which goes back to the first.
abbrev words : ℕ → ℕ
words a =
    if a == 0 then 0x00800093 else if a == 1 then 0x04102023 else if a == 2 then 0xFF9FF16F else 0

abbrev looping : Ram
looping a = slice (words (a / 4)) (a % 4 * 8) 8

abbrev pub at_zero : Machine
at_zero = record power_on { front = record { pc = 0; d = empty_d; e = bubble } }

abbrev zero_op : IsPlain 0
zero_op = inr (inr (inr refl))

looping-AreSimple : AreSimple 0 looping 6 at_zero
unfolding cycle instr_mem processor_edge front_edge hazard_in hazard_unit lwstall pc_src forward
    operand pc_src_e pc_src_of src_a write_data_e alu_of alu decode control_unit reg_file_m_edge
    execute reg_file_w_edge leave_m reg_file_edge sign_extend
looping-AreSimple = (
  inl (inr (inl refl)),
  (
    inr (inr (inl refl)),
    (inr (inr (inr refl)), (inl zero_op, (inl zero_op, (inl (inr (inl refl)), tt)))),
  ),
)

abbrev loop : ℕ → Instruction
loop a =
    if a == 0 then immediate add 1 0 8 else if a == 4 then store 2 0 1 64 else jal 2 (2 ^ 32 - 8)

abbrev pub start : InOrder
start = record { counter = 0; state = record { file = λ r. 0; memory = at_zero.ram } }

pub at_zero-view : view 0 at_zero ≡ start
unfolding view commit_m retire_m reg_file_edge store_m we_decoder data_mem_write
at_zero-view = behind_e-empty 0 (record { file = λ r. 0; memory = at_zero.ram }) 0

abbrev addi_valid : IsValid (immediate add 1 0 8)
addi_valid = (omega arith, omega arith, inl (omega arith), add-sub, inl refl)

abbrev sw_valid : IsValid (store 2 0 1 64)
sw_valid = (omega arith, omega arith, omega arith, inl (omega arith))

abbrev jal_valid : IsValid (jal 2 (2 ^ 32 - 8))
jal_valid = (omega arith, inr (omega arith, omega arith), omega arith)

start-Holds : Holds loop looping 6 start
unfolding meaning instr_mem updated store_size
start-Holds = (
  refl,
  addi_valid,
  tt,
  (
    refl,
    sw_valid,
    omega arith,
    (
      refl,
      jal_valid,
      tt,
      (refl, addi_valid, tt, (refl, sw_valid, omega arith, (refl, jal_valid, tt, tt))),
    ),
  ),
)

cycles-runs_example :
    (k : ℕ) × (view 0 (cycles 0 looping 6 at_zero) ≡ runs loop k (view 0 at_zero))
    × (k ≤ 6)
    × (6 ≤ 3 * k + penalty 0 at_zero)
cycles-runs_example =
    cycles-runs loop 0 looping 6 (λ r. 0) at_zero (at-IsReady 0) looping-AreSimple
      (subst AreWords (sym at_zero-view) (λ r. omega arith))
      (subst (Holds loop looping 6) (sym at_zero-view) start-Holds)
