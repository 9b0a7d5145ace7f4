-- ===== src/Testbench/FullProgram/Reset.antt =====
-- The reset of testbench/risc_v/versions/risc_v_full_program_tb.h, on a processor that fetches from 0 with nothing in
-- its first stages: behind it the machine is where one cycle without a reset takes it.
use risc_v_cpu.Base.{ℕ, ◌≡◌, ◌∙◌, refl, ap, false, slice}
use risc_v_cpu.Memory.{Ram}
use risc_v_cpu.Pipeline.{Front, empty_d, bubble, front_edge, pc_edge}
use risc_v_cpu.Processor.{Machine, processor_edge, instr_mem, decode, hazard_in}
use risc_v_cpu.Processor.InOrder.{IsSimple, IsReady, pc_src_e-empty}
use risc_v_cpu.Processor.Cycle.{next-front}
use risc_v_cpu.Processor.StraightLine.{cycle}
use risc_v_cpu.Processor.Branching.Steps.{cycle-IsReady}
use risc_v_cpu.Testbench.RiscV.{rst_falls}
use risc_v_cpu.Testbench.FullProgram.{before_edge, sim_cycle}

rst_falls-pc :
    (s : Machine) (x : ℕ)
    → (rst_falls s).front.pc ≡ x
    → rst_falls s ≡ record s { front = record s.front { pc = x } }
unfolding rst_falls
rst_falls-pc s x e = ap (λ (y : ℕ). record s { front = record s.front { pc = y } }) e

module _ (unknown : ℕ) (rom : Ram) where
  rst_falls-edge :
      (s : Machine) (instr : ℕ)
      → (rst_falls s).front.pc ≡ (processor_edge unknown false instr s).front.pc
  unfolding rst_falls processor_edge front_edge hazard_in
  rst_falls-edge s instr = refl

  module _ (old : ℕ → ℕ) (s : Machine) (ready : IsReady old s)
      (empty : s.front ≡ record { pc = 0; d = empty_d; e = bubble })
      (first : IsSimple (slice (instr_mem rom s.front.pc) 0 7)) where
    abbrev at_0 : Machine
    at_0 = record (cycle unknown rom s) { front = record (cycle unknown rom s).front { pc = 0 } }

    sim_cycle-at_0 : sim_cycle unknown rom 0 s ≡ at_0
    unfolding sim_cycle before_edge cycle processor_edge front_edge pc_edge
    sim_cycle-at_0 = refl

    front_1 : (cycle unknown rom s).front ≡ record {
      pc = 4;
      d = record { instr_d = instr_mem rom 0; pc_d = 0; pc_plus4_d = 4 };
      e = decode s.registers empty_d;
    }
    unfolding cycle
    front_1 =
        next-front old s ready unknown (instr_mem rom s.front.pc)
          (pc_src_e-empty s (ap (λ (f : Front). f.e.op_e) empty))
        ∙ rw empty refl

    at_0-IsReady : IsReady s.registers at_0
    at_0-IsReady =
        let r = cycle-IsReady unknown rom old s ready first in
        record {
          simple_d = r.simple_d;
          simple_e = r.simple_e;
          simple_m = r.simple_m;
          settled = r.settled;
          written = r.written;
          zero = r.zero;
          read_1 = r.read_1;
          read_2 = r.read_2;
        }

    op_1 : at_0.front.e.op_e ≡ 0
    unfolding decode
    op_1 = rw front_1 refl

    pub reset-cycle : rst_falls (sim_cycle unknown rom 0 s) ≡ cycle unknown rom s
    reset-cycle =
        let counter : (rst_falls at_0).front.pc ≡ 4 =
          rst_falls-edge at_0 0
          ∙ ap (λ (f : Front). f.pc)
              (next-front s.registers at_0 at_0-IsReady unknown 0 (pc_src_e-empty at_0 op_1)) in
        ap rst_falls sim_cycle-at_0 ∙ rst_falls-pc at_0 4 counter ∙ rw front_1 refl
