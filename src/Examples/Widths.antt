-- ===== src/Examples/Widths.antt =====
-- The widths of the buses of rtl/risc_v.sv on a concrete state.
use risc_v_cpu.Base.{true, false, [], ◌∷◌, arith}
use risc_v_cpu.Processor.Registers.{edges}
use risc_v_cpu.Processor.Widths.{FitsBuses}
use risc_v_cpu.Processor.Widths.Stages.{empty_d-Fits, bubble-Fits}
use risc_v_cpu.Processor.Widths.Edge.{edges-FitsBuses}
use risc_v_cpu.Examples.Machine.{power_on}

power_on-FitsBuses : FitsBuses power_on
power_on-FitsBuses = record {
  pc_fits = omega arith;
  d_fits = empty_d-Fits;
  e_fits = bubble-Fits;
  m_fits = record {
    result_src_fits = omega arith;
    alu_result_fits = omega arith;
    write_data_fits = omega arith;
    rd_fits = omega arith;
    pc_plus4_fits = omega arith;
    funct3_fits = omega arith;
  };
  w_fits = record {
    result_src_fits = omega arith;
    alu_result_fits = omega arith;
    read_data_fits = omega arith;
    rd_fits = omega arith;
    pc_plus4_fits = omega arith;
    funct3_fits = omega arith;
  };
  registers_fit = λ r. omega arith;
  ram_fits = λ a. omega arith;
  cache_fits = record {
    blocks_fit = λ i. record { tag_fits = omega arith; word_fits = omega arith };
    a_tag_fits = omega arith;
    a_set_fits = omega arith;
  };
}

-- A reset, then `addi x1, x0, -1` and `sw x1, 64(x0)`.
edges-FitsBuses_example :
    FitsBuses (edges 255 ((true, 0) ∷ ((false, 0xFFF00093) ∷ ((false, 0x04102023) ∷ []))) power_on)
edges-FitsBuses_example =
    edges-FitsBuses 255 (omega arith)
      ((true, 0) ∷ ((false, 0xFFF00093) ∷ ((false, 0x04102023) ∷ []))) power_on
      (omega arith, (omega arith, (omega arith, tt))) power_on-FitsBuses
