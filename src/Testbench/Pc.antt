-- ===== src/Testbench/Pc.antt =====
-- testbench/pc/pc_tb.cpp: the two tests of rtl/pc/pc.sv. They set the one-bit clock to 4, and neither the first clock level nor
-- EN is set: what the simulator takes for a rising edge, and the ports behind the first `eval`, are arguments.
use risc_v_cpu.Base.{ℕ, Bool, true, false, not, ◌&&◌, ◌||◌, ◌==◌, if◌then◌else◌}
use risc_v_cpu.Pipeline.{pc_edge}

-- The ports of the instance.
pub record Ports : Type 0 where
  pub clk : ℕ
  pub rst : Bool
  pub en : Bool
  pub pc : ℕ

-- `rising` says of two levels of CLK in a row whether there is a positive edge between them.
module _ (rising : ℕ → ℕ → Bool) where
  -- CLK, RST and PCNext are set, and `eval` runs the block at a positive edge of CLK or a negative one of RST.
  unfoldable pub eval : ℕ → Bool → ℕ → Ports → Ports
  eval clk rst pc_next p = record p {
    clk = clk;
    rst = rst;
    pc = if rising p.clk clk || (p.rst && not rst) then pc_edge rst p.en pc_next p.pc else p.pc;
  }

  unfoldable pub incr_test : Ports → Bool
  unfolding eval
  incr_test p = (eval 4 false 8 p).pc == 8

  unfoldable pub res_test : Ports → Bool
  unfolding eval
  res_test p = (eval 4 true 8 p).pc == 0
