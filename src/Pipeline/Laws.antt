-- ===== src/Pipeline/Laws.antt =====
-- Forwarding against an in-order register file, and what the front of the pipeline does on a hazard.
use risc_v_cpu.Base.{ℕ, Bool, false, not, ◌&&◌, ◌≡◌, arith, if◌then◌else◌, add32}
use risc_v_cpu.Hazard.{HazardIn, forward, hazard_unit, lwstall}
use risc_v_cpu.Pipeline.{
  reg_file_edge, operand, pc_edge, reg_file_d_edge, StageE, bubble, empty_d, reg_file_e_edge,
  pc_next, Front, front_edge,
}

-- An operand that is read through the forwarding multiplexer is the register of the file in which
-- the older instruction, in stage W, and then the younger one, in stage M, have been written. The
-- file never holds a write of register 0.
pub operand-forward :
    (registers : ℕ → ℕ) (rs rd_m rd_w v_m v_w : ℕ) (we_m we_w : Bool)
    → operand (forward rd_m rs rd_w we_m we_w) v_m v_w (registers rs)
      ≡ reg_file_edge we_m rd_m v_m (reg_file_edge we_w rd_w v_w registers) rs
unfolding operand forward reg_file_edge
operand-forward registers rs rd_m rd_w v_m v_w we_m we_w = ground arith

-- With no load in stage E that stage D waits for and no miss in stage M, a taken branch sends the
-- fetch to its target and clears the two younger instructions; otherwise each stage takes over its
-- predecessor's instruction and the program counter moves on by 4.
pub front_edge-running :
    (i : HazardIn) (instr : ℕ) (decoded : StageE) (s : Front)
    → lwstall i.rd_e i.rs1_d i.rs2_d i.result_src_e0 ≡ false
    → (i.mem_read_m && not i.hit_m) ≡ false
    → front_edge false i instr decoded s ≡ (
        if i.pc_src_e
        then record {
          pc = add32 (if s.e.jump_e then s.e.rd1_e else s.e.pc_e) s.e.imm_ext_e;
          d = empty_d;
          e = bubble;
        }
        else record {
          pc = add32 s.pc 4;
          d = record { instr_d = instr; pc_d = s.pc; pc_plus4_d = add32 s.pc 4 };
          e = decoded;
        })
unfolding front_edge hazard_unit pc_edge pc_next reg_file_d_edge reg_file_e_edge
front_edge-running i instr decoded s no_load no_miss = ground arith
