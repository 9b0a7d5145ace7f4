-- ===== src/Processor/Widths.antt =====
-- The widths of the buses of rtl/risc_v.sv: each register of the pipeline, of the register file, of the cache and of
-- the memory holds a value that fits the width it is declared with.
pub mod Stages
pub mod Edge
use risc_v_cpu.Base.{
  ℕ, ◌^◌, ◌<◌, ◌≤◌, Bool, true, false, ◌≡◌, refl, IsWord, bit, slice, add32, if◌then◌else◌, arith,
  Bool-cases, inl, inr,
}
use risc_v_cpu.Alu.Shift.{result-IsWord}
use risc_v_cpu.ControlUnit.{control_unit, main_decoder, alu_decoder}
use risc_v_cpu.SignExtend.{sign_extend}
use risc_v_cpu.Memory.{Ram, Enables, data_mem_write, data_mem_read, ld_decoder}
use risc_v_cpu.Cache.{Block, Cache, cache_edge, cache_out}
use risc_v_cpu.Pipeline.{StageD, StageE, Front, bubble, empty_d, operand, reg_file_edge}
use risc_v_cpu.Processor.{
  StageM, StageW, Machine, decode, execute, alu_of, result_w, read_data_m, leave_m,
}

-- A number of the width.
abbrev pub Fits : ℕ → ℕ → Type 0
Fits width x = x < 2 ^ width

pub record FitsD (d : StageD) : Type 0 where
  pub instr_fits : Fits 32 d.instr_d
  pub pc_fits : Fits 32 d.pc_d
  pub pc_plus4_fits : Fits 32 d.pc_plus4_d

pub record FitsE (e : StageE) : Type 0 where
  pub result_src_fits : Fits 2 e.result_src_e
  pub alu_control_fits : Fits 4 e.alu_control_e
  pub rd1_fits : Fits 32 e.rd1_e
  pub rd2_fits : Fits 32 e.rd2_e
  pub pc_fits : Fits 32 e.pc_e
  pub rs1_fits : Fits 5 e.rs1_e
  pub rs2_fits : Fits 5 e.rs2_e
  pub rd_fits : Fits 5 e.rd_e
  pub imm_ext_fits : Fits 32 e.imm_ext_e
  pub pc_plus4_fits : Fits 32 e.pc_plus4_e
  pub funct3_fits : Fits 3 e.funct3_e
  pub op_fits : Fits 7 e.op_e

pub record FitsM (m : StageM) : Type 0 where
  pub result_src_fits : Fits 2 m.result_src_m
  pub alu_result_fits : Fits 32 m.alu_result_m
  pub write_data_fits : Fits 32 m.write_data_m
  pub rd_fits : Fits 5 m.rd_m
  pub pc_plus4_fits : Fits 32 m.pc_plus4_m
  pub funct3_fits : Fits 3 m.funct3_m

pub record FitsW (w : StageW) : Type 0 where
  pub result_src_fits : Fits 2 w.result_src_w
  pub alu_result_fits : Fits 32 w.alu_result_w
  pub read_data_fits : Fits 32 w.read_data_w
  pub rd_fits : Fits 5 w.rd_w
  pub pc_plus4_fits : Fits 32 w.pc_plus4_w
  pub funct3_fits : Fits 3 w.funct3_w

pub record FitsBlock (b : Block) : Type 0 where
  pub tag_fits : Fits 12 b.tag
  pub word_fits : Fits 32 b.word

pub record FitsCache (c : Cache) : Type 0 where
  pub blocks_fit : (i : ℕ) → FitsBlock (c.blocks i)
  pub a_tag_fits : Fits 12 c.a_tag
  pub a_set_fits : Fits 3 c.a_set

pub record FitsBuses (s : Machine) : Type 0 where
  pub pc_fits : Fits 32 s.front.pc
  pub d_fits : FitsD s.front.d
  pub e_fits : FitsE s.front.e
  pub m_fits : FitsM s.m
  pub w_fits : FitsW s.w
  pub registers_fit : (r : ℕ) → Fits 32 (s.registers r)
  pub ram_fits : (a : ℕ) → Fits 8 (s.ram a)
  pub cache_fits : FitsCache s.cache

pub sign_extend-Fits : (instr imm_src : ℕ) → Fits 32 instr → Fits 32 (sign_extend instr imm_src)
unfolding sign_extend
sign_extend-Fits instr imm_src fits = ground arith

pub result_src-Fits :
    (op funct3 : ℕ) (funct7_5 : Bool) → Fits 2 (control_unit op funct3 funct7_5).result_src
unfolding control_unit
result_src-Fits op funct3 funct7_5 = ground arith

pub alu_control-Fits :
    (op funct3 : ℕ) (funct7_5 : Bool) → Fits 4 (control_unit op funct3 funct7_5).alu_control
unfolding control_unit
alu_control-Fits op funct3 funct7_5 = ground arith

pub ld_decoder-Fits : (rd funct3 : ℕ) → Fits 32 rd → Fits 32 (ld_decoder rd funct3)
unfolding ld_decoder
ld_decoder-Fits rd funct3 fits = ground arith

pub reg_file-Fits :
    (we3 : Bool) (a3 wd3 : ℕ) (registers : ℕ → ℕ)
    → Fits 32 wd3
    → ((r : ℕ) → Fits 32 (registers r))
    → (r : ℕ) → Fits 32 (reg_file_edge we3 a3 wd3 registers r)
unfolding reg_file_edge
reg_file-Fits we3 a3 wd3 registers word fit r = ground (arith, fit r)

pub operand-Fits :
    (forward alu_result result rd : ℕ)
    → Fits 32 alu_result
    → Fits 32 result
    → Fits 32 rd
    → Fits 32 (operand forward alu_result result rd)
unfolding operand
operand-Fits forward alu_result result rd a b c = ground arith
