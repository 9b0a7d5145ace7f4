-- ===== src/Pipeline.antt =====
-- The pipeline around the hazard unit, in rtl/: pc/pc.sv, reg_file/reg_file.sv, reg_file_d/reg_file_d.sv,
-- reg_file_e/reg_file_e.sv, and the multiplexers of risc_v.sv. Each `_edge` function is a clocked
-- block: the state after the edge. `en` is the port EN, which holds the register when it is set.
pub mod Laws
use risc_v_cpu.Hazard.{HazardIn, HazardOut, hazard_unit}
use risc_v_cpu.Base.{ℕ, ◌+◌, Bool, true, false, not, ◌&&◌, ◌==◌, if◌then◌else◌, bit, add32}

-- reg_file.sv, written at the falling edge.
unfoldable pub reg_file_edge : Bool → ℕ → ℕ → (ℕ → ℕ) → ℕ → ℕ
reg_file_edge we3 a3 wd3 registers a = if we3 && not (a3 == 0) && a3 == a then wd3 else registers a

-- `SrcA` and `WriteDataE`.
unfoldable pub operand : ℕ → ℕ → ℕ → ℕ → ℕ
operand forward alu_result_m result_w rd_e =
    if bit forward 1 then alu_result_m else if bit forward 0 then result_w else rd_e

unfoldable pub pc_edge : Bool → Bool → ℕ → ℕ → ℕ
pc_edge rst en pc_next pc = if rst then 0 else if en then pc else pc_next

pub record StageD : Type 0 where
  pub instr_d : ℕ
  pub pc_d : ℕ
  pub pc_plus4_d : ℕ

abbrev pub empty_d : StageD
empty_d = record { instr_d = 0; pc_d = 0; pc_plus4_d = 0 }

unfoldable pub reg_file_d_edge : Bool → Bool → StageD → StageD → StageD
reg_file_d_edge clr en fetched d = if clr then empty_d else if en then d else fetched

pub record StageE : Type 0 where
  pub reg_write_e : Bool
  pub result_src_e : ℕ
  pub mem_write_e : Bool
  pub mem_read_e : Bool
  pub jump_e : Bool
  pub branch_e : Bool
  pub alu_control_e : ℕ
  pub alu_src_e : Bool
  pub rd1_e : ℕ
  pub rd2_e : ℕ
  pub pc_e : ℕ
  pub rs1_e : ℕ
  pub rs2_e : ℕ
  pub rd_e : ℕ
  pub imm_ext_e : ℕ
  pub pc_plus4_e : ℕ
  pub funct3_e : ℕ
  pub op_e : ℕ

abbrev pub bubble : StageE
bubble = record {
  reg_write_e = false;
  result_src_e = 0;
  mem_write_e = false;
  mem_read_e = false;
  jump_e = false;
  branch_e = false;
  alu_control_e = 0;
  alu_src_e = false;
  rd1_e = 0;
  rd2_e = 0;
  pc_e = 0;
  rs1_e = 0;
  rs2_e = 0;
  rd_e = 0;
  imm_ext_e = 0;
  pc_plus4_e = 0;
  funct3_e = 0;
  op_e = 0;
}

unfoldable pub reg_file_e_edge : Bool → Bool → StageE → StageE → StageE
reg_file_e_edge clr en decoded e = if clr then bubble else if en then e else decoded

-- `PCTargetE` and `PCNextF`.
unfoldable pub pc_next : Bool → StageE → ℕ → ℕ
pc_next pc_src_e e pc =
    if pc_src_e then add32 (if e.jump_e then e.rd1_e else e.pc_e) e.imm_ext_e else add32 pc 4

-- The clock edge of the first three stages, connected as in risc_v.sv: `instr` is the instruction
-- that is fetched at `pc`, and `decoded` is what stage D hands to stage E.
pub record Front : Type 0 where
  pub pc : ℕ
  pub d : StageD
  pub e : StageE

unfoldable pub front_edge : Bool → HazardIn → ℕ → StageE → Front → Front
unfolding hazard_unit pc_edge pc_next reg_file_d_edge reg_file_e_edge
front_edge rst i instr decoded s =
    let o = hazard_unit i in
    let fetched : StageD = record { instr_d = instr; pc_d = s.pc; pc_plus4_d = add32 s.pc 4 } in
    record {
      pc = pc_edge rst o.stall_f (pc_next i.pc_src_e s.e s.pc) s.pc;
      d = reg_file_d_edge o.flush_d o.stall_d fetched s.d;
      e = reg_file_e_edge o.flush_e o.stall_e decoded s.e;
    }
