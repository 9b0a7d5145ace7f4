-- ===== src/Processor.antt =====
-- rtl/risc_v.sv: the five stages with the hazard unit, the register file, the cache and the memories, with
-- rtl/reg_file_m/reg_file_m.sv, rtl/reg_file_w/reg_file_w.sv and rtl/instr_mem/instr_mem.sv.
pub mod InOrder
pub mod Manual
pub mod Visible
pub mod Cycle
pub mod StraightLine
pub mod Branching
pub mod Registers
pub mod Load
pub mod Jump
pub mod Meaning
pub mod Widths
pub mod Instructions
use risc_v_cpu.Base.{
  ℕ, ◌+◌, ◌-◌, ◌*◌, ◌^◌, Bool, true, false, ◌&&◌, leb, if◌then◌else◌, bit, slice, add32,
}
use risc_v_cpu.Alu.{AluOut, alu}
use risc_v_cpu.Flags.{pc_src}
use risc_v_cpu.ControlUnit.{control_unit}
use risc_v_cpu.SignExtend.{sign_extend}
use risc_v_cpu.Hazard.{HazardIn, HazardOut, hazard_unit}
use risc_v_cpu.Memory.{Ram, we_decoder, ld_decoder, data_mem_write, data_mem_read}
use risc_v_cpu.Cache.{Cache, cache_edge, cache_out}
use risc_v_cpu.Pipeline.{StageD, StageE, Front, front_edge, operand, reg_file_edge}

pub record StageM : Type 0 where
  pub reg_write_m : Bool
  pub result_src_m : ℕ
  pub mem_write_m : Bool
  pub mem_read_m : Bool
  pub alu_result_m : ℕ
  pub write_data_m : ℕ
  pub rd_m : ℕ
  pub pc_plus4_m : ℕ
  pub funct3_m : ℕ

pub record StageW : Type 0 where
  pub reg_write_w : Bool
  pub result_src_w : ℕ
  pub alu_result_w : ℕ
  pub read_data_w : ℕ
  pub rd_w : ℕ
  pub pc_plus4_w : ℕ
  pub funct3_w : ℕ

-- `en` holds the register when it is set.
unfoldable pub reg_file_m_edge : Bool → StageM → StageM → StageM
reg_file_m_edge en e m = if en then m else e

unfoldable pub reg_file_w_edge : Bool → StageW → StageW → StageW
reg_file_w_edge en m w = if en then w else m

-- The state before a rising edge.
pub record Machine : Type 0 where
  pub front : Front
  pub m : StageM
  pub w : StageW
  pub registers : ℕ → ℕ
  pub ram : Ram
  pub cache : Cache

-- What stage D hands to stage E.
unfoldable pub decode : (ℕ → ℕ) → StageD → StageE
decode registers d =
    let op = slice d.instr_d 0 7 in
    let funct3 = slice d.instr_d 12 3 in
    let a1 = slice d.instr_d 15 5 in
    let a2 = slice d.instr_d 20 5 in
    let o = control_unit op funct3 (bit d.instr_d 30) in
    record {
      reg_write_e = o.reg_write;
      result_src_e = o.result_src;
      mem_write_e = o.mem_write;
      mem_read_e = o.mem_read;
      jump_e = o.jump;
      branch_e = o.branch;
      alu_control_e = o.alu_control;
      alu_src_e = o.alu_src;
      rd1_e = registers a1;
      rd2_e = registers a2;
      pc_e = d.pc_d;
      rs1_e = a1;
      rs2_e = a2;
      rd_e = slice d.instr_d 7 5;
      imm_ext_e = sign_extend d.instr_d o.imm_src;
      pc_plus4_e = d.pc_plus4_d;
      funct3_e = funct3;
      op_e = op;
    }

-- `ResultW`.
unfoldable pub result_w : StageW → ℕ
result_w w =
    if bit w.result_src_w 1
    then w.pc_plus4_w
    else if bit w.result_src_w 0
    then w.read_data_w
    else w.alu_result_w

-- Stage E with its two forwarded operands: the flags and result, and what enters stage M.
unfoldable pub alu_of : ℕ → ℕ → StageE → AluOut
alu_of src_a write_data e =
    alu e.alu_control_e src_a (if e.alu_src_e then e.imm_ext_e else write_data)

unfoldable pub pc_src_of : AluOut → StageE → Bool
pc_src_of o e = pc_src o.zero_flag o.n o.c o.v e.branch_e e.op_e e.funct3_e

unfoldable pub execute : ℕ → ℕ → StageE → StageM
unfolding alu_of
execute src_a write_data e = record {
  reg_write_m = e.reg_write_e;
  result_src_m = e.result_src_e;
  mem_write_m = e.mem_write_e;
  mem_read_m = e.mem_read_e;
  alu_result_m = (alu_of src_a write_data e).result;
  write_data_m = write_data;
  rd_m = e.rd_e;
  pc_plus4_m = e.pc_plus4_e;
  funct3_m = e.funct3_e;
}

-- `ReadDataM`, of what the memory has at the address.
unfoldable pub read_data_m : ℕ → Cache → StageM → ℕ
read_data_m rd_mem c m = ld_decoder (if c.hit then cache_out c else rd_mem) m.funct3_m

unfoldable pub leave_m : ℕ → StageM → StageW
leave_m read_data m = record {
  reg_write_w = m.reg_write_m;
  result_src_w = m.result_src_m;
  alu_result_w = m.alu_result_m;
  read_data_w = read_data;
  rd_w = m.rd_m;
  pc_plus4_w = m.pc_plus4_m;
  funct3_w = m.funct3_m;
}

-- The inputs of the hazard unit; the branch decision is the last that settles.
unfoldable pub hazard_in : Bool → Machine → HazardIn
hazard_in pc_src_e s = record {
  rs1_d = slice s.front.d.instr_d 15 5;
  rs2_d = slice s.front.d.instr_d 20 5;
  rd_e = s.front.e.rd_e;
  rs1_e = s.front.e.rs1_e;
  rs2_e = s.front.e.rs2_e;
  pc_src_e = pc_src_e;
  result_src_e0 = bit s.front.e.result_src_e 0;
  rd_m = s.m.rd_m;
  reg_write_m = s.m.reg_write_m;
  rd_w = s.w.rd_w;
  reg_write_w = s.w.reg_write_w;
  mem_read_m = s.m.mem_read_m;
  hit_m = s.cache.hit;
}

-- The forwarded operands; they do not depend on the branch decision.
unfoldable pub src_a : Machine → ℕ
src_a s =
    operand (hazard_unit (hazard_in false s)).forward_ae s.m.alu_result_m (result_w s.w)
      s.front.e.rd1_e

unfoldable pub write_data_e : Machine → ℕ
write_data_e s =
    operand (hazard_unit (hazard_in false s)).forward_be s.m.alu_result_m (result_w s.w)
      s.front.e.rd2_e

unfoldable pub pc_src_e : Machine → Bool
pc_src_e s = pc_src_of (alu_of (src_a s) (write_data_e s) s.front.e) s.front.e

-- instr_mem.sv; `rom` is what the simulator answers at an index of `rom_array`, also outside the array.
unfoldable pub instr_mem : Ram → ℕ → ℕ
instr_mem rom a =
    rom (add32 a 3) * 2 ^ 24 + rom (add32 a 2) * 2 ^ 16 + rom (add32 a 1) * 2 ^ 8 + rom a

module _ (unknown : ℕ) where
  -- A clock cycle: the rising edge, and the falling edge that writes the register file. `instr` is the
  -- instruction at the program counter.
  unfoldable pub processor_edge : Bool → ℕ → Machine → Machine
  processor_edge rst instr s =
      let i = hazard_in (pc_src_e s) s in
      let o = hazard_unit i in
      let a = slice s.m.alu_result_m 0 17 in
      let we = we_decoder s.m.funct3_m s.m.mem_write_m in
      let rd_mem = data_mem_read 17 unknown a s.ram in
      let w = reg_file_w_edge o.stall_w (leave_m (read_data_m rd_mem s.cache s.m) s.m) s.w in
      record {
        front = front_edge rst i instr (decode s.registers s.front.d) s.front;
        m = reg_file_m_edge o.stall_m (execute (src_a s) (write_data_e s) s.front.e) s.m;
        w = w;
        registers = reg_file_edge w.reg_write_w w.rd_w (result_w w) s.registers;
        ram = data_mem_write 17 unknown we a s.m.write_data_m s.ram;
        cache = cache_edge we s.m.mem_read_m a s.m.write_data_m rd_mem s.cache;
      }
