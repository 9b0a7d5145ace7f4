-- ===== src/ControlUnit.antt =====
-- rtl/control_unit/control_unit.sv and rtl/control_unit/decoders/: the control signals of an
-- instruction from its opcode, funct3 and bit 5 of funct7.
pub mod Execute
pub mod Effects
use risc_v_cpu.Base.{ℕ, Bool, true, false, ◌&&◌, ◌==◌, if◌then◌else◌, bit}

-- The outputs of `main_decoder`.
pub record MainOut : Type 0 where
  pub reg_write : Bool
  pub imm_src : ℕ
  pub alu_src : Bool
  pub mem_write : Bool
  pub mem_read : Bool
  pub result_src : ℕ
  pub branch : Bool
  pub alu_op : ℕ
  pub jump : Bool

abbrev signals : Bool → ℕ → Bool → Bool → Bool → ℕ → Bool → ℕ → Bool → MainOut
signals reg_write imm_src alu_src mem_write mem_read result_src branch alu_op jump = record {
  reg_write = reg_write;
  imm_src = imm_src;
  alu_src = alu_src;
  mem_write = mem_write;
  mem_read = mem_read;
  result_src = result_src;
  branch = branch;
  alu_op = alu_op;
  jump = jump;
}

-- The `case (op)`. In the order of the record: RegWrite, ImmSrc, ALUSrc, MemWrite, MemRead,
-- ResultSrc, Branch, ALUOp, Jump.
unfoldable pub main_decoder : ℕ → MainOut
main_decoder op =
    if op == 0b0000011
    then signals true 0b000 true false true 0b01 false 0b000 false
    else if op == 0b0100011
    then signals false 0b001 true true false 0b00 false 0b000 false
    else if op == 0b0110011
    then signals true 0b000 false false false 0b00 false 0b010 false
    else if op == 0b0010011
    then signals true 0b000 true false false 0b00 false 0b010 false
    else if op == 0b1100011
    then signals false 0b010 false false false 0b00 true 0b001 false
    else if op == 0b0010111
    then signals true 0b011 true false false 0b10 false 0b100 false
    else if op == 0b0110111
    then signals true 0b011 true false false 0b00 false 0b100 false
    else if op == 0b1100111
    then signals true 0b000 true false false 0b10 true 0b011 true
    else if op == 0b1101111
    then signals true 0b100 false false false 0b10 true 0b100 false
    else signals false 0b000 false false false 0b00 false 0b000 true

-- The inner `case (funct3)`, for register and immediate arithmetic.
arithmetic : ℕ → ℕ → Bool → ℕ
arithmetic op funct3 funct7_5 =
    if funct3 == 0b000
    then (if bit op 5 && funct7_5 then 0b0001 else 0b0000)
    else if funct3 == 0b001
    then 0b0010
    else if funct3 == 0b010
    then 0b0011
    else if funct3 == 0b011
    then 0b0100
    else if funct3 == 0b100
    then 0b0101
    else if funct3 == 0b101
    then (if funct7_5 then 0b0111 else 0b0110)
    else if funct3 == 0b110
    then 0b1000
    else if funct3 == 0b111
    then 0b1001
    else 0b0000

unfoldable pub alu_decoder : ℕ → ℕ → Bool → ℕ → ℕ
unfolding arithmetic
alu_decoder op funct3 funct7_5 alu_op =
    if alu_op == 0b000
    then 0b0000
    else if alu_op == 0b001
    then 0b0001
    else if alu_op == 0b100
    then 0b1011
    else if alu_op == 0b010
    then arithmetic op funct3 funct7_5
    else 0b0000

-- The outputs of `control_unit`: those of the main decoder but ALUOp, and ALUControl.
pub record ControlOut : Type 0 where
  pub main : MainOut
  pub open main use *
  pub alu_control : ℕ

unfoldable pub control_unit : ℕ → ℕ → Bool → ControlOut
unfolding main_decoder alu_decoder
control_unit op funct3 funct7_5 =
    let m = main_decoder op in
    record { main = m; alu_control = alu_decoder op funct3 funct7_5 m.alu_op }
