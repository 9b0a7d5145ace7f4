-- ===== src/Testbench/ControlUnit.antt =====
-- testbench/control_unit/control_unit_tb.cpp: how the fixture splits an instruction, and what it asserts.
-- The fixture sets the flags and reads `PCSrc` on `control_unit`, and rtl/control_unit/control_unit.sv has no such ports:
-- the testbench does not build against it. The module under test is an argument.
pub mod Cases
pub mod Agreement
use risc_v_cpu.Base.{
  ℕ, Bool, true, false, ◌&&◌, ◌==◌, if◌then◌else◌, Option, none, some, bit, slice, of_bool,
}
use risc_v_cpu.ControlUnit.{ControlOut, control_unit}
use risc_v_cpu.Flags.{pc_src}

-- What `processInstruction` returns.
pub record Fields : Type 0 where
  pub op : ℕ
  pub funct3 : ℕ
  pub funct7 : ℕ

-- The tests on the opcode, with the two fields taken out before them.
unfoldable pub split_fields : ℕ → ℕ → ℕ → Fields
split_fields op funct3 funct7 =
    if op == 0b0110011
    then record { op = op; funct3 = funct3; funct7 = funct7 }
    else if op == 0b11
    then record { op = op; funct3 = funct3; funct7 = funct7 }
    else if op == 0b10011
    then record { op = op; funct3 = funct3; funct7 = funct7 }
    else if op == 0b0100011
    then record { op = op; funct3 = funct3; funct7 = 0 }
    else if op == 0b1100011
    then record { op = op; funct3 = funct3; funct7 = 0 }
    else record { op = op; funct3 = 0; funct7 = 0 }

unfoldable pub process_instruction : ℕ → Fields
process_instruction instr = split_fields (slice instr 0 7) (slice instr 12 3) (slice instr 25 7)

-- The arguments of `assertControlSignals`, none for -1.
pub record Expected : Type 0 where
  pub reg_write : Option ℕ
  pub imm_src : Option ℕ
  pub alu_src : Option ℕ
  pub mem_write : Option ℕ
  pub result_src : Option ℕ
  pub pc_src : Option ℕ
  pub alu_control : Option ℕ
  pub jump : Option ℕ

abbrev agrees : ℕ → Option ℕ → Bool
agrees x none = true
agrees x (some e) = x == e

-- The assertions. That on `ALUSrc` is missing in the source.
unfoldable pub assert_control_signals : ControlOut → Bool → Expected → Bool
assert_control_signals o taken e =
    agrees (of_bool o.reg_write) e.reg_write
    && agrees o.imm_src e.imm_src
    && agrees (of_bool o.mem_write) e.mem_write
    && agrees o.result_src e.result_src
    && agrees (of_bool taken) e.pc_src
    && agrees o.alu_control e.alu_control
    && agrees (of_bool o.jump) e.jump

-- The arguments of `setInputsAndEvaluate`, and the expected signals.
pub record Case : Type 0 where
  pub instr : ℕ
  pub zero : Bool
  pub c : Bool
  pub v : Bool
  pub n : Bool
  pub expected : Expected

-- What the fixture reads, and a module with the ports that it uses, by op, funct3, funct7_5, Zero, C, V and N.
pub record Outputs : Type 0 where
  pub signals : ControlOut
  pub pc_src : Bool

abbrev pub Top : Type 0
Top = ℕ → ℕ → Bool → Bool → Bool → Bool → Bool → Outputs

module _ (top : Top) where
  -- The outputs at given fields, against the expected ones.
  unfoldable pub outcome : ℕ → ℕ → Bool → Case → Bool
  outcome op funct3 funct7_5 t =
      let o = top op funct3 funct7_5 t.zero t.c t.v t.n in
      assert_control_signals o.signals o.pc_src t.expected

  unfoldable pub passes : Case → Bool
  passes t =
      let fields = process_instruction t.instr in
      outcome fields.op fields.funct3 (bit fields.funct7 5) t

-- The control unit of rtl/ with the flags unit on its outputs, as rtl/risc_v.sv has them in its stages D and E.
abbrev pub connected : Top
connected op funct3 funct7_5 zero c v n =
    let o = control_unit op funct3 funct7_5 in
    record { signals = o; pc_src = pc_src zero n c v o.branch op funct3 }
