-- ===== src/Processor/InOrder.antt =====
-- The processor of rtl/risc_v.sv against a machine that executes one instruction after the other, on
-- arithmetic instructions, branches, `jal` and stores: the registers and the memory when what is in flight has
-- been retired in order.
use risc_v_cpu.Base.{
  ℕ, Bool, true, false, if◌then◌else◌, ◌≡◌, ◌⊎◌, inl, inr, refl, bit, slice, arith,
}
use risc_v_cpu.Flags.{pc_src}
use risc_v_cpu.ControlUnit.{control_unit}
use risc_v_cpu.Pipeline.{bubble, empty_d, StageD, StageE, reg_file_edge}
use risc_v_cpu.Processor.{pc_src_e, pc_src_of, StageM, Machine, decode, result_w, alu_of}

-- What an instruction that does not load writes to its register.
unfoldable pub result_of : ℕ → ℕ → ℕ → ℕ
result_of result_src pc_plus4 alu_result = if bit result_src 1 then pc_plus4 else alu_result

-- Retiring what a stage holds: its register write, on a register file in which all that is older has
-- been written.
unfoldable pub retire_m : StageM → (ℕ → ℕ) → ℕ → ℕ
retire_m m registers =
    reg_file_edge m.reg_write_m m.rd_m (result_of m.result_src_m m.pc_plus4_m m.alu_result_m)
      registers

unfoldable pub retire_e : StageE → (ℕ → ℕ) → ℕ → ℕ
retire_e e registers =
    reg_file_edge e.reg_write_e e.rd_e
      (result_of e.result_src_e e.pc_plus4_e
        (alu_of (registers e.rs1_e) (registers e.rs2_e) e).result)
      registers

unfoldable pub retire : StageD → (ℕ → ℕ) → ℕ → ℕ
retire d registers = retire_e (decode registers d) registers

-- The registers as they will be when all in flight are retired.
unfoldable pub architectural : Machine → ℕ → ℕ
architectural s = retire s.front.d (retire_e s.front.e (retire_m s.m s.registers))

-- Register and immediate arithmetic and `lui`; 0 is the opcode of an empty stage.
abbrev pub IsPlain : ℕ → Type 0
IsPlain op = (op ≡ 0b0110011) ⊎ (op ≡ 0b0010011) ⊎ (op ≡ 0b0110111) ⊎ (op ≡ 0)

-- Those, the conditional branches, stores and `jal`.
abbrev pub IsSimple : ℕ → Type 0
IsSimple op = IsPlain op ⊎ (op ≡ 0b1100011) ⊎ (op ≡ 0b0100011) ⊎ (op ≡ 0b1101111)

pub record IsSimpleE (e : StageE) : Type 0 where
  pub simple_op : IsSimple e.op_e
  pub no_jump : (e.op_e ≡ 0) ⊎ (e.jump_e ≡ false)
  pub result_e : (e.result_src_e ≡ 0) ⊎ ((e.result_src_e ≡ 2) × (e.op_e ≡ 0b1101111))
  pub store_e : (e.mem_write_e ≡ false) ⊎ (e.op_e ≡ 0b0100011)
  pub no_load : e.mem_read_e ≡ false

pub record IsSimpleM (m : StageM) : Type 0 where
  pub result_m : (m.result_src_m ≡ 0) ⊎ (m.result_src_m ≡ 2)
  pub no_load : m.mem_read_m ≡ false

-- Only such instructions are in flight, and the one in stage E was read from the register file `old`, in
-- which stage W has been written since. Behind a `jal` stage E is empty.
pub record IsReady (old : ℕ → ℕ) (s : Machine) : Type 0 where
  pub simple_d : IsSimple (slice s.front.d.instr_d 0 7)
  pub simple_e : IsSimpleE s.front.e
  pub simple_m : IsSimpleM s.m
  pub settled : (s.m.result_src_m ≡ 0) ⊎ (s.front.e ≡ bubble)
  pub written : s.registers ≡ reg_file_edge s.w.reg_write_w s.w.rd_w (result_w s.w) old
  pub zero : s.registers 0 ≡ 0
  pub read_1 : s.front.e.rd1_e ≡ old s.front.e.rs1_e
  pub read_2 : s.front.e.rd2_e ≡ old s.front.e.rs2_e

-- `decode` of such an instruction.
simple_control :
    (op funct3 : ℕ) (b : Bool)
    → IsSimple op
    → (((control_unit op funct3 b).result_src ≡ 0)
        ⊎ (((control_unit op funct3 b).result_src ≡ 2) × (op ≡ 0b1101111)))
      × (((control_unit op funct3 b).mem_write ≡ false) ⊎ (op ≡ 0b0100011))
      × ((control_unit op funct3 b).mem_read ≡ false)
      × ((op ≡ 0) ⊎ ((control_unit op funct3 b).jump ≡ false))
unfolding control_unit
simple_control op funct3 b plain = ground arith

pub decode-IsSimpleE :
    (registers : ℕ → ℕ) (d : StageD)
    → IsSimple (slice d.instr_d 0 7)
    → IsSimpleE (decode registers d)
unfolding decode
decode-IsSimpleE registers d plain =
    let c = simple_control (slice d.instr_d 0 7) (slice d.instr_d 12 3) (bit d.instr_d 30) plain in
    record { simple_op = plain; no_jump = c.3; result_e = c.0; store_e = c.1; no_load = c.2 }

-- A `jal` always redirects the program counter, and a plain instruction never.
pub jal-pc_src :
    (zero n c v branch : Bool) (op funct3 : ℕ)
    → op ≡ 0b1101111
    → pc_src zero n c v branch op funct3 ≡ true
unfolding pc_src
jal-pc_src zero n c v branch op funct3 jal = ground arith

pub plain-pc_src :
    (zero n c v branch : Bool) (op funct3 : ℕ)
    → IsPlain op
    → pc_src zero n c v branch op funct3 ≡ false
unfolding pc_src
plain-pc_src zero n c v branch op funct3 plain = ground arith

pub pc_src_e-empty : (s : Machine) → s.front.e.op_e ≡ 0 → pc_src_e s ≡ false
unfolding pc_src_e pc_src_of
pc_src_e-empty s e = plain-pc_src _ _ _ _ _ _ _ (inr (inr (inr e)))

-- An empty stage changes nothing and redirects nothing.
pub retire_e-bubble : (registers : ℕ → ℕ) → retire_e bubble registers ≡ registers
unfolding retire_e reg_file_edge
retire_e-bubble registers = refl

pub retire-empty_d : (registers : ℕ → ℕ) → retire empty_d registers ≡ registers
unfolding retire retire_e decode control_unit reg_file_edge
retire-empty_d registers = refl

pub empty_d-IsSimple : IsSimple (slice empty_d.instr_d 0 7)
empty_d-IsSimple = inl (inr (inr (inr refl)))

pub bubble-IsSimpleE : IsSimpleE bubble
bubble-IsSimpleE = record {
  simple_op = inl (inr (inr (inr refl)));
  no_jump = inr refl;
  result_e = inl refl;
  store_e = inl refl;
  no_load = refl;
}
