-- ===== src/Processor/Instructions.antt =====
-- Retiring an encoded instruction writes what the instruction set says.
use risc_v_cpu.Base.{
  ℕ, ◌+◌, ◌*◌, ◌^◌, ◌<◌, ◌≡◌, ◌≢◌, ◌⊎◌, refl, ◌∙◌, ap, Bool, true, bit, slice, of_bool, IsWord,
  arith,
}
use risc_v_cpu.Alu.{alu}
use risc_v_cpu.ControlUnit.{control_unit}
use risc_v_cpu.ControlUnit.Execute.{
  Op, sub, srl, sra, funct3_of, funct7_of, executes, register_executes, immediate_executes,
}
use risc_v_cpu.SignExtend.{sign_extend}
use risc_v_cpu.SignExtend.RoundTrip.{IsSigned, encode_i, sign_extend-encode_i}
use risc_v_cpu.Pipeline.{reg_file_edge}
use risc_v_cpu.Processor.{decode, alu_of}
use risc_v_cpu.Processor.InOrder.{retire, retire_e, result_of}

-- The R format; bit 30 is the only bit of funct7 that an arithmetic instruction may set.
abbrev pub encode_r : ℕ → Bool → ℕ → ℕ → ℕ → ℕ
encode_r funct3 bit_30 rd rs1 rs2 =
    of_bool bit_30 * 2 ^ 30 + rs2 * 2 ^ 20 + rs1 * 2 ^ 15 + funct3 * 2 ^ 12 + rd * 2 ^ 7 + 0b0110011

module _ (f : ℕ) (b : Bool) (rd rs1 rs2 : ℕ) (hf : f < 8) (hd : rd < 32) (h1 : rs1 < 32)
    (h2 : rs2 < 32) where
  abbrev word : ℕ
  word = encode_r f b rd rs1 rs2

  pub fields_r :
      (slice word 0 7 ≡ 0b0110011)
      × (slice word 12 3 ≡ f)
      × (slice word 7 5 ≡ rd)
      × (slice word 15 5 ≡ rs1)
      × (slice word 20 5 ≡ rs2)
      × (bit word 30 ≡ b)
  fields_r = (ground arith, ground arith, ground arith, ground arith, ground arith, ground arith)

  decoded_r :
      (registers : ℕ → ℕ) (pc pc_plus4 : ℕ)
      → retire (record { instr_d = word; pc_d = pc; pc_plus4_d = pc_plus4 }) registers
        ≡ reg_file_edge true rd
            (alu (control_unit 0b0110011 f b).alu_control (registers rs1) (registers rs2)).result
            registers
  unfolding retire retire_e result_of decode alu_of control_unit
  decoded_r registers pc pc_plus4 =
      rw (fields_r.0, fields_r.1, fields_r.2, fields_r.3, fields_r.4, fields_r.5) refl

-- The fields below the immediate.
abbrev pub low_i : ℕ → ℕ → ℕ → ℕ
low_i funct3 rd rs1 = rs1 * 2 ^ 15 + funct3 * 2 ^ 12 + rd * 2 ^ 7 + 0b0010011

module _ (f imm rd rs1 : ℕ) (hf : f < 8) (hd : rd < 32) (h1 : rs1 < 32)
    (signed : IsSigned 11 imm) where
  abbrev word_i : ℕ
  word_i = encode_i imm (low_i f rd rs1)

  pub fields_i :
      (slice word_i 0 7 ≡ 0b0010011)
      × (slice word_i 12 3 ≡ f)
      × (slice word_i 7 5 ≡ rd)
      × (slice word_i 15 5 ≡ rs1)
      × (bit word_i 30 ≡ bit imm 10)
  fields_i = (ground arith, ground arith, ground arith, ground arith, ground arith)

  extended : sign_extend word_i 0b000 ≡ imm
  extended = sign_extend-encode_i imm (low_i f rd rs1) signed (omega arith)

  decoded_i :
      (registers : ℕ → ℕ) (pc pc_plus4 : ℕ)
      → retire (record { instr_d = word_i; pc_d = pc; pc_plus4_d = pc_plus4 }) registers
        ≡ reg_file_edge true rd
            (alu (control_unit 0b0010011 f (bit imm 10)).alu_control (registers rs1) imm).result
            registers
  unfolding retire retire_e result_of decode alu_of control_unit
  decoded_i registers pc pc_plus4 =
      rw (fields_i.0, fields_i.1, fields_i.2, fields_i.3, fields_i.4, extended) refl

pub funct3-lt : (op : Op) → funct3_of op < 8
funct3-lt op = ground arith

-- A register instruction that is retired writes to its destination what the instruction set gives for the
-- contents of its two source registers, and leaves the other registers and register 0.
pub retire-encode_r :
    (op : Op) (rd rs1 rs2 pc pc_plus4 : ℕ) (registers : ℕ → ℕ)
    → rd < 32
    → rs1 < 32
    → rs2 < 32
    → IsWord (registers rs1)
    → IsWord (registers rs2)
    → retire
        (record {
          instr_d = encode_r (funct3_of op) (funct7_of op) rd rs1 rs2;
          pc_d = pc;
          pc_plus4_d = pc_plus4;
        })
        registers
      ≡ reg_file_edge true rd (executes op (registers rs1) (registers rs2)) registers
retire-encode_r op rd rs1 rs2 pc pc_plus4 registers hd h1 h2 w1 w2 =
    decoded_r (funct3_of op) (funct7_of op) rd rs1 rs2 (funct3-lt op) hd h1 h2 registers pc pc_plus4
    ∙ ap (λ (r : ℕ). reg_file_edge true rd r registers)
        (register_executes op (registers rs1) (registers rs2) w1 w2)

-- An immediate instruction that is retired writes to its destination what the instruction set gives for
-- the contents of its source register and its sign-extended immediate of 12 bits, and leaves the other
-- registers and register 0. No immediate instruction subtracts; bit 10 of the immediate tells the right
-- shifts apart.
pub retire-encode_i :
    (op : Op) (imm rd rs1 pc pc_plus4 : ℕ) (registers : ℕ → ℕ)
    → op ≢ sub
    → (bit imm 10 ≡ funct7_of op) ⊎ ((op ≢ srl) × (op ≢ sra))
    → IsSigned 11 imm
    → rd < 32
    → rs1 < 32
    → IsWord (registers rs1)
    → retire
        (record {
          instr_d = encode_i imm (low_i (funct3_of op) rd rs1);
          pc_d = pc;
          pc_plus4_d = pc_plus4;
        })
        registers
      ≡ reg_file_edge true rd (executes op (registers rs1) imm) registers
retire-encode_i op imm rd rs1 pc pc_plus4 registers ne fits signed hd h1 w1 =
    decoded_i (funct3_of op) imm rd rs1 (funct3-lt op) hd h1 signed registers pc pc_plus4
    ∙ ap (λ (r : ℕ). reg_file_edge true rd r registers)
        (immediate_executes op (bit imm 10) (registers rs1) imm ne fits w1 (omega arith))
