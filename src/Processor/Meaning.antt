-- ===== src/Processor/Meaning.antt =====
-- The instructions that Processor.Branching runs in order, each with what the instruction set says it does.
pub mod Parts
pub mod Steps
pub mod Runs
pub mod Text
pub mod Progress
use risc_v_cpu.Base.{
  ℕ, ◌≤◌, ◌+◌, ◌*◌, ◌/◌, ◌%◌, ◌^◌, ◌<◌, ◌≡◌, ◌≢◌, ◌⊎◌, ◌∙◌, refl, ap, inl, inr, Bool, true, false,
  of_bool, bit, slice, add32, IsWord, if◌then◌else◌, arith,
}
use risc_v_cpu.Alu.{alu}
use risc_v_cpu.Flags.{pc_src, branch_taken}
use risc_v_cpu.ControlUnit.{control_unit}
use risc_v_cpu.ControlUnit.Execute.{Op, sub, srl, sra, funct3_of, funct7_of, executes}
use risc_v_cpu.SignExtend.{sign_extend}
use risc_v_cpu.SignExtend.RoundTrip.{
  IsSigned, encode_i, encode_s, encode_b, encode_u, encode_j, sign_extend-encode_s,
  sign_extend-encode_b, sign_extend-encode_u, sign_extend-encode_j,
}
use risc_v_cpu.Memory.{Ram, we_decoder, data_mem_write}
use risc_v_cpu.Pipeline.{StageD, reg_file_edge}
use risc_v_cpu.Processor.{instr_mem, decode, alu_of, pc_src_of, execute}
use risc_v_cpu.Processor.InOrder.{retire, retire_e, result_of, IsPlain, plain-pc_src, jal-pc_src}
use risc_v_cpu.Processor.Visible.{Visible, commit, commit_e, store_e, store_m, store_m-off}
use risc_v_cpu.Processor.Instructions.{encode_r, low_i, retire-encode_r, retire-encode_i}
use risc_v_cpu.Processor.Manual.{updated, compares, store_size, stored}
use risc_v_cpu.Flags.Branch.{Misjudged}
use risc_v_cpu.Processor.Branching.{InOrder, fetch, step, redirects, target}

-- Destination, source registers and immediate, in this order.
pub data Instruction : Type 0 where
  register : Op → ℕ → ℕ → ℕ → Instruction
  immediate : Op → ℕ → ℕ → ℕ → Instruction
  lui jal : ℕ → ℕ → Instruction
  branch store : ℕ → ℕ → ℕ → ℕ → Instruction

-- The fields of both source registers and funct3.
abbrev pub middle : ℕ → ℕ → ℕ → ℕ
middle f rs1 rs2 = rs2 * 2 ^ 8 + rs1 * 2 ^ 3 + f

abbrev pub encode : Instruction → ℕ
encode (register op rd rs1 rs2) = encode_r (funct3_of op) (funct7_of op) rd rs1 rs2
encode (immediate op rd rs1 imm) = encode_i imm (low_i (funct3_of op) rd rs1)
encode (lui rd imm) = encode_u imm (rd * 2 ^ 7 + 0b0110111)
encode (jal rd imm) = encode_j imm (rd * 2 ^ 7 + 0b1101111)
encode (branch f rs1 rs2 imm) = encode_b imm (middle f rs1 rs2) 0b1100011
encode (store f rs1 rs2 imm) = encode_s imm (middle f rs1 rs2) 0b0100011

-- The registers exist and the immediate is one that the format has.
abbrev pub IsValid : Instruction → Type 0
IsValid (register op rd rs1 rs2) = (rd < 32) × (rs1 < 32) × (rs2 < 32)
IsValid (immediate op rd rs1 imm) =
    (rd < 32)
    × (rs1 < 32)
    × IsSigned 11 imm
    × (op ≢ sub)
    × ((bit imm 10 ≡ funct7_of op) ⊎ ((op ≢ srl) × (op ≢ sra)))
IsValid (lui rd imm) = (rd < 32) × IsWord imm × (imm % 2 ^ 12 ≡ 0)
IsValid (jal rd imm) = (rd < 32) × IsSigned 20 imm × (imm % 2 ≡ 0)
IsValid (branch f rs1 rs2 imm) =
    (f < 8)
    × (rs1 < 32)
    × (rs2 < 32)
    × IsSigned 12 imm
    × (imm % 2 ≡ 0)
    × ((f < 2) ⊎ ((4 ≤ f) × (f < 8)))
IsValid (store f rs1 rs2 imm) = (f < 3) × (rs1 < 32) × (rs2 < 32) × IsSigned 11 imm

module _ (rd imm : ℕ) (d : rd < 32) where
  pub fields_u :
      (slice (encode (lui rd imm)) 0 7 ≡ 0b0110111) × (slice (encode (lui rd imm)) 7 5 ≡ rd)
  fields_u = (ground arith, ground arith)

  pub fields_j :
      (slice (encode (jal rd imm)) 0 7 ≡ 0b1101111) × (slice (encode (jal rd imm)) 7 5 ≡ rd)
  fields_j = (ground arith, ground arith)

module _ (f rs1 rs2 imm : ℕ) (h : f < 8) (h1 : rs1 < 32) (h2 : rs2 < 32) where
  pub fields_b :
      (slice (encode (branch f rs1 rs2 imm)) 0 7 ≡ 0b1100011)
      × (slice (encode (branch f rs1 rs2 imm)) 12 3 ≡ f)
      × (slice (encode (branch f rs1 rs2 imm)) 15 5 ≡ rs1)
      × (slice (encode (branch f rs1 rs2 imm)) 20 5 ≡ rs2)
  fields_b = (ground arith, ground arith, ground arith, ground arith)

  pub fields_s :
      (slice (encode (store f rs1 rs2 imm)) 0 7 ≡ 0b0100011)
      × (slice (encode (store f rs1 rs2 imm)) 12 3 ≡ f)
      × (slice (encode (store f rs1 rs2 imm)) 15 5 ≡ rs1)
      × (slice (encode (store f rs1 rs2 imm)) 20 5 ≡ rs2)
  fields_s = (ground arith, ground arith, ground arith, ground arith)

pub alu_add : (a b : ℕ) → (alu 0b0000 a b).result ≡ add32 a b
unfolding alu
alu_add a b = omega arith

-- A register gets a value and the program goes on.
abbrev pub writes : ℕ → ℕ → InOrder → InOrder
writes rd value q = record {
  counter = add32 q.counter 4;
  state = record q.state { file = updated rd value q.state.file };
}

unfoldable pub meaning : Instruction → InOrder → InOrder
meaning (register op rd rs1 rs2) q = writes rd (executes op (q.state.file rs1) (q.state.file rs2)) q
meaning (immediate op rd rs1 imm) q = writes rd (executes op (q.state.file rs1) imm) q
meaning (lui rd imm) q = writes rd imm q
meaning (jal rd imm) q = record (writes rd (add32 q.counter 4) q) { counter = add32 q.counter imm }
meaning (branch f rs1 rs2 imm) q = record q {
  counter =
      if compares f (q.state.file rs1) (q.state.file rs2)
      then add32 q.counter imm
      else add32 q.counter 4;
}
meaning (store f rs1 rs2 imm) q = record {
  counter = add32 q.counter 4;
  state = record q.state {
    memory = stored (store_size f) (add32 (q.state.file rs1) imm) (q.state.file rs2) q.state.memory;
  };
}

-- What the instruction set says and the processor does not do is left out: a store whose bytes are not in the memory of
-- 2^17 bytes, and blt and bge on the operands of `Misjudged`.
abbrev pub IsHandled : Instruction → InOrder → Type 0
IsHandled (register op rd rs1 rs2) q = Unit
IsHandled (immediate op rd rs1 imm) q = Unit
IsHandled (lui rd imm) q = Unit
IsHandled (jal rd imm) q = Unit
IsHandled (branch f rs1 rs2 imm) q =
    (f < 4) ⊎ (6 ≤ f) ⊎ (¬ Misjudged (q.state.file rs1) (q.state.file rs2))
IsHandled (store f rs1 rs2 imm) q = add32 (q.state.file rs1) imm + store_size f ≤ 2 ^ 17
