-- ===== src/ControlUnit/Execute.antt =====
-- Arithmetic instructions through rtl/control_unit/control_unit.sv and rtl/alu/alu.sv: the result is the one
-- that the instruction set gives.
use risc_v_cpu.Base.{
  ℕ, ◌*◌, ◌/◌, ◌%◌, ◌^◌, ◌≡◌, ◌≢◌, ◌⊎◌, Bool, true, false, bit_and, bit_or, bit_xor, ltb, IsWord,
  arith, add32, sub32, of_bool, sym, ap, ◌∙◌,
}
use risc_v_cpu.Base.Int.{signed32, ltb_ℤ, floor_div, pattern32}
use risc_v_cpu.Alu.{alu}
use risc_v_cpu.Alu.Shift.{sra_exact, result-IsWord}
use risc_v_cpu.ControlUnit.{control_unit}

-- The arithmetic instructions of RV32I.
pub data Op : Type 0 where
  add sub sll slt sltu xor srl sra or and : Op

abbrev pub funct3_of : Op → ℕ
funct3_of add = 0b000
funct3_of sub = 0b000
funct3_of sll = 0b001
funct3_of slt = 0b010
funct3_of sltu = 0b011
funct3_of xor = 0b100
funct3_of srl = 0b101
funct3_of sra = 0b101
funct3_of or = 0b110
funct3_of and = 0b111

abbrev pub funct7_of : Op → Bool
funct7_of sub = true
funct7_of sra = true
funct7_of other = false

-- What the instruction set manual says of the result; `sra` divides by a power of two and rounds down.
abbrev pub executes : Op → ℕ → ℕ → ℕ
executes add a b = add32 a b
executes sub a b = sub32 a b
executes sll a b = a * 2 ^ (b % 32) % 2 ^ 32
executes slt a b = of_bool (ltb_ℤ (signed32 a) (signed32 b))
executes sltu a b = of_bool (ltb a b)
executes xor a b = bit_xor a b
executes srl a b = a / 2 ^ (b % 32)
executes sra a b = pattern32 (floor_div (signed32 a) (2 ^ (b % 32)))
executes or a b = bit_or a b
executes and a b = bit_and a b

-- The control bits that select each in the arithmetic unit.
abbrev control_of : Op → ℕ
control_of add = 0b0000
control_of sub = 0b0001
control_of sll = 0b0010
control_of slt = 0b0011
control_of sltu = 0b0100
control_of xor = 0b0101
control_of srl = 0b0110
control_of sra = 0b0111
control_of or = 0b1000
control_of and = 0b1001

register_control :
    (op : Op) → (control_unit 0b0110011 (funct3_of op) (funct7_of op)).alu_control ≡ control_of op
unfolding control_unit
register_control op = ground arith

immediate_control :
    (op : Op) (bit_30 : Bool)
    → op ≢ sub
    → (bit_30 ≡ funct7_of op) ⊎ ((op ≢ srl) × (op ≢ sra))
    → (control_unit 0b0010011 (funct3_of op) bit_30).alu_control ≡ control_of op
unfolding control_unit
immediate_control op bit_30 ne fits = ground arith

sum_executes : (a b : ℕ) → (alu 0b0000 a b).result ≡ add32 a b
unfolding alu
sum_executes a b = ground arith

difference_executes : (a b : ℕ) → IsWord a → IsWord b → (alu 0b0001 a b).result ≡ sub32 a b
unfolding alu
difference_executes a b ha hb = ground arith

left_executes : (a b : ℕ) → (alu 0b0010 a b).result ≡ a * 2 ^ (b % 32) % 2 ^ 32
unfolding alu
left_executes a b = ground arith

below_executes :
    (a b : ℕ)
    → IsWord a
    → IsWord b
    → (alu 0b0011 a b).result ≡ of_bool (ltb_ℤ (signed32 a) (signed32 b))
unfolding alu
below_executes a b ha hb = ground arith

-- The unsigned comparison, the logical operations and the logical right shift.
direct_executes :
    (a b : ℕ)
    → ((alu 0b0100 a b).result ≡ of_bool (ltb a b))
      × ((alu 0b0101 a b).result ≡ bit_xor a b)
      × ((alu 0b0110 a b).result ≡ a / 2 ^ (b % 32))
      × ((alu 0b1000 a b).result ≡ bit_or a b)
      × ((alu 0b1001 a b).result ≡ bit_and a b)
unfolding alu
direct_executes a b = (ground arith, ground arith, ground arith, ground arith, ground arith)

pattern32-signed32 : (w : ℕ) → IsWord w → pattern32 (signed32 w) ≡ w
pattern32-signed32 w h = ground arith

alu-executes :
    (op : Op) (a b : ℕ) → IsWord a → IsWord b → (alu (control_of op) a b).result ≡ executes op a b
alu-executes add a b ha hb = sum_executes a b
alu-executes sub a b ha hb = difference_executes a b ha hb
alu-executes sll a b ha hb = left_executes a b
alu-executes slt a b ha hb = below_executes a b ha hb
alu-executes sltu a b ha hb = (direct_executes a b).0
alu-executes xor a b ha hb = (direct_executes a b).1
alu-executes srl a b ha hb = (direct_executes a b).2
alu-executes sra a b ha hb =
    sym (pattern32-signed32 _ (result-IsWord 0b0111 a b ha hb)) ∙ ap pattern32 (sra_exact a b ha hb)
alu-executes or a b ha hb = (direct_executes a b).3
alu-executes and a b ha hb = (direct_executes a b).4

-- On words, each register instruction, decoded and run through the arithmetic unit, gives what the
-- instruction set says.
pub register_executes :
    (op : Op) (a b : ℕ)
    → IsWord a
    → IsWord b
    → (alu (control_unit 0b0110011 (funct3_of op) (funct7_of op)).alu_control a b).result
      ≡ executes op a b
register_executes op a b ha hb = rw (register_control op) (alu-executes op a b ha hb)

-- On words, each immediate instruction, with the immediate as the second operand, gives what the instruction
-- set says of its operation. There is none that subtracts; bit 30 tells the right shifts apart and belongs to the immediate in the others, where it may be either.
pub immediate_executes :
    (op : Op) (bit_30 : Bool) (a b : ℕ)
    → op ≢ sub
    → (bit_30 ≡ funct7_of op) ⊎ ((op ≢ srl) × (op ≢ sra))
    → IsWord a
    → IsWord b
    → (alu (control_unit 0b0010011 (funct3_of op) bit_30).alu_control a b).result ≡ executes op a b
immediate_executes op bit_30 a b ne fits ha hb =
    rw (immediate_control op bit_30 ne fits) (alu-executes op a b ha hb)
