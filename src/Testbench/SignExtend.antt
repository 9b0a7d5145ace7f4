-- ===== src/Testbench/SignExtend.antt =====
-- testbench/sign_extend/sign_extend_tb.cpp: the model that `runTests` compares `ImmOp` with. All
-- values are `uint32_t`.
pub mod Agreement
pub mod Tests
use risc_v_cpu.Base.{ℕ, ◌+◌, ◌-◌, ◌*◌, ◌/◌, ◌%◌, ◌^◌, ◌==◌, if◌then◌else◌, bit_and, bit_or}

-- `k` bits of `number` from position `p`.
pub bit_extracted : ℕ → ℕ → ℕ → ℕ
bit_extracted number k p = bit_and (2 ^ k - 1) (number / 2 ^ p)

abbrev pub shift : ℕ → ℕ → ℕ
shift x k = x * 2 ^ k % 2 ^ 32

-- Unary minus.
abbrev pub negate : ℕ → ℕ
negate x = (2 ^ 32 - x) % 2 ^ 32

extend_12 : ℕ → ℕ
extend_12 immediate = bit_or (bit_and immediate 0xfff) (negate (bit_and immediate 0x800))

extend_13 : ℕ → ℕ
extend_13 immediate = bit_or (bit_and immediate 0x1fff) (negate (bit_and immediate 0x1000))

case_0 : ℕ → ℕ
case_0 instr = extend_12 (bit_extracted instr 12 20)

case_1 : ℕ → ℕ
case_1 instr = extend_12 (bit_or (shift (bit_extracted instr 7 25) 5) (bit_extracted instr 5 7))

case_2 : ℕ → ℕ
case_2 instr =
    let imm1 = bit_extracted instr 1 31 in
    let imm2 = bit_extracted instr 1 7 in
    let imm3 = bit_extracted instr 6 25 in
    let imm4 = bit_extracted instr 4 8 in
    extend_13
      (bit_or (bit_or (bit_or (shift imm1 12) (shift imm2 11)) (shift imm3 5)) (shift imm4 1))

case_3 : ℕ → ℕ
case_3 instr = shift (bit_extracted instr 20 12) 12

case_4 : ℕ → ℕ
case_4 instr =
    let imm1 = bit_extracted instr 1 31 in
    let imm2 = bit_extracted instr 8 12 in
    let imm3 = bit_extracted instr 1 20 in
    let imm4 = bit_extracted instr 10 21 in
    bit_or (bit_or (bit_or (shift imm1 20) (shift imm2 12)) (shift imm3 11)) (shift imm4 1)

pub expected_value : ℕ → ℕ → ℕ
unfolding case_0 case_1 case_2 case_3 case_4
expected_value instr imm_src =
    if imm_src == 0
    then case_0 instr
    else if imm_src == 1
    then case_1 instr
    else if imm_src == 2
    then case_2 instr
    else if imm_src == 3
    then case_3 instr
    else if imm_src == 4
    then case_4 instr
    else case_0 instr
