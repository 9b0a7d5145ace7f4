-- ===== src/SignExtend.antt =====
-- rtl/sign_extend/sign_extend.sv: the immediate of an instruction word, by its format.
pub mod RoundTrip
use risc_v_cpu.Base.{ℕ, ◌+◌, ◌-◌, ◌*◌, ◌^◌, ◌==◌, if◌then◌else◌, bit, slice}

-- `{k{Instr[31]}}`.
abbrev sign_fill : ℕ → ℕ → ℕ
sign_fill instr k = if bit instr 31 then 2 ^ k - 1 else 0

imm_i : ℕ → ℕ
imm_i instr = sign_fill instr 20 * 2 ^ 12 + slice instr 20 12

imm_s : ℕ → ℕ
imm_s instr = sign_fill instr 20 * 2 ^ 12 + slice instr 25 7 * 2 ^ 5 + slice instr 7 5

imm_b : ℕ → ℕ
imm_b instr =
    sign_fill instr 20 * 2 ^ 12
    + slice instr 7 1 * 2 ^ 11
    + slice instr 25 6 * 2 ^ 5
    + slice instr 8 4 * 2

imm_u : ℕ → ℕ
imm_u instr = slice instr 12 20 * 2 ^ 12

imm_j : ℕ → ℕ
imm_j instr =
    sign_fill instr 12 * 2 ^ 20
    + slice instr 12 8 * 2 ^ 12
    + slice instr 20 1 * 2 ^ 11
    + slice instr 21 10 * 2

unfoldable pub sign_extend : ℕ → ℕ → ℕ
unfolding imm_i imm_s imm_b imm_u imm_j
sign_extend instr imm_src =
    if imm_src == 0b000
    then imm_i instr
    else if imm_src == 0b001
    then imm_s instr
    else if imm_src == 0b010
    then imm_b instr
    else if imm_src == 0b011
    then imm_u instr
    else if imm_src == 0b100
    then imm_j instr
    else imm_i instr
