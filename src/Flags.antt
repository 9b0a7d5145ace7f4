-- ===== src/Flags.antt =====
-- rtl/flags/flags.sv: whether the instruction in the execute stage redirects the program counter.
pub mod Branch
use risc_v_cpu.Base.{ℕ, Bool, true, false, not, ◌&&◌, ◌||◌, ◌==◌, if◌then◌else◌, slice}
use risc_v_cpu.Alu.{alu}

-- `{op[6:5], op[2:0]} == 5'b11111`.
abbrev pub is_jump : ℕ → Bool
is_jump op = slice op 5 2 == 0b11 && slice op 0 3 == 0b111

-- `{op[6:5], op[1:0]} == 4'b1111`.
abbrev pub is_branch : ℕ → Bool
is_branch op = slice op 5 2 == 0b11 && slice op 0 2 == 0b11

abbrev signed_greater_than : Bool → Bool → Bool → Bool
signed_greater_than zero n v = (not n && not v) || zero || (n && v)

unfoldable pub pc_src : Bool → Bool → Bool → Bool → Bool → ℕ → ℕ → Bool
pc_src zero n c v branch op funct3 =
    let sgt = signed_greater_than zero n v in
    if is_jump op
    then true
    else if is_branch op
    then (if funct3 == 0b000
        then branch && zero
        else if funct3 == 0b001
        then branch && not zero
        else if funct3 == 0b100
        then branch && not sgt
        else if funct3 == 0b101
        then branch && sgt
        else if funct3 == 0b110
        then branch && c
        else if funct3 == 0b111
        then branch && not c
        else false)
    else false

-- A conditional branch in the execute stage: the unit subtracts, and the flags decide.
unfoldable pub branch_taken : ℕ → ℕ → ℕ → Bool
branch_taken funct3 a b =
    let o = alu 0b0001 a b in pc_src o.zero_flag o.n o.c o.v true 0b1100011 funct3
