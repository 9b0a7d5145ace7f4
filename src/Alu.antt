-- ===== src/Alu.antt =====
-- rtl/alu/alu.sv: the arithmetic unit of the execute stage, a combinational function of its two
-- operands and the four control bits.
pub mod Arith
pub mod Shift
use risc_v_cpu.Base.{
  ℕ, ◌+◌, ◌-◌, ◌*◌, ◌/◌, ◌%◌, ◌^◌, Bool, false, not, ◌&&◌, bit_and, bit_or, bit_xor, ltb, ◌==◌,
  if◌then◌else◌, bit, of_bool,
}

-- The outputs.
pub record AluOut : Type 0 where
  pub result : ℕ
  pub zero_flag : Bool
  pub n : Bool
  pub c : Bool
  pub v : Bool

-- `{C, ALUResult}` of a sum or difference in 33 bits.
carry_sum : ℕ → ℕ → Bool × ℕ
carry_sum a b = let s = (a + b) % 2 ^ 33 in (bit s 32, s % 2 ^ 32)

carry_difference : ℕ → ℕ → Bool × ℕ
carry_difference a b = let s = (a + 2 ^ 33 - b) % 2 ^ 33 in (bit s 32, s % 2 ^ 32)

shift_left : ℕ → ℕ → ℕ
shift_left a b = a * 2 ^ (b % 2 ^ 5) % 2 ^ 32

abbrev shift_right : ℕ → ℕ → ℕ
shift_right a b = a / 2 ^ (b % 2 ^ 5)

-- `~x` in 32 bits.
abbrev bit_not : ℕ → ℕ
bit_not x = 2 ^ 32 - 1 - x

-- The arm for the arithmetic right shift.
shift_right_signed : ℕ → ℕ → ℕ
shift_right_signed a b =
    if bit a 31
    then bit_or (bit_not (shift_right (2 ^ 32 - 1) b)) (shift_right a b)
    else shift_right a b

-- The arm for `slt`, by the sign bits of `SrcA` and `SrcB`.
set_less_than : ℕ → ℕ → ℕ
set_less_than a b =
    if bit a 31
    then (if bit b 31 then of_bool (ltb (a % 2 ^ 31) (b % 2 ^ 31)) else 1)
    else (if bit b 31 then 0 else of_bool (ltb a b))

-- The `case (ALUControl)`: the carry and the result.
select : ℕ → ℕ → ℕ → Bool × ℕ
unfolding carry_sum carry_difference shift_left shift_right_signed set_less_than
select control a b =
    if control == 0b0000
    then carry_sum a b
    else if control == 0b0001
    then carry_difference a b
    else if control == 0b0010
    then (false, shift_left a b)
    else if control == 0b0011
    then (false, set_less_than a b)
    else if control == 0b0100
    then (false, of_bool (ltb a b))
    else if control == 0b0101
    then (false, bit_xor a b)
    else if control == 0b0110
    then (false, shift_right a b)
    else if control == 0b0111
    then (false, shift_right_signed a b)
    else if control == 0b1000
    then (false, bit_or a b)
    else if control == 0b1001
    then (false, bit_and a b)
    else if control == 0b1011
    then (false, b)
    else (false, 0)

-- The overflow output: the operands agree in sign and the result does not.
abbrev pub overflow : ℕ → ℕ → ℕ → Bool
overflow a b r =
    let same = of_bool (bit a 31) == of_bool (bit b 31) in
    same && not (of_bool (bit a 31) == of_bool (bit r 31))

unfoldable pub alu : ℕ → ℕ → ℕ → AluOut
unfolding select
alu control a b =
    let (carry, r) = select control a b in
    record { result = r; zero_flag = 0 == r; n = bit r 31; c = carry; v = overflow a b r }
