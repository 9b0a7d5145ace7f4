-- ===== src/Testbench/SignExtend/Agreement.antt =====
-- Where the model of testbench/sign_extend/sign_extend_tb.cpp agrees with rtl/sign_extend/sign_extend.sv.
use risc_v_cpu.Base.{
  ℕ, ◌+◌, ◌-◌, ◌*◌, ◌/◌, ◌^◌, ◌≤◌, ◌<◌, ◌≡◌, ◌≢◌, ◌⊎◌, refl, ap, true, ltb, ◌==◌, ==_iff,
  if◌then◌else◌, bit_or, IsWord, arith, slice,
}
use risc_v_cpu.Base.Bits.{ones-bit_and, bit_or-add_of_clear, all_below, all_below_lem}
use risc_v_cpu.SignExtend.{sign_extend}
use risc_v_cpu.Testbench.SignExtend.{
  bit_extracted, shift, extend_12, extend_13, case_0, case_1, case_2, case_3, case_4,
  expected_value,
}

-- The field is a slice.
bit_extracted_lem : (number k p : ℕ) → bit_extracted number k p ≡ slice number p k
unfolding bit_extracted
bit_extracted_lem number k p = ones-bit_and k (number / 2 ^ p)

extend_12_table :
    all_below 4096 (λ x. extend_12 x == (if ltb x 0x800 then x else x + (2 ^ 32 - 0x1000))) ≡ true
unfolding all_below extend_12
extend_12_table = refl

extend_13_table :
    all_below 8192 (λ x. extend_13 x == (if ltb x 0x1000 then x else x + (2 ^ 32 - 0x2000))) ≡ true
unfolding all_below extend_13
extend_13_table = refl

extend_12_lem :
    (x : ℕ) → x < 4096 → extend_12 x ≡ (if ltb x 0x800 then x else x + (2 ^ 32 - 0x1000))
extend_12_lem x h = (==_iff _ _).0 (all_below_lem 4096 _ x extend_12_table h)

extend_13_lem :
    (x : ℕ) → x < 8192 → extend_13 x ≡ (if ltb x 0x1000 then x else x + (2 ^ 32 - 0x2000))
extend_13_lem x h = (==_iff _ _).0 (all_below_lem 8192 _ x extend_13_table h)

-- Fields put together by shifts and ors are a sum.
join_1 : (a b : ℕ) → a < 2 ^ 7 → b < 2 ^ 5 → bit_or (shift a 5) b ≡ a * 2 ^ 5 + b
join_1 a b ha hb = ground (arith, bit_or-add_of_clear 5 (shift a 5) b)

join_2 :
    (a b c d : ℕ)
    → a < 2
    → b < 2
    → c < 2 ^ 6
    → d < 2 ^ 4
    → bit_or (bit_or (bit_or (shift a 12) (shift b 11)) (shift c 5)) (shift d 1)
      ≡ a * 2 ^ 12 + b * 2 ^ 11 + c * 2 ^ 5 + d * 2
join_2 a b c d ha hb hc hd = ground (
  arith,
  bit_or-add_of_clear 12 (shift a 12) (shift b 11),
  bit_or-add_of_clear 11 (bit_or (shift a 12) (shift b 11)) (shift c 5),
  bit_or-add_of_clear 5 (bit_or (bit_or (shift a 12) (shift b 11)) (shift c 5)) (shift d 1),
)

join_4 :
    (a b c d : ℕ)
    → a < 2
    → b < 2 ^ 8
    → c < 2
    → d < 2 ^ 10
    → bit_or (bit_or (bit_or (shift a 20) (shift b 12)) (shift c 11)) (shift d 1)
      ≡ a * 2 ^ 20 + b * 2 ^ 12 + c * 2 ^ 11 + d * 2
join_4 a b c d ha hb hc hd = ground (
  arith,
  bit_or-add_of_clear 20 (shift a 20) (shift b 12),
  bit_or-add_of_clear 12 (bit_or (shift a 20) (shift b 12)) (shift c 11),
  bit_or-add_of_clear 11 (bit_or (bit_or (shift a 20) (shift b 12)) (shift c 11)) (shift d 1),
)

case_0_lem : (instr : ℕ) → IsWord instr → case_0 instr ≡ sign_extend instr 0
unfolding case_0 sign_extend
case_0_lem instr h =
    ground (arith, bit_extracted_lem instr 12 20, extend_12_lem (bit_extracted instr 12 20))

case_1_lem : (instr : ℕ) → IsWord instr → case_1 instr ≡ sign_extend instr 1
unfolding case_1 sign_extend
case_1_lem instr h = ground (
  arith,
  bit_extracted_lem instr 7 25,
  bit_extracted_lem instr 5 7,
  join_1 (bit_extracted instr 7 25) (bit_extracted instr 5 7),
  extend_12_lem (bit_or (shift (bit_extracted instr 7 25) 5) (bit_extracted instr 5 7)),
)

abbrev low_13 : ℕ → ℕ
low_13 instr =
    slice instr 31 1 * 2 ^ 12
    + slice instr 7 1 * 2 ^ 11
    + slice instr 25 6 * 2 ^ 5
    + slice instr 8 4 * 2

case_2_low : (instr : ℕ) → case_2 instr ≡ extend_13 (low_13 instr)
unfolding case_2
case_2_low instr =
    rw
      (
        bit_extracted_lem instr 1 31,
        bit_extracted_lem instr 1 7,
        bit_extracted_lem instr 6 25,
        bit_extracted_lem instr 4 8,
      )
      (ap extend_13 (
        join_2 (slice instr 31 1) (slice instr 7 1) (slice instr 25 6) (slice instr 8 4)
          (omega arith) (omega arith) (omega arith) (omega arith)))

case_2_lem : (instr : ℕ) → IsWord instr → case_2 instr ≡ sign_extend instr 2
unfolding sign_extend
case_2_lem instr h = ground (arith, case_2_low instr, extend_13_lem (low_13 instr))

case_3_lem : (instr : ℕ) → IsWord instr → case_3 instr ≡ sign_extend instr 3
unfolding case_3 sign_extend
case_3_lem instr h = ground (arith, bit_extracted_lem instr 20 12)

case_4_lem :
    (instr : ℕ)
    → case_4 instr
      ≡ slice instr 31 1 * 2 ^ 20
        + slice instr 12 8 * 2 ^ 12
        + slice instr 20 1 * 2 ^ 11
        + slice instr 21 10 * 2
unfolding case_4
case_4_lem instr =
    rw
      (
        bit_extracted_lem instr 1 31,
        bit_extracted_lem instr 8 12,
        bit_extracted_lem instr 1 20,
        bit_extracted_lem instr 10 21,
      )
      (join_4 (slice instr 31 1) (slice instr 12 8) (slice instr 20 1) (slice instr 21 10)
        (omega arith) (omega arith) (omega arith) (omega arith))

-- On words, for every format but J, and for J with a clear sign bit, the expected value is the immediate that
-- the hardware computes.
pub expected_value_agrees :
    (instr imm_src : ℕ)
    → IsWord instr
    → (imm_src ≢ 4) ⊎ (instr < 2 ^ 31)
    → expected_value instr imm_src ≡ sign_extend instr imm_src
unfolding expected_value sign_extend
expected_value_agrees instr imm_src h format = ground (
  arith,
  case_0_lem instr,
  case_1_lem instr,
  case_2_lem instr,
  case_3_lem instr,
  case_4_lem instr,
)

-- On words with the sign bit set, the expected value of the J format lacks the sign: it falls short of
-- the immediate of the hardware by 2^32 - 2^21.
pub expected_value_lacks_sign :
    (instr : ℕ)
    → IsWord instr
    → 2 ^ 31 ≤ instr
    → expected_value instr 4 + (2 ^ 32 - 2 ^ 21) ≡ sign_extend instr 4
unfolding expected_value sign_extend
expected_value_lacks_sign instr h negative = ground (arith, case_4_lem instr)
