-- ===== src/Alu/Shift.antt =====
-- The shifts of rtl/alu/alu.sv, and the range of every result.
use mathlib.Core.Path.{ap}
use native.Mathlib.Nat.{
  div-add-mod', div-eq_of_lt-le, div-le_self, zero-div, div-lt_iff_lt-mul, one-le-pow,
}
use risc_v_cpu.Base.{ℕ, ◌+◌, ◌-◌, ◌*◌, ◌/◌, ◌%◌, ◌^◌, ◌<◌, ◌≡◌, ◌∙◌, sym, bit_or, IsWord, arith}
use risc_v_cpu.Base.Bits.{bit_or-add, bit_or-lt, bit_and-lt, bit_xor-lt, two_pow-add}
use risc_v_cpu.Base.Int.{signed32, floor_div}
use risc_v_cpu.Alu.{alu, bit_not}

-- A divisor of 2^32, with its cofactor.
module _ (d e : ℕ) (pos : 0 < d) (whole : d * e ≡ 2 ^ 32) where
  quotient_lt : (a : ℕ) → IsWord a → a / d < e
  quotient_lt a ha = (div-lt_iff_lt-mul {x = a} {y = e} pos).1 (omega (arith, whole))

  -- The quotient of the complement is the complement of the quotient.
  quotient_complement : (a : ℕ) → IsWord a → (2 ^ 32 - 1 - a) / d ≡ e - 1 - a / d
  quotient_complement a ha =
      let t = e - 1 - a / d in
      let split : e ≡ a / d + 1 + t = omega (arith, quotient_lt a ha) in
      let spread : d * e ≡ d * (a / d + 1 + t) = ap (λ (x : ℕ). d * x) split in
      div-eq_of_lt-le d (omega (arith, whole, spread, div-add-mod' a d))
        (omega (arith, whole, spread, div-add-mod' a d))

-- A shift by fewer than 32 places divides the word size.
whole_shift : (s : ℕ) → s < 32 → 2 ^ s * 2 ^ (32 - s) ≡ 2 ^ 32
whole_shift s hs =
    let total : s + (32 - s) ≡ 32 = omega arith in
    sym (two_pow-add s (32 - s)) ∙ ap (λ (k : ℕ). 2 ^ k) total

shift_lt : (s a : ℕ) → s < 32 → IsWord a → a / 2 ^ s < 2 ^ (32 - s)
shift_lt s a hs =
    quotient_lt (2 ^ s) (2 ^ (32 - s)) (one-le-pow s 2 (omega arith)) (whole_shift s hs) a

shift_complement :
    (s a : ℕ) → s < 32 → IsWord a → (2 ^ 32 - 1 - a) / 2 ^ s ≡ 2 ^ (32 - s) - 1 - a / 2 ^ s
shift_complement s a hs =
    quotient_complement (2 ^ s) (2 ^ (32 - s)) (one-le-pow s 2 (omega arith)) (whole_shift s hs) a

-- The arm for a set sign bit: ones above the quotient.
high_arm :
    (s a : ℕ)
    → s < 32
    → IsWord a
    → bit_or (bit_not ((2 ^ 32 - 1) / 2 ^ s)) (a / 2 ^ s) ≡ 2 ^ 32 - 2 ^ (32 - s) + a / 2 ^ s
high_arm s a hs ha =
    rw (ones, shifted, bit_or-add (32 - s) (2 ^ s - 1) (a / 2 ^ s) (shift_lt s a hs ha)) total
  where
    ones : (2 ^ 32 - 1) / 2 ^ s ≡ 2 ^ (32 - s) - 1
    ones = shift_complement s 0 hs (omega arith) ∙ omega (arith, zero-div (2 ^ s))

    spread : 2 ^ s * 2 ^ (32 - s) ≡ 2 ^ (32 - s) + (2 ^ s - 1) * 2 ^ (32 - s)
    spread =
        let split : 2 ^ s ≡ 1 + (2 ^ s - 1) = omega (arith, one-le-pow s 2) in
        omega (arith, ap (λ (t : ℕ). t * 2 ^ (32 - s)) split)

    shifted : bit_not (2 ^ (32 - s) - 1) ≡ (2 ^ s - 1) * 2 ^ (32 - s)
    shifted = omega (arith, whole_shift s hs, spread, shift_lt s a hs ha)

    total : (2 ^ s - 1) * 2 ^ (32 - s) + a / 2 ^ s ≡ 2 ^ 32 - 2 ^ (32 - s) + a / 2 ^ s
    total = omega (arith, whole_shift s hs, spread)

-- On words, `sra` is the division of the signed operand by the power of two that the low five bits of the
-- other operand give, rounded down.
pub sra_exact :
    (a b : ℕ)
    → IsWord a
    → IsWord b
    → signed32 (alu 0b0111 a b).result ≡ floor_div (signed32 a) (2 ^ (b % 32))
unfolding alu
sra_exact a b ha hb = ground (
  arith,
  high_arm (b % 32) a,
  shift_lt (b % 32) a,
  shift_complement (b % 32) a,
  div-le_self a (2 ^ (b % 32)),
)

-- Every result is a word, whatever the control bits.
pub result-IsWord : (control a b : ℕ) → IsWord a → IsWord b → IsWord (alu control a b).result
unfolding alu
result-IsWord control a b ha hb = ground (
  arith,
  bit_or-lt 32 a b,
  bit_and-lt 32 a b,
  bit_xor-lt 32 a b,
  div-le_self a (2 ^ (b % 32)),
  high_arm (b % 32) a,
  shift_lt (b % 32) a,
)
