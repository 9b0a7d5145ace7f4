-- ===== src/Alu/Arith.antt =====
-- Sums, differences and comparisons of rtl/alu/alu.sv against arithmetic on numbers and integers.
use risc_v_cpu.Base.{ℕ, ◌+◌, ◌*◌, ◌^◌, ◌≡◌, ◌↔◌, IsWord, arith, of_bool}
use risc_v_cpu.Base.Int.{signed32, ◌<ℤ◌}
use risc_v_cpu.Alu.{alu}

-- For words, the carry and the result of `add` together are the sum.
pub add_exact :
    (a b : ℕ)
    → IsWord a
    → IsWord b
    → of_bool (alu 0b0000 a b).c * 2 ^ 32 + (alu 0b0000 a b).result ≡ a + b
unfolding alu
add_exact a b ha hb = ground arith

-- The result of `slt` on words is 1 if `a` is below `b` in two's complement, and 0 otherwise.
pub slt_exact :
    (a b : ℕ)
    → IsWord a
    → IsWord b
    → (((alu 0b0011 a b).result ≡ 1) ↔ (signed32 a <ℤ signed32 b))
      × (((alu 0b0011 a b).result ≡ 0) ↔ (¬ (signed32 a <ℤ signed32 b)))
unfolding alu
slt_exact a b ha hb = ground arith
