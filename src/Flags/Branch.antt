-- ===== src/Flags/Branch.antt =====
-- Conditional branches of rtl/flags/flags.sv with the flags of rtl/alu/alu.sv against the
-- comparisons that the instructions stand for.
use risc_v_cpu.Base.{ℕ, ◌+◌, ◌^◌, ◌≤◌, ◌<◌, ◌≡◌, ◌↔◌, ◌≢◌, ◌⊎◌, true, IsWord, arith}
use risc_v_cpu.Base.Int.{signed32, ◌<ℤ◌, ◌≤ℤ◌}
use risc_v_cpu.Alu.{alu}
use risc_v_cpu.Flags.{pc_src, branch_taken}

pub unsigned_branches :
    (a b : ℕ)
    → IsWord a
    → IsWord b
    → ((branch_taken 0b000 a b ≡ true) ↔ (a ≡ b))
      × ((branch_taken 0b001 a b ≡ true) ↔ (a ≢ b))
      × ((branch_taken 0b110 a b ≡ true) ↔ (a < b))
      × ((branch_taken 0b111 a b ≡ true) ↔ (b ≤ a))
unfolding branch_taken pc_src alu
unsigned_branches a b ha hb = (ground arith, ground arith, ground arith, ground arith)

-- The operands at which blt and bge go by the sign of a difference that the overflow flag, computed
-- for a sum, does not repair: of one sign and out of order, or of two signs with a difference that
-- does not fit.
abbrev pub Misjudged : ℕ → ℕ → Type 0
Misjudged a b =
    ((a < b) × (b < 2 ^ 31))
    ⊎ ((2 ^ 31 ≤ b) × (b < a))
    ⊎ ((a < 2 ^ 31) × (2 ^ 31 ≤ b) × (b ≤ a + 2 ^ 31))
    ⊎ ((b < 2 ^ 31) × (2 ^ 31 ≤ a) × (a < b + 2 ^ 31))

signed_branches :
    (a b : ℕ)
    → IsWord a
    → IsWord b
    → ((branch_taken 0b101 a b ≡ true) ↔ (branch_taken 0b100 a b ≢ true))
      × ((branch_taken 0b100 a b ≡ true) ↔ (
          ((¬ Misjudged a b) × (signed32 a <ℤ signed32 b))
          ⊎ (Misjudged a b × (signed32 b ≤ℤ signed32 a))))
unfolding branch_taken pc_src alu
signed_branches a b ha hb = (ground arith, ground arith)

-- On words, beq and bne compare for equality, and bltu and bgeu compare as unsigned numbers; bge is taken exactly when
-- blt is not, and the decision of blt agrees with the comparison in two's complement outside `Misjudged`
-- and is the opposite of it in `Misjudged`.
pub branches-compare :
    (a b : ℕ)
    → IsWord a
    → IsWord b
    → ((branch_taken 0b000 a b ≡ true) ↔ (a ≡ b))
      × ((branch_taken 0b001 a b ≡ true) ↔ (a ≢ b))
      × ((branch_taken 0b110 a b ≡ true) ↔ (a < b))
      × ((branch_taken 0b111 a b ≡ true) ↔ (b ≤ a))
      × ((branch_taken 0b101 a b ≡ true) ↔ (branch_taken 0b100 a b ≢ true))
      × ((branch_taken 0b100 a b ≡ true) ↔ (
          ((¬ Misjudged a b) × (signed32 a <ℤ signed32 b))
          ⊎ (Misjudged a b × (signed32 b ≤ℤ signed32 a))))
branches-compare a b ha hb =
    let (beq, bne, bltu, bgeu) = unsigned_branches a b ha hb in
    let (bge, blt) = signed_branches a b ha hb in (beq, bne, bltu, bgeu, bge, blt)
