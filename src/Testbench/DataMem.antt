-- ===== src/Testbench/DataMem.antt =====
-- testbench/data_mem_wrapper/data_mem_wrapper_tb.cpp: its eight tests, on a memory whose contents at the start, which
-- the build copies into place, are an argument.
pub mod Agreement
pub mod Words
use risc_v_cpu.Base.{
  ℕ, zero, suc, ◌+◌, ◌-◌, ◌*◌, ◌%◌, ◌^◌, Bool, true, false, ◌&&◌, ◌==◌, if◌then◌else◌, bit, bit_or,
}
use risc_v_cpu.Memory.{Ram, wrapper_edge, wrapper_out}

-- The 32-bit patterns of `i & ((1 << pos) - 1)` with the bits from `pos` up that the sign gives.
unfoldable pub sign_extend_from : ℕ → ℕ → ℕ
sign_extend_from i pos = if bit i pos then i % 2 ^ pos + (2 ^ 32 - 2 ^ pos) else i % 2 ^ pos

module _ (unknown : ℕ) where
  -- A loop of reads: `n` addresses from `i` on, with the word that each is expected to give.
  unfoldable pub loads : ℕ → ℕ → ℕ → (ℕ → ℕ) → Ram → Bool
  loads zero i funct3 expected ram = true
  loads (suc n) i funct3 expected ram =
      wrapper_out unknown i funct3 ram == expected i && loads n (i + 1) funct3 expected ram

  -- A loop of writes of 0, each read back with the same funct3 and compared in its low `width` bits.
  unfoldable pub stores : ℕ → ℕ → ℕ → ℕ → Ram → Bool
  stores zero i funct3 width ram = true
  stores (suc n) i funct3 width ram =
      let next = wrapper_edge unknown i 0 funct3 true ram in
      wrapper_out unknown i funct3 next % 2 ^ width == 0 && stores n (i + 1) funct3 width next

  unfoldable pub lb : Ram → Bool
  lb ram =
      loads (65792 - 65536) 65536 0b000 (λ i. sign_extend_from (i - 65536) 7) ram
      && loads (70000 - 65792) 65792 0b000 (λ i. 0) ram

  unfoldable pub lh : Ram → Bool
  lh ram =
      loads (65792 - 65536) 65536 0b001
        (λ i. bit_or (sign_extend_from (i - 65536 + 1) 7 * 2 ^ 8 % 2 ^ 32) (i - 65536)) ram
      && loads (70000 - 65792) 65792 0b001 (λ i. 0) ram

  unfoldable pub lw : Ram → Bool
  lw ram =
      loads (65788 - 65536) 65536 0b010
        (λ i.
          bit_or
            (bit_or (bit_or ((i - 65536 + 3) * 2 ^ 24) ((i - 65536 + 2) * 2 ^ 16))
              ((i - 65536 + 1) * 2 ^ 8))
            (i - 65536))
        ram

  unfoldable pub lbu : Ram → Bool
  lbu ram =
      loads (65792 - 65536) 65536 0b100 (λ i. i - 65536) ram
      && loads (70000 - 65792) 65792 0b100 (λ i. 0) ram

  unfoldable pub lhu : Ram → Bool
  lhu ram =
      loads (65791 - 65536) 65536 0b101 (λ i. bit_or ((i - 65536 + 1) * 2 ^ 8) (i - 65536)) ram
      && loads (70000 - 65792) 65792 0b101 (λ i. 0) ram

  unfoldable pub sb : Ram → Bool
  sb ram = stores (65792 - 65536) 65536 0b000 8 ram

  unfoldable pub sh : Ram → Bool
  sh ram = stores (65792 - 65536) 65536 0b001 16 ram

  unfoldable pub sw : Ram → Bool
  sw ram = stores (65792 - 65536) 65536 0b010 32 ram
