-- ===== src/Testbench/DataMem/Words.antt =====
-- The test of `lw` of testbench/data_mem_wrapper/data_mem_wrapper_tb.cpp. It expects the bytes of a file that
-- rtl/data_mem/data_mem.sv loads from 0x10000 on, behind the 2^9 bytes of this memory: what stands in them is up to the simulator.
use risc_v_cpu.Base.{
  ◌∙◌, sym, ap, inl, inr, Bool, ◌&&◌, ◌⊎◌, ◌↔◌, ℕ, zero, suc, ◌+◌, ◌-◌, ◌*◌, ◌/◌, ==_iff, ◌%◌, ◌^◌,
  ◌≤◌, ◌<◌, ◌≡◌, refl, true, bit_or, arith,
}
use risc_v_cpu.Base.Bits.{bit_or-add_of_clear}
use risc_v_cpu.Memory.{Ram, ld_decoder, data_mem_read, wrapper_out}
use risc_v_cpu.Testbench.DataMem.{loads, lw}

-- The word that the test expects at byte `a`, and its sum.
abbrev counted : ℕ → ℕ
counted a = bit_or (bit_or (bit_or ((a + 3) * 2 ^ 24) ((a + 2) * 2 ^ 16)) ((a + 1) * 2 ^ 8)) a

counted_lem :
    (a : ℕ) → a < 253 → counted a ≡ (a + 3) * 2 ^ 24 + (a + 2) * 2 ^ 16 + (a + 1) * 2 ^ 8 + a
counted_lem a small =
    rw
      (
        bit_or-add_of_clear 24 ((a + 3) * 2 ^ 24) ((a + 2) * 2 ^ 16) (omega arith) (omega arith),
        bit_or-add_of_clear 16 ((a + 3) * 2 ^ 24 + (a + 2) * 2 ^ 16) ((a + 1) * 2 ^ 8) (omega arith)
            (omega arith),
        bit_or-add_of_clear 8 ((a + 3) * 2 ^ 24 + (a + 2) * 2 ^ 16 + (a + 1) * 2 ^ 8) a
            (omega arith) (omega arith),
      )
      refl

-- The bytes count up from 0.
abbrev pub Counts : Ram → Type 0
Counts ram = (j : ℕ) → j < 255 → ram j ≡ j

module _ (unknown : ℕ) (ram : Ram) (counts : Counts ram) where
  data_mem_read-counted :
      (a : ℕ)
      → a < 252
      → data_mem_read 9 unknown a ram ≡ (a + 3) * 2 ^ 24 + (a + 2) * 2 ^ 16 + (a + 1) * 2 ^ 8 + a
  unfolding data_mem_read
  data_mem_read-counted a small = ground (
    arith,
    counts a (omega arith),
    counts (a + 1) (omega arith),
    counts (a + 2) (omega arith),
    counts (a + 3) (omega arith),
  )

  ld_decoder-word : (w : ℕ) → w < 2 ^ 32 → ld_decoder w 0b010 ≡ w
  unfolding ld_decoder
  ld_decoder-word w small = omega arith

  wrapper_out-counted : (a : ℕ) → a < 252 → wrapper_out unknown (65536 + a) 0b010 ram ≡ counted a
  unfolding wrapper_out
  wrapper_out-counted a small =
      let low : (65536 + a) / 1 % 2 ^ 9 ≡ a = omega arith in
      rw (low, data_mem_read-counted a small, counted_lem a (omega arith))
        (ld_decoder-word _ (omega arith))

  loads-counted :
      (n i a : ℕ)
      → i ≡ 65536 + a
      → a + n ≤ 252
      → loads unknown n i 0b010 (λ i. counted (i - 65536)) ram ≡ true
  unfolding loads
  loads-counted zero i a at fits = refl
  loads-counted (suc n) i a at fits =
      let back : i - 65536 ≡ a = omega arith in
      let here : wrapper_out unknown i 0b010 ram ≡ counted (i - 65536) =
        rw (back, at) (wrapper_out-counted a (omega arith)) in
      rw ((==_iff _ _).1 here, loads-counted n (i + 1) (a + 1) (omega arith) (omega arith)) refl

  lw-counted : lw unknown ram ≡ true
  unfolding lw
  lw-counted = loads-counted 252 65536 0 refl (omega arith)

module _ (unknown : ℕ) (ram : Ram) (bytes : (j : ℕ) → ram j < 2 ^ 8) where
  wrapper_out-bytes :
      (a : ℕ)
      → a < 252
      → wrapper_out unknown (65536 + a) 0b010 ram
        ≡ ram (a + 3) * 2 ^ 24 + ram (a + 2) * 2 ^ 16 + ram (a + 1) * 2 ^ 8 + ram a
  unfolding wrapper_out data_mem_read ld_decoder
  wrapper_out-bytes a small =
      let low : (65536 + a) / 1 % 2 ^ 9 ≡ a = omega arith in
      rw low (ground (arith, bytes a, bytes (a + 1), bytes (a + 2), bytes (a + 3)))

  -- A word that the test accepts has the bytes that it expects.
  accepted :
      (a : ℕ)
      → a < 252
      → wrapper_out unknown (65536 + a) 0b010 ram ≡ counted a
      → (ram a ≡ a) × (ram (a + 1) ≡ a + 1) × (ram (a + 2) ≡ a + 2) × (ram (a + 3) ≡ a + 3)
  accepted a small same =
      let word : ram (a + 3) * 2 ^ 24 + ram (a + 2) * 2 ^ 16 + ram (a + 1) * 2 ^ 8 + ram a
          ≡ (a + 3) * 2 ^ 24 + (a + 2) * 2 ^ 16 + (a + 1) * 2 ^ 8 + a =
        sym (wrapper_out-bytes a small) ∙ same ∙ counted_lem a (omega arith) in
      let b0 = bytes a in
      let b1 = bytes (a + 1) in
      let b2 = bytes (a + 2) in
      let b3 = bytes (a + 3) in (omega arith, omega arith, omega arith, omega arith)

  loads-accepted :
      (n i a j : ℕ)
      → i ≡ 65536 + a
      → a + n ≤ 252
      → loads unknown n i 0b010 (λ i. counted (i - 65536)) ram ≡ true
      → a ≤ j
      → j < a + n + 3
      → 1 ≤ n
      → ram j ≡ j
  unfolding loads
  loads-accepted zero i a j at fits passed low high some_read = absurd (omega arith)
  loads-accepted (suc n) i a j at fits passed low high some_read =
      let back : i - 65536 ≡ a = omega arith in
      let (first, rest) = both _ _ passed in
      let (r0, r1, r2, r3) = accepted a (omega arith) (
        ap (λ (i : ℕ). wrapper_out unknown i 0b010 ram) (sym at)
        ∙ (==_iff _ _).0 first
        ∙ ap counted back) in
      elim (near j) [
        | inl e ↦ rw e r0
        | inr (inl e) ↦ rw e r1
        | inr (inr (inl e)) ↦ rw e r2
        | inr (inr (inr (inl e))) ↦ rw e r3
        | inr (inr (inr (inr far))) ↦
            loads-accepted n (i + 1) (a + 1) j (omega arith) (omega arith) rest (omega arith)
              (omega arith) (omega arith)
      ]
    where
      both : (x y : Bool) → (x && y) ≡ true → (x ≡ true) × (y ≡ true)
      both x y h = ground arith

      near : (j : ℕ) → (j ≡ a) ⊎ (j ≡ a + 1) ⊎ (j ≡ a + 2) ⊎ (j ≡ a + 3) ⊎ ((j < a) ⊎ (a + 4 ≤ j))
      near j = ground arith

-- On a memory of bytes the test of `lw` passes exactly if byte `j` of the memory is `j` for each `j` below 255.
pub lw-passes :
    (unknown : ℕ) (ram : Ram) → ((j : ℕ) → ram j < 2 ^ 8) → (lw unknown ram ≡ true) ↔ Counts ram
unfolding lw
lw-passes unknown ram bytes = (
  λ passed. λ j. λ small.
      loads-accepted unknown ram bytes 252 65536 0 j refl (omega arith) passed (omega arith)
        (omega arith) (omega arith),
  λ counts. lw-counted unknown ram counts,
)
