-- ===== src/Testbench/DataMem/Agreement.antt =====
-- Which of the tests of the data memory pass.
use risc_v_cpu.Base.{
  ℕ, zero, suc, ◌+◌, ◌≤◌, ◌<◌, ◌≡◌, ◌∙◌, sym, refl, inl, inr, Bool-cases, true, false, ◌&&◌, ◌==◌,
  arith,
}
use risc_v_cpu.Memory.{Ram, wrapper_edge, wrapper_out}
use risc_v_cpu.Memory.Laws.{loaded, Access, sb_lb, sh_lh, sw_lw, wrapper_out-wrapper_edge}
use risc_v_cpu.Testbench.DataMem.{sign_extend_from, loads, stores, lb, lh, lbu, lhu, sb, sh, sw}

arith_zero : (i : ℕ) → i + 0 ≡ i
arith_zero i = omega arith

module _ (unknown : ℕ) where
  -- What a loop of reads that passes says of each address in it.
  loads-at :
      (n i funct3 : ℕ) (expected : ℕ → ℕ) (ram : Ram)
      → loads unknown n i funct3 expected ram ≡ true
      → (k j : ℕ) → j ≡ i + k
      → k < n
      → wrapper_out unknown j funct3 ram ≡ expected j
  unfolding loads
  loads-at zero i funct3 expected ram h k j at lt = absurd (omega arith)
  loads-at (suc n) i funct3 expected ram h zero j at lt = rw (at ∙ arith_zero i) (ground arith)
  loads-at (suc n) i funct3 expected ram h (suc k) j at lt =
      loads-at n (i + 1) funct3 expected ram (ground arith) k j (omega arith) (omega arith)

  -- The wrapper looks at nine bits of the address.
  same_address :
      (funct3 : ℕ) (ram : Ram)
      → wrapper_out unknown 65537 funct3 ram ≡ wrapper_out unknown 66049 funct3 ram
  unfolding wrapper_out
  same_address funct3 ram = refl

  -- A test that wants two different words there fails.
  clash :
      (n funct3 : ℕ) (expected : ℕ → ℕ) (ram : Ram)
      → 2 ≤ n
      → (expected 65537 == 0) ≡ false
      → (loads unknown n 65536 funct3 expected ram && loads unknown 4208 65792 funct3 (λ i. 0) ram)
        ≡ false
  clash n funct3 expected ram two differs =
      elim (Bool-cases (loads unknown n 65536 funct3 expected ram)) [
        | inl first ↦ elim (Bool-cases (loads unknown 4208 65792 funct3 (λ i. 0) ram)) [
          | inl second ↦
              (let one = loads-at n 65536 funct3 expected ram first 1 65537 refl (omega arith) in
                let none_there =
                  loads-at 4208 65792 funct3 (λ i. 0) ram second 257 66049 refl (omega arith) in
                let same = sym one ∙ same_address funct3 ram ∙ none_there in ground (arith, same))
          | inr failed ↦ rw failed (ground arith)
        ]
        | inr failed ↦ rw failed refl
      ]

  loaded-zero : (funct3 : ℕ) → loaded funct3 0 ≡ 0
  unfolding loaded
  loaded-zero funct3 = ground arith

  stores-true :
      (n i funct3 width : ℕ) (ram : Ram)
      → Access funct3 funct3
      → 65536 ≤ i
      → i + n ≤ 65792
      → stores unknown n i funct3 width ram ≡ true
  unfolding stores
  stores-true zero i funct3 width ram kind low high = refl
  stores-true (suc n) i funct3 width ram kind low high =
      let back =
        wrapper_out-wrapper_edge kind unknown i 0 ram (omega arith) (omega arith)
        ∙ loaded-zero funct3 in
      let ih =
        stores-true n (i + 1) funct3 width (wrapper_edge unknown i 0 funct3 true ram) kind
          (omega arith) (omega arith) in
      rw (back, ih) (ground arith)

  -- Whatever the memory holds, the tests of `lb`, `lh`, `lbu` and `lhu` fail: they expect 0 from
  -- an address that the nine bits do not tell from one where they expect another value.
  load_tests-fail :
      (ram : Ram)
      → (lb unknown ram ≡ false)
        × (lh unknown ram ≡ false)
        × (lbu unknown ram ≡ false)
        × (lhu unknown ram ≡ false)
  unfolding lb lh lbu lhu sign_extend_from
  load_tests-fail ram = (
    clash 256 0b000 _ ram (omega arith) refl,
    clash 256 0b001 _ ram (omega arith) refl,
    clash 256 0b100 _ ram (omega arith) refl,
    clash 255 0b101 _ ram (omega arith) refl,
  )

  -- Whatever the memory holds, the tests of `sb`, `sh` and `sw` pass.
  store_tests-hold :
      (ram : Ram) → (sb unknown ram ≡ true) × (sh unknown ram ≡ true) × (sw unknown ram ≡ true)
  unfolding sb sh sw
  store_tests-hold ram = (
    stores-true 256 65536 0b000 8 ram sb_lb (omega arith) (omega arith),
    stores-true 256 65536 0b001 16 ram sh_lh (omega arith) (omega arith),
    stores-true 256 65536 0b010 32 ram sw_lw (omega arith) (omega arith),
  )

  -- Whatever the memory holds, the tests of `lb`, `lh`, `lbu` and `lhu` fail, since they expect 0 from an
  -- address that the nine bits do not tell from one where they expect another value, and those of `sb`, `sh` and
  -- `sw` pass.
  pub data_mem_tests_end :
      (ram : Ram)
      → ((lb unknown ram ≡ false)
          × (lh unknown ram ≡ false)
          × (lbu unknown ram ≡ false)
          × (lhu unknown ram ≡ false))
        × ((sb unknown ram ≡ true) × (sh unknown ram ≡ true) × (sw unknown ram ≡ true))
  data_mem_tests_end ram = (load_tests-fail ram, store_tests-hold ram)
