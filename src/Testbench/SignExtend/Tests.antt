-- ===== src/Testbench/SignExtend/Tests.antt =====
-- testbench/sign_extend/sign_extend_tb.cpp: the six tests. The random instruction is an argument, and so are the inputs that
-- the simulator gives the ports before a test sets them.
use risc_v_cpu.Base.{
  ℕ, ◌^◌, ◌<◌, ◌≡◌, ◌≢◌, ◌↔◌, ◌⊎◌, inl, inr, Bool, true, ◌&&◌, ◌==◌, ==_iff, IsWord, arith,
}
use risc_v_cpu.SignExtend.{sign_extend}
use risc_v_cpu.Testbench.SignExtend.{expected_value}
use risc_v_cpu.Testbench.SignExtend.Agreement.{expected_value_agrees, expected_value_lacks_sign}

module _ (instr_0 imm_src_0 random : ℕ) where
  -- The assertion on the fresh instance, and the one on the instruction.
  unfoldable pub run_tests : ℕ → Bool
  run_tests din =
      sign_extend instr_0 imm_src_0 == 0 && sign_extend random din == expected_value random din

  unfoldable pub imm_src000 : Bool
  unfolding run_tests
  imm_src000 = run_tests 0b000

  unfoldable pub imm_src001 : Bool
  unfolding run_tests
  imm_src001 = run_tests 0b001

  unfoldable pub imm_src010 : Bool
  unfolding run_tests
  imm_src010 = run_tests 0b010

  unfoldable pub imm_src011 : Bool
  unfolding run_tests
  imm_src011 = run_tests 0b011

  unfoldable pub imm_src100 : Bool
  unfolding run_tests
  imm_src100 = run_tests 0b100

  unfoldable pub other : Bool
  other =
      sign_extend instr_0 imm_src_0 == 0 && sign_extend random 0b111 == expected_value random 0b111

  module _ (word : IsWord random) (fresh : sign_extend instr_0 imm_src_0 ≡ 0) where
    run_tests-agrees : (din : ℕ) → (din ≢ 4) ⊎ (random < 2 ^ 31) → run_tests din ≡ true
    unfolding run_tests
    run_tests-agrees din format =
        rw (fresh, expected_value_agrees random din word format) (ground arith)

    run_tests-positive : run_tests 4 ≡ true → random < 2 ^ 31
    unfolding run_tests
    run_tests-positive passed = ground (
      arith,
      passed,
      expected_value_lacks_sign random word,
      ==_iff (sign_extend random 4) (expected_value random 4),
    )

    -- On an instance whose first output is 0, the five tests but that of `3'b100` pass whatever instruction is drawn,
    -- and that of `3'b100` passes exactly when its sign bit is clear.
    pub sign_extend_tests-pass :
        (imm_src000 ≡ true)
        × (imm_src001 ≡ true)
        × (imm_src010 ≡ true)
        × (imm_src011 ≡ true)
        × ((imm_src100 ≡ true) ↔ (random < 2 ^ 31))
        × (other ≡ true)
    unfolding imm_src000 imm_src001 imm_src010 imm_src011 imm_src100 other run_tests
    sign_extend_tests-pass = (
      run_tests-agrees 0 (inl (omega arith)),
      run_tests-agrees 1 (inl (omega arith)),
      run_tests-agrees 2 (inl (omega arith)),
      run_tests-agrees 3 (inl (omega arith)),
      (run_tests-positive, λ small. run_tests-agrees 4 (inr small)),
      run_tests-agrees 7 (inl (omega arith)),
    )
