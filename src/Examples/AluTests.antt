-- ===== src/Examples/AluTests.antt =====
-- The testbench of the arithmetic unit with a shift that it does not try.
use risc_v_cpu.Base.{◌≡◌, inl, refl, true, false, arith}
use risc_v_cpu.Testbench.Alu.{Case, passes, sums, left_shift, alu_tests}
use risc_v_cpu.Testbench.Alu.Agreement.{here, there, longer, alu_tests-hold}

-- The left shift by 3, the fifth test.
abbrev by_3 : Case
by_3 = record {
  control = 0b0010;
  src_a = 0x000037D8;
  src_b = 3;
  result = 0x0001BEC0;
  zero_flag = false;
  n = false;
  v = false;
  c = false;
}

alu_tests-hold_example : passes (record by_3 { src_b = 35 }) ≡ true
unfolding alu_tests sums left_shift
alu_tests-hold_example =
    alu_tests-hold by_3 (record by_3 { src_b = 35 }) (there (there (there (there here))))
      (longer 1 (inl refl) (omega arith) (omega arith))
