-- ===== src/Testbench/ControlUnit/Cases.antt =====
-- The tests of testbench/control_unit/control_unit_tb.cpp.
use risc_v_cpu.Base.{ℕ, true, false, Option, none, some, List, [], ◌∷◌, ◌++◌}
use risc_v_cpu.Testbench.ControlUnit.{Case, Expected}

abbrev expect :
    Option ℕ → Option ℕ → Option ℕ → Option ℕ → Option ℕ → Option ℕ → Option ℕ → Option ℕ → Expected
expect reg_write imm_src alu_src mem_write result_src pc_src alu_control jump = record {
  reg_write = reg_write;
  imm_src = imm_src;
  alu_src = alu_src;
  mem_write = mem_write;
  result_src = result_src;
  pc_src = pc_src;
  alu_control = alu_control;
  jump = jump;
}

-- The register instructions.
unfoldable pub r_type : List Case
r_type =
    record {
      instr = 0x006284b3;
      zero = false;
      c = false;
      v = false;
      n = false;
      expected = expect (some 1) none (some 0) (some 0) (some 0) (some 0) (some 0b0000) (some 0);
    }
    ∷ record {
      instr = 0x40218233;
      zero = false;
      c = false;
      v = false;
      n = false;
      expected = expect (some 1) none (some 0) (some 0) (some 0) (some 0) (some 0b0001) (some 0);
    }
    ∷ record {
      instr = 0x00a29033;
      zero = false;
      c = false;
      v = false;
      n = false;
      expected = expect (some 1) none (some 0) (some 0) (some 0) (some 0) (some 0b0010) (some 0);
    }
    ∷ record {
      instr = 0x003120b3;
      zero = false;
      c = false;
      v = false;
      n = false;
      expected = expect (some 1) none (some 0) (some 0) (some 0) (some 0) (some 0b0011) (some 0);
    }
    ∷ record {
      instr = 0x011837b3;
      zero = false;
      c = false;
      v = false;
      n = false;
      expected = expect (some 1) none (some 0) (some 0) (some 0) (some 0) (some 0b0100) (some 0);
    }
    ∷ record {
      instr = 0x0149c933;
      zero = false;
      c = false;
      v = false;
      n = false;
      expected = expect (some 1) none (some 0) (some 0) (some 0) (some 0) (some 0b0101) (some 0);
    }
    ∷ record {
      instr = 0x01bbda33;
      zero = false;
      c = false;
      v = false;
      n = false;
      expected = expect (some 1) none (some 0) (some 0) (some 0) (some 0) (some 0b0110) (some 0);
    }
    ∷ record {
      instr = 0x416e5ab3;
      zero = false;
      c = false;
      v = false;
      n = false;
      expected = expect (some 1) none (some 0) (some 0) (some 0) (some 0) (some 0b0111) (some 0);
    }
    ∷ record {
      instr = 0x01acec33;
      zero = false;
      c = false;
      v = false;
      n = false;
      expected = expect (some 1) none (some 0) (some 0) (some 0) (some 0) (some 0b1000) (some 0);
    }
    ∷ record {
      instr = 0x01cdfd33;
      zero = false;
      c = false;
      v = false;
      n = false;
      expected = expect (some 1) none (some 0) (some 0) (some 0) (some 0) (some 0b1001) (some 0);
    }
    ∷ []

-- The loads.
unfoldable pub i_load : List Case
i_load =
    record {
      instr = 0x00058503;
      zero = false;
      c = false;
      v = false;
      n = false;
      expected =
          expect (some 1) (some 0b00) (some 1) (some 0) (some 1) (some 0) (some 0b0000) (some 0);
    }
    ∷ record {
      instr = 0x03259503;
      zero = false;
      c = false;
      v = false;
      n = false;
      expected =
          expect (some 1) (some 0b00) (some 1) (some 0) (some 1) (some 0) (some 0b0000) (some 0);
    }
    ∷ record {
      instr = 0x0005A503;
      zero = false;
      c = false;
      v = false;
      n = false;
      expected =
          expect (some 1) (some 0b00) (some 1) (some 0) (some 1) (some 0) (some 0b0000) (some 0);
    }
    ∷ record {
      instr = 0x0465c503;
      zero = false;
      c = false;
      v = false;
      n = false;
      expected =
          expect (some 1) (some 0b00) (some 1) (some 0) (some 1) (some 0) (some 0b0000) (some 0);
    }
    ∷ record {
      instr = 0x0175d503;
      zero = false;
      c = false;
      v = false;
      n = false;
      expected =
          expect (some 1) (some 0b00) (some 1) (some 0) (some 1) (some 0) (some 0b0000) (some 0);
    }
    ∷ []

-- The immediate instructions.
unfoldable pub i_type : List Case
i_type =
    record {
      instr = 0x00530213;
      zero = false;
      c = false;
      v = false;
      n = false;
      expected =
          expect (some 1) (some 0b00) (some 1) (some 0) (some 0) (some 0) (some 0b0000) (some 0);
    }
    ∷ record {
      instr = 0x01009013;
      zero = false;
      c = false;
      v = false;
      n = false;
      expected =
          expect (some 1) (some 0) (some 1) (some 0) (some 0) (some 0) (some 0b0010) (some 0);
    }
    ∷ record {
      instr = 0x00312013;
      zero = false;
      c = false;
      v = false;
      n = false;
      expected =
          expect (some 1) (some 0) (some 1) (some 0) (some 0) (some 0) (some 0b0011) (some 0);
    }
    ∷ record {
      instr = 0x0001b113;
      zero = false;
      c = false;
      v = false;
      n = false;
      expected =
          expect (some 1) (some 0) (some 1) (some 0) (some 0) (some 0) (some 0b0100) (some 0);
    }
    ∷ record {
      instr = 0x1232c213;
      zero = false;
      c = false;
      v = false;
      n = false;
      expected =
          expect (some 1) (some 0) (some 1) (some 0) (some 0) (some 0) (some 0b0101) (some 0);
    }
    ∷ record {
      instr = 0x01f3d313;
      zero = false;
      c = false;
      v = false;
      n = false;
      expected =
          expect (some 1) (some 0) (some 1) (some 0) (some 0) (some 0) (some 0b0110) (some 0);
    }
    ∷ record {
      instr = 0x4074d413;
      zero = false;
      c = false;
      v = false;
      n = false;
      expected =
          expect (some 1) (some 0) (some 1) (some 0) (some 0) (some 0) (some 0b0111) (some 0);
    }
    ∷ record {
      instr = 0x1235e513;
      zero = false;
      c = false;
      v = false;
      n = false;
      expected =
          expect (some 1) (some 0) (some 1) (some 0) (some 0) (some 0) (some 0b1000) (some 0);
    }
    ∷ record {
      instr = 0x00f6f613;
      zero = false;
      c = false;
      v = false;
      n = false;
      expected =
          expect (some 1) (some 0) (some 1) (some 0) (some 0) (some 0) (some 0b1001) (some 0);
    }
    ∷ []

-- The stores.
unfoldable pub s_type : List Case
s_type =
    record {
      instr = 0x00b80023;
      zero = false;
      c = false;
      v = false;
      n = false;
      expected =
          expect (some 0) (some 0b001) (some 1) (some 1) none (some 0) (some 0b0000) (some 0);
    }
    ∷ record {
      instr = 0x02c81123;
      zero = false;
      c = false;
      v = false;
      n = false;
      expected =
          expect (some 0) (some 0b001) (some 1) (some 1) none (some 0) (some 0b0000) (some 0);
    }
    ∷ record {
      instr = 0x00d5a2a3;
      zero = false;
      c = false;
      v = false;
      n = false;
      expected =
          expect (some 0) (some 0b001) (some 1) (some 1) none (some 0) (some 0b0000) (some 0);
    }
    ∷ []

-- The branches.
unfoldable pub b_type : List Case
b_type =
    record {
      instr = 0x00108463;
      zero = false;
      c = false;
      v = false;
      n = false;
      expected = expect (some 0) (some 0b10) (some 0) (some 0) none (some 0) (some 0b001) (some 0);
    }
    ∷ record {
      instr = 0x00108463;
      zero = true;
      c = false;
      v = false;
      n = false;
      expected = expect (some 0) (some 0b10) (some 0) (some 0) none (some 1) (some 0b001) (some 0);
    }
    ∷ record {
      instr = 0x00109463;
      zero = false;
      c = false;
      v = false;
      n = false;
      expected = expect (some 0) (some 0b10) (some 0) (some 0) none (some 1) (some 0b001) (some 0);
    }
    ∷ record {
      instr = 0x00109463;
      zero = true;
      c = false;
      v = false;
      n = false;
      expected = expect (some 0) (some 0b10) (some 0) (some 0) none (some 0) (some 0b001) (some 0);
    }
    ∷ record {
      instr = 0x0010C463;
      zero = false;
      c = false;
      v = true;
      n = true;
      expected = expect (some 0) (some 0b10) (some 0) (some 0) none (some 0) (some 0b001) (some 0);
    }
    ∷ record {
      instr = 0x0010C463;
      zero = false;
      c = false;
      v = false;
      n = true;
      expected = expect (some 0) (some 0b10) (some 0) (some 0) none (some 1) (some 0b001) (some 0);
    }
    ∷ record {
      instr = 0x0010D463;
      zero = false;
      c = false;
      v = false;
      n = true;
      expected = expect (some 0) (some 0b10) (some 0) (some 0) none (some 0) (some 0b001) (some 0);
    }
    ∷ record {
      instr = 0x0010D463;
      zero = false;
      c = false;
      v = true;
      n = true;
      expected = expect (some 0) (some 0b10) (some 0) (some 0) none (some 1) (some 0b001) (some 0);
    }
    ∷ record {
      instr = 0x0010E463;
      zero = false;
      c = false;
      v = false;
      n = false;
      expected = expect (some 0) (some 0b10) (some 0) (some 0) none (some 0) (some 0b001) (some 0);
    }
    ∷ record {
      instr = 0x0010E463;
      zero = false;
      c = true;
      v = false;
      n = false;
      expected = expect (some 0) (some 0b10) (some 0) (some 0) none (some 1) (some 0b001) (some 0);
    }
    ∷ record {
      instr = 0x0010F463;
      zero = false;
      c = true;
      v = false;
      n = false;
      expected = expect (some 0) (some 0b10) (some 0) (some 0) none (some 0) (some 0b001) (some 0);
    }
    ∷ record {
      instr = 0x0010F463;
      zero = false;
      c = false;
      v = false;
      n = false;
      expected = expect (some 0) (some 0b10) (some 0) (some 0) none (some 1) (some 0b001) (some 0);
    }
    ∷ []

-- `auipc` and `lui`.
unfoldable pub u_type : List Case
u_type =
    record {
      instr = 0x00000517;
      zero = false;
      c = false;
      v = false;
      n = false;
      expected = expect (some 1) (some 0b11) none (some 0) (some 0b10) (some 0) none none;
    }
    ∷ record {
      instr = 0xff0105b7;
      zero = false;
      c = false;
      v = false;
      n = false;
      expected =
          expect (some 1) (some 0b011) (some 1) (some 0) (some 0b00) (some 0) (some 0b1011) none;
    }
    ∷ []

-- `jalr`.
unfoldable pub jumps : List Case
jumps =
    record {
      instr = 0x032605e7;
      zero = false;
      c = false;
      v = false;
      n = false;
      expected = expect (some 1) (some 0b000) (some 1) (some 0) (some 0b10) (some 1) none (some 1);
    }
    ∷ []

-- The test of `jal`.
unfoldable pub jal : Case
jal = record {
  instr = 0x018005ef;
  zero = false;
  c = false;
  v = false;
  n = false;
  expected = expect (some 1) (some 0b100) (some 1) (some 0) (some 0b11) (some 1) none (some 0);
}

-- All tests but that of `jal`.
unfoldable pub test_cases : List Case
unfolding r_type i_load i_type s_type b_type u_type jumps
test_cases = r_type ++ i_load ++ i_type ++ s_type ++ b_type ++ u_type ++ jumps
