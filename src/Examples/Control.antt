-- ===== src/Examples/Control.antt =====
-- The testbench of the control unit on instructions that it does not try itself.
use risc_v_cpu.Base.{◌≡◌, refl, true, none, some}
use risc_v_cpu.Testbench.ControlUnit.{Case, passes, connected}
use risc_v_cpu.Testbench.ControlUnit.Cases.{r_type, test_cases, jal}
use risc_v_cpu.Testbench.ControlUnit.Agreement.{here, there, test_cases-hold}

-- `sub x4, x3, x2`, the second test, and `sub x31, x31, x31`.
abbrev second : Case
second = record jal {
  instr = 0x40218233;
  expected = record {
    reg_write = some 1;
    imm_src = none;
    alu_src = some 0;
    mem_write = some 0;
    result_src = some 0;
    pc_src = some 0;
    alu_control = some 1;
    jump = some 0;
  };
}

test_cases-hold_example : passes connected (record second { instr = 0x41FF8FB3 }) ≡ true
unfolding test_cases r_type jal
test_cases-hold_example = test_cases-hold second 0x41FF8FB3 (there here) refl refl refl
