-- ===== src/Examples/Jumping.antt =====
-- A `jalr` behind the instruction that sets its base register, on the processor of rtl/risc_v.sv.
use risc_v_cpu.Base.{◌≡◌, refl}
use risc_v_cpu.Alu.{alu}
use risc_v_cpu.ControlUnit.{control_unit}
use risc_v_cpu.Flags.{pc_src}
use risc_v_cpu.SignExtend.{sign_extend}
use risc_v_cpu.Hazard.{hazard_unit, lwstall, forward}
use risc_v_cpu.Pipeline.{operand}
use risc_v_cpu.Processor.{
  Machine, decode, pc_src_e, pc_src_of, src_a, write_data_e, alu_of, hazard_in,
}
use risc_v_cpu.Processor.StraightLine.{cycles}
use risc_v_cpu.Processor.Jump.{jalr-stale}
use risc_v_cpu.Examples.Machine.{power_on}

-- `addi x5, x0, 64` in stage E and `jalr x1, 4(x5)` in stage D.
abbrev jumping : Machine
unfolding decode control_unit sign_extend
jumping = record power_on {
  front = record {
    pc = 8;
    d = record { instr_d = 0x004280E7; pc_d = 4; pc_plus4_d = 8 };
    e = decode (λ r. 0) (record { instr_d = 0x04000293; pc_d = 0; pc_plus4_d = 4 });
  };
}

-- It goes to 4, and not to 68.
jalr-stale_example : (cycles 0 (λ a. 0) 2 jumping).front.pc ≡ 4
unfolding decode control_unit sign_extend pc_src_e pc_src_of pc_src src_a write_data_e alu_of alu
    hazard_in hazard_unit lwstall forward operand
jalr-stale_example = jalr-stale 0 (λ a. 0) jumping refl refl refl refl refl
