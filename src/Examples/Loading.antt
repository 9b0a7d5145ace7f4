-- ===== src/Examples/Loading.antt =====
-- Two loads, one behind the other, on the processor of rtl/risc_v.sv.
use risc_v_cpu.Base.{◌==◌, if◌then◌else◌, ◌≡◌, refl, true}
use risc_v_cpu.Alu.{alu}
use risc_v_cpu.ControlUnit.{control_unit}
use risc_v_cpu.Flags.{pc_src}
use risc_v_cpu.Hazard.{hazard_unit, lwstall, forward}
use risc_v_cpu.SignExtend.{sign_extend}
use risc_v_cpu.Memory.{Ram, ld_decoder, data_mem_read}
use risc_v_cpu.Cache.{cache_edge}
use risc_v_cpu.Pipeline.{empty_d, operand, reg_file_edge}
use risc_v_cpu.Processor.{
  Machine, decode, execute, alu_of, pc_src_e, pc_src_of, src_a, write_data_e, hazard_in,
}
use risc_v_cpu.Processor.StraightLine.{cycles}
use risc_v_cpu.Processor.Load.{IsHeld, IsLoading}
use risc_v_cpu.Processor.Load.Misses.{load-miss, load-behind-miss}
use risc_v_cpu.Processor.Load.Lost.{target-lost}
use risc_v_cpu.Processor.{instr_mem}
use risc_v_cpu.Pipeline.{bubble}
use risc_v_cpu.Examples.Machine.{power_on}

-- 42 at address 4 and 7 at address 8.
abbrev two_words : Ram
two_words a = if a == 4 then 42 else if a == 8 then 7 else 0

-- `lw x1, 4(x0)` in stage M and `lw x2, 8(x0)` in stage E.
abbrev two_loads : Machine
unfolding decode execute alu_of alu control_unit sign_extend
two_loads = record power_on {
  front = record {
    pc = 8;
    d = empty_d;
    e = decode (λ r. 0) (record { instr_d = 0x00802103; pc_d = 4; pc_plus4_d = 8 });
  };
  m = execute 0 0 (decode (λ r. 0) (record { instr_d = 0x00402083; pc_d = 0; pc_plus4_d = 4 }));
  ram = two_words;
}

two_loads-IsLoading : IsLoading two_loads
unfolding decode execute alu_of alu control_unit sign_extend pc_src_e pc_src_of pc_src src_a
    write_data_e operand hazard_in hazard_unit lwstall forward
two_loads-IsLoading = record {
  load_m = record { reads = refl; no_write = refl; writes_register = refl; result_read = refl };
  no_branch = refl;
  no_load_use = refl;
}

load-miss_example :
    IsHeld two_loads (cycles 0 (λ a. 0) 3 two_loads)
    × ((cycles 0 (λ a. 0) 4 two_loads).registers
        ≡ reg_file_edge true 1 42 (cycles 0 (λ a. 0) 3 two_loads).registers)
    × ((cycles 0 (λ a. 0) 4 two_loads).ram ≡ two_words)
unfolding decode execute alu_of alu control_unit sign_extend ld_decoder data_mem_read cache_edge
load-miss_example = load-miss 0 (λ a. 0) two_loads two_loads-IsLoading refl refl refl

-- 42, and not 7.
load-behind-miss_example :
    (cycles 0 (λ a. 0) 5 two_loads).registers
    ≡ reg_file_edge true 2 42 (cycles 0 (λ a. 0) 4 two_loads).registers
unfolding decode execute alu_of alu control_unit sign_extend ld_decoder data_mem_read cache_edge
load-behind-miss_example =
    load-behind-miss 0 (λ a. 0) two_loads two_loads-IsLoading refl refl refl
      (record { reads = refl; no_write = refl; writes_register = refl; result_read = refl })

-- `jal x0, 16` at 4 in stage E, behind the first load.
abbrev jump_behind_load : Machine
unfolding decode control_unit sign_extend
jump_behind_load = record two_loads {
  front = record {
    pc = 12;
    d = record { instr_d = 0; pc_d = 8; pc_plus4_d = 12 };
    e = decode (λ r. 0) (record { instr_d = 0x0100006F; pc_d = 4; pc_plus4_d = 8 });
  };
}

jump_taken : pc_src_e jump_behind_load ≡ true
unfolding decode control_unit sign_extend pc_src_e pc_src_of pc_src
jump_taken = refl

-- 12 is fetched next, and not 20.
target-lost_example :
    ((cycles 0 (λ a. 0) 3 jump_behind_load).front ≡ record { pc = 12; d = empty_d; e = bubble })
    × ((cycles 0 (λ a. 0) 4 jump_behind_load).front ≡ record {
      pc = 16;
      d = record { instr_d = 0; pc_d = 12; pc_plus4_d = 16 };
      e = decode (cycles 0 (λ a. 0) 3 jump_behind_load).registers empty_d;
    })
unfolding decode execute alu_of alu control_unit sign_extend cache_edge instr_mem data_mem_read
target-lost_example =
    target-lost 0 (λ a. 0) jump_behind_load two_loads-IsLoading.load_m jump_taken refl refl refl
