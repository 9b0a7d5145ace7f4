-- ===== src/Examples/Machine.antt =====
-- The whole processor of rtl/risc_v.sv on concrete states and programs.
use risc_v_cpu.Base.{ℕ, ◌≡◌, ◌≢◌, inl, inr, refl, true, false, [], ◌∷◌, ◌==◌, if◌then◌else◌}
use risc_v_cpu.Memory.{Ram}
use risc_v_cpu.Cache.{Block, Cache}
use risc_v_cpu.ControlUnit.Execute.{add, sub, srl, sra}
use risc_v_cpu.Pipeline.{bubble, empty_d, reg_file_edge}
use risc_v_cpu.Processor.{Machine, instr_mem}
use risc_v_cpu.Processor.InOrder.{IsReady, architectural, empty_d-IsSimple, bubble-IsSimpleE}
use risc_v_cpu.Processor.StraightLine.{cycles, in_order, ArePlain, cycles-in_order}
use risc_v_cpu.Processor.Registers.{edges, edges-zero}
use risc_v_cpu.Testbench.RiscV.{passes}
use risc_v_cpu.Testbench.RiscV.Tests.{early_tests, addi_test}
use risc_v_cpu.Testbench.RiscV.Early.{IsPoweredOn, here, early_tests-fail}

abbrev no_block : Block
no_block = record { valid = false; tag = 0; word = 0 }

abbrev empty_cache : Cache
empty_cache = record { blocks = λ i. no_block; hit = false; a_tag = 0; a_set = 0 }

-- A processor that has just been switched on.
abbrev pub power_on : Machine
power_on = record {
  front = record { pc = 0xBFC00000; d = empty_d; e = bubble };
  m = record {
    reg_write_m = false;
    result_src_m = 0;
    mem_write_m = false;
    mem_read_m = false;
    alu_result_m = 0;
    write_data_m = 0;
    rd_m = 0;
    pc_plus4_m = 0;
    funct3_m = 0;
  };
  w = record {
    reg_write_w = false;
    result_src_w = 0;
    alu_result_w = 0;
    read_data_w = 0;
    rd_w = 0;
    pc_plus4_w = 0;
    funct3_w = 0;
  };
  registers = λ r. 0;
  ram = λ a. 0;
  cache = empty_cache;
}

-- `addi x5, x0, 3` at 0xBFC00000 and `add x5, x5, x5` behind it, which takes x5 from stage M.
abbrev doubling : Ram
doubling a =
    if a == 0xBFC00000
    then 0x93
    else if a == 0xBFC00001
    then 0x02
    else if a == 0xBFC00002
    then 0x30
    else if a == 0xBFC00004
    then 0xB3
    else if a == 0xBFC00005
    then 0x82
    else if a == 0xBFC00006
    then 0x52
    else 0

-- With these stages any program counter will do.
pub at-IsReady :
    (pc : ℕ)
    → IsReady (λ r. 0) (record power_on { front = record { pc = pc; d = empty_d; e = bubble } })
unfolding reg_file_edge
at-IsReady pc = record {
  simple_d = empty_d-IsSimple;
  simple_e = bubble-IsSimpleE;
  simple_m = record { result_m = inl refl; no_load = refl };
  settled = inl refl;
  written = refl;
  zero = refl;
  read_1 = refl;
  read_2 = refl;
}

doubling-ArePlain : ArePlain 0 doubling 2 0xBFC00000
unfolding instr_mem
doubling-ArePlain = (inr (inl refl), (inl refl, tt))

cycles-in_order_example :
    (architectural (cycles 0 doubling 2 power_on)
      ≡ in_order 0 doubling 2 0xBFC00000 (architectural power_on))
    × ((cycles 0 doubling 2 power_on).ram ≡ power_on.ram)
    × ((new : ℕ → ℕ) × IsReady new (cycles 0 doubling 2 power_on))
cycles-in_order_example =
    cycles-in_order 0 doubling 2 (λ r. 0) power_on (at-IsReady 0xBFC00000) (inr (inr (inr refl)))
      (inr (inr (inr refl))) refl doubling-ArePlain

pub add-sub : add ≢ sub
add-sub = cc

add-shifts : (add ≢ srl) × (add ≢ sra)
add-shifts = (cc, cc)

edges-zero_example :
    (edges 0
        ((true, 0) ∷ (false, 0x00300013) ∷ (false, 0) ∷ (false, 0) ∷ (false, 0) ∷ [])
        power_on).registers
      0
    ≡ 0
edges-zero_example =
    edges-zero 0 ((true, 0) ∷ (false, 0x00300013) ∷ (false, 0) ∷ (false, 0) ∷ (false, 0) ∷ [])
      power_on refl

power_on-IsPoweredOn : IsPoweredOn power_on
power_on-IsPoweredOn = record { quiet = (refl, refl, refl, refl); clear = λ r. refl }

early_tests-fail_example : passes 0 doubling addi_test power_on ≡ false
unfolding early_tests
early_tests-fail_example = early_tests-fail addi_test 0 doubling power_on here power_on-IsPoweredOn
