-- ===== src/Processor/Jump.antt =====
-- A `jalr` of rtl/risc_v.sv behind an instruction that writes its base register.
use risc_v_cpu.Base.{ℕ, true, false, ◌≡◌, ◌∙◌, refl, add32, slice, bit}
use risc_v_cpu.Hazard.{hazard_unit}
use risc_v_cpu.ControlUnit.{control_unit}
use risc_v_cpu.Flags.{pc_src}
use risc_v_cpu.Pipeline.{StageD, StageE, front_edge}
use risc_v_cpu.Processor.{
  Machine, decode, processor_edge, hazard_in, pc_src_e, pc_src_of, src_a, write_data_e, execute,
  reg_file_m_edge,
}
use risc_v_cpu.Memory.{Ram}
use risc_v_cpu.SignExtend.{sign_extend}
use risc_v_cpu.Processor.StraightLine.{cycle, cycles}

-- The control bits of `jalr` in stage E.
pub record IsJalr (e : StageE) : Type 0 where
  pub op : e.op_e ≡ 0b1100111
  pub jumps : e.jump_e ≡ true

decode-IsJalr :
    (registers : ℕ → ℕ) (d : StageD) → slice d.instr_d 0 7 ≡ 0b1100111 → IsJalr (decode registers d)
unfolding decode control_unit
decode-IsJalr registers d op = record { op = op; jumps = rw op refl }

jalr-pc_src : (s : Machine) → IsJalr s.front.e → pc_src_e s ≡ true
unfolding pc_src_e pc_src_of pc_src
jalr-pc_src s h = rw h.op refl

module _ (unknown : ℕ) (rom : Ram) (s : Machine) where
  abbrev next : Machine
  next = cycle unknown rom s

  jalr-target :
      IsJalr s.front.e
      → s.m.mem_read_m ≡ false
      → bit s.front.e.result_src_e 0 ≡ false
      → next.front.pc ≡ add32 s.front.e.rd1_e s.front.e.imm_ext_e
  unfolding cycle processor_edge front_edge hazard_in hazard_unit
  jalr-target h quiet no_load = rw (jalr-pc_src s h, quiet, no_load, h.jumps) refl

  module _ (on : pc_src_e s ≡ false) (quiet : s.m.mem_read_m ≡ false)
      (no_load : bit s.front.e.result_src_e 0 ≡ false) where
    goes-on : next.front.e ≡ decode s.registers s.front.d
    unfolding cycle processor_edge front_edge hazard_in hazard_unit
    goes-on = rw (on, quiet, no_load) refl

    moves-on : next.m ≡ execute (src_a s) (write_data_e s) s.front.e
    unfolding cycle processor_edge hazard_in hazard_unit reg_file_m_edge
    moves-on = rw (quiet) refl

-- A `jalr` in stage D, behind an instruction in stage E that neither branches nor reads memory, with no load in stage
-- M, goes in two cycles to the sum of its immediate and what the register file holds for its base register
-- now, whatever stages E and M are about to write to that register.
pub jalr-stale :
    (unknown : ℕ) (rom : Ram) (s : Machine)
    → slice s.front.d.instr_d 0 7 ≡ 0b1100111
    → pc_src_e s ≡ false
    → s.front.e.mem_read_e ≡ false
    → bit s.front.e.result_src_e 0 ≡ false
    → s.m.mem_read_m ≡ false
    → (cycles unknown rom 2 s).front.pc
      ≡ add32 (s.registers (slice s.front.d.instr_d 15 5)) (sign_extend s.front.d.instr_d 0)
unfolding cycles decode execute control_unit
jalr-stale unknown rom s op on no_read no_load quiet =
    let e = goes-on unknown rom s on quiet no_load in
    let m = moves-on unknown rom s on quiet no_load in
    jalr-target unknown rom (cycle unknown rom s) (rw e (decode-IsJalr s.registers s.front.d op))
      (rw m no_read) (rw (e, op) refl)
    ∙ rw (e, op) refl
