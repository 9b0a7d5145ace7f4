-- ===== src/Processor/Widths/Edge.antt =====
-- A clock cycle of rtl/risc_v.sv keeps each bus within its width.
use risc_v_cpu.Base.{ℕ, Bool, slice, arith, List, [], ◌∷◌}
use risc_v_cpu.Hazard.{HazardIn, hazard_unit}
use risc_v_cpu.Memory.{data_mem_read}
use risc_v_cpu.Pipeline.{front_edge}
use risc_v_cpu.Processor.{Machine, decode, processor_edge, src_a, write_data_e, hazard_in, pc_src_e}
use risc_v_cpu.Processor.Registers.{edges}
use risc_v_cpu.Processor.Widths.{Fits, FitsD, FitsE, FitsBuses, reg_file-Fits, operand-Fits}
use risc_v_cpu.Processor.Widths.Stages.{
  decode-Fits, execute-Fits, leave_m-Fits, result_w-Fits, read_data_m-Fits, data_mem_read-Fits,
  data_mem_write-Fits, cache_edge-Fits, pc_next-Fits, pc_edge-Fits, reg_file_d_edge-Fits,
  reg_file_e_edge-Fits, reg_file_m_edge-Fits, reg_file_w_edge-Fits,
}

module _ (s : Machine) (here : FitsBuses s) where
  src_a-Fits : Fits 32 (src_a s)
  unfolding src_a
  src_a-Fits =
      operand-Fits _ _ _ _ here.m_fits.alu_result_fits (result_w-Fits s.w here.w_fits)
        here.e_fits.rd1_fits

  write_data_e-Fits : Fits 32 (write_data_e s)
  unfolding write_data_e
  write_data_e-Fits =
      operand-Fits _ _ _ _ here.m_fits.alu_result_fits (result_w-Fits s.w here.w_fits)
        here.e_fits.rd2_fits

  front-Fits :
      (rst : Bool) (i : HazardIn) (instr : ℕ)
      → Fits 32 instr
      → (let f = front_edge rst i instr (decode s.registers s.front.d) s.front in
          Fits 32 f.pc × FitsD f.d × FitsE f.e)
  unfolding front_edge
  front-Fits rst i instr fits = (
    pc_edge-Fits rst (hazard_unit i).stall_f _ s.front.pc
        (pc_next-Fits i.pc_src_e s.front.e s.front.pc) here.pc_fits,
    reg_file_d_edge-Fits _ _ _ _
        (record { instr_fits = fits; pc_fits = here.pc_fits; pc_plus4_fits = omega arith })
        here.d_fits,
    reg_file_e_edge-Fits _ _ _ _ (decode-Fits s.registers s.front.d here.registers_fit here.d_fits)
        here.e_fits,
  )

-- The instructions that are fetched.
abbrev pub AreWords : List (Bool × ℕ) → Type 0
AreWords [] = Unit
AreWords ((rst, instr) ∷ rest) = Fits 32 instr × AreWords rest

module _ (unknown : ℕ) (byte : Fits 8 unknown) where
  processor_edge-Fits :
      (rst : Bool) (instr : ℕ) (s : Machine)
      → Fits 32 instr
      → FitsBuses s
      → FitsBuses (processor_edge unknown rst instr s)
  unfolding processor_edge
  processor_edge-Fits rst instr s fits here =
      let a = slice s.m.alu_result_m 0 17 in
      let word = data_mem_read 17 unknown a s.ram in
      let (pc, d, e) = front-Fits s here rst (hazard_in (pc_src_e s) s) instr fits in
      let word_fits = data_mem_read-Fits unknown byte a s.ram here.ram_fits in
      let w =
        reg_file_w_edge-Fits (hazard_unit (hazard_in (pc_src_e s) s)).stall_w _ s.w
          (leave_m-Fits _ s.m (read_data_m-Fits word s.cache s.m word_fits here.cache_fits)
            here.m_fits)
          here.w_fits in
      record {
        pc_fits = pc;
        d_fits = d;
        e_fits = e;
        m_fits =
            reg_file_m_edge-Fits _ _ _
              (execute-Fits _ _ s.front.e (src_a-Fits s here) (write_data_e-Fits s here)
                here.e_fits)
              here.m_fits;
        w_fits = w;
        registers_fit = reg_file-Fits _ _ _ s.registers (result_w-Fits _ w) here.registers_fit;
        ram_fits = data_mem_write-Fits unknown byte _ a _ s.ram here.ram_fits;
        cache_fits = cache_edge-Fits _ _ a _ word s.cache word_fits here.cache_fits;
      }

  -- From a state in which each register, byte and field fits the width it is declared with, every
  -- sequence of cycles ends in such a state, whenever RST is set, if each instruction
  -- is a word and the simulator gives a byte for an address outside the memory.
  pub edges-FitsBuses :
      (l : List (Bool × ℕ)) (s : Machine) → AreWords l → FitsBuses s → FitsBuses (edges unknown l s)
  unfolding edges
  edges-FitsBuses [] s words here = here
  edges-FitsBuses ((rst, instr) ∷ l) s (word, words) here =
      edges-FitsBuses l (processor_edge unknown rst instr s) words
        (processor_edge-Fits rst instr s word here)
