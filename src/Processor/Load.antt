-- ===== src/Processor/Load.antt =====
-- A load in stage M of rtl/risc_v.sv: the cycles in which the cache makes the pipeline wait, and what the load hands to stage W.
pub mod Misses
pub mod Lost
use risc_v_cpu.Base.{ℕ, Bool, true, false, ◌≡◌, ◌∙◌, refl, sym, ap, bit, slice}
use risc_v_cpu.Hazard.{hazard_unit, lwstall}
use risc_v_cpu.Memory.{Ram, we_decoder, ld_decoder, data_mem_write, data_mem_read}
use risc_v_cpu.Cache.{Cache, tag_of, set_of, cache_edge, cache_out}
use risc_v_cpu.Cache.Laws.{
  cached, pending, read_edge, read_edge-miss, read_edge-pending, read_edge-again,
}
use risc_v_cpu.Pipeline.{Front, StageD, StageE, front_edge, operand, reg_file_edge}
use risc_v_cpu.Processor.StraightLine.{cycle, cycles}
use risc_v_cpu.Processor.{
  Machine, StageM, StageW, processor_edge, hazard_in, pc_src_e, pc_src_of, src_a, write_data_e,
  alu_of, read_data_m, leave_m, execute, instr_mem, reg_file_m_edge, reg_file_w_edge, result_w,
}

-- What waits while the pipeline is held.
pub record IsHeld (s t : Machine) : Type 0 where
  pub front_held : t.front ≡ s.front
  pub m_held : t.m ≡ s.m
  pub w_held : t.w ≡ s.w
  pub ram_held : t.ram ≡ s.ram

-- A load, as the control unit decodes it.
pub record IsLoad (m : StageM) : Type 0 where
  pub reads : m.mem_read_m ≡ true
  pub no_write : m.mem_write_m ≡ false
  pub writes_register : m.reg_write_m ≡ true
  pub result_read : m.result_src_m ≡ 1

-- A load in stage M, and behind it neither a branch that is taken nor a load that stage D waits for.
pub record IsLoading (s : Machine) : Type 0 where
  pub load_m : IsLoad s.m
  pub no_branch : pc_src_e s ≡ false
  pub no_load_use :
      lwstall s.front.e.rd_e
        (slice s.front.d.instr_d 15 5)
        (slice s.front.d.instr_d 20 5)
        (bit s.front.e.result_src_e 0)
      ≡ false

pc_src_e-held : (s t : Machine) → IsHeld s t → pc_src_e t ≡ pc_src_e s
unfolding pc_src_e src_a write_data_e hazard_in hazard_unit
pc_src_e-held s t held = rw (held.front_held, held.m_held, held.w_held) refl

pub IsLoading-held : (s t : Machine) → IsHeld s t → IsLoading s → IsLoading t
IsLoading-held s t held loading = record {
  load_m = rw held.m_held loading.load_m;
  no_branch = pc_src_e-held s t held ∙ loading.no_branch;
  no_load_use = rw held.front_held loading.no_load_use;
}

pub IsHeld-twice : (s t u : Machine) → IsHeld s t → IsHeld t u → IsHeld s u
IsHeld-twice s t u a b = record {
  front_held = b.front_held ∙ a.front_held;
  m_held = b.m_held ∙ a.m_held;
  w_held = b.w_held ∙ a.w_held;
  ram_held = b.ram_held ∙ a.ram_held;
}

-- The address and the word of the memory there.
abbrev pub address : Machine → ℕ
address s = slice s.m.alu_result_m 0 17

module _ (unknown : ℕ) where
  abbrev pub memory_word : Machine → ℕ
  memory_word s = data_mem_read 17 unknown (address s) s.ram

  module _ (instr : ℕ) (s : Machine) (loading : IsLoading s) where
    abbrev after : Machine
    after = processor_edge unknown false instr s

    pub waits : s.cache.hit ≡ false → IsHeld s after
    unfolding processor_edge front_edge hazard_in hazard_unit reg_file_m_edge reg_file_w_edge
        data_mem_write we_decoder
    waits miss = record {
      front_held = rw (loading.no_branch, loading.no_load_use, miss, loading.load_m.reads) refl;
      m_held = rw (miss, loading.load_m.reads) refl;
      w_held = rw (miss, loading.load_m.reads) refl;
      ram_held = rw loading.load_m.no_write refl;
    }

    pub cache_reads : after.cache ≡ read_edge (address s) (memory_word s) s.cache
    unfolding processor_edge we_decoder cache_edge
    cache_reads = rw (loading.load_m.reads, loading.load_m.no_write) refl

  -- With a hit, a load in stage M writes the word of the cache to its register in the same cycle.
  module _ (instr : ℕ) (s : Machine) (load : IsLoad s.m) (hit : s.cache.hit ≡ true) where
    abbrev next : Machine
    next = processor_edge unknown false instr s

    pub next-registers :
        next.registers
        ≡ reg_file_edge true s.m.rd_m (ld_decoder (cache_out s.cache) s.m.funct3_m) s.registers
    unfolding processor_edge hazard_in hazard_unit reg_file_w_edge read_data_m leave_m result_w
    next-registers = rw (hit, load.reads, load.writes_register, load.result_read) refl

    pub next-ram : next.ram ≡ s.ram
    unfolding processor_edge data_mem_write we_decoder
    next-ram = rw load.no_write refl

    pub next-m : next.m ≡ execute (src_a s) (write_data_e s) s.front.e
    unfolding processor_edge hazard_in hazard_unit reg_file_m_edge
    next-m = rw (hit, load.reads) refl

    pub next-cache : next.cache ≡ read_edge (address s) (memory_word s) s.cache
    unfolding processor_edge we_decoder cache_edge
    next-cache = rw (load.reads, load.no_write) refl

  -- The same for the address and the word of a state from which the pipeline was held.
  pub next-cache-held :
      (instr : ℕ) (s t : Machine)
      → IsHeld s t
      → IsLoad t.m
      → t.cache.hit ≡ true
      → (processor_edge unknown false instr t).cache ≡ read_edge (address s) (memory_word s) t.cache
  next-cache-held instr s t held load hit =
      next-cache instr t load hit ∙ rw (held.m_held, held.ram_held) refl
