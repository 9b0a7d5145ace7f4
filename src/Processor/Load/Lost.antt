-- ===== src/Processor/Load/Lost.antt =====
-- A branch of rtl/risc_v.sv that is taken in stage E while a load in stage M misses the cache.
use risc_v_cpu.Base.{ℕ, Bool, true, false, ◌≡◌, ◌∙◌, refl, ap, add32, not, ◌&&◌, ◌||◌}
use risc_v_cpu.Hazard.{hazard_unit, lwstall}
use risc_v_cpu.Memory.{Ram, we_decoder, data_mem_write}
use risc_v_cpu.Cache.{cache_edge}
use risc_v_cpu.Cache.Laws.{cached, pending, read_edge, read_edge-miss}
use risc_v_cpu.Pipeline.{Front, bubble, empty_d, front_edge}
use risc_v_cpu.Pipeline.Laws.{front_edge-running}
use risc_v_cpu.Processor.{
  Machine, processor_edge, pc_src_e, hazard_in, instr_mem, decode, reg_file_m_edge,
}
use risc_v_cpu.Processor.InOrder.{pc_src_e-empty}
use risc_v_cpu.Processor.StraightLine.{cycle, cycles}
use risc_v_cpu.Processor.Load.{IsLoad, IsLoading, address, memory_word}
use risc_v_cpu.Processor.Load.Misses.{IsHeld-on}

or_true : (b : Bool) → (b || true) ≡ true
or_true true = refl
or_true false = refl

module _ (unknown : ℕ) (rom : Ram) (s : Machine) (load : IsLoad s.m) (taken : pc_src_e s ≡ true)
    (no_hit : s.cache.hit ≡ false) where
  abbrev s1 : Machine
  s1 = cycle unknown rom s

  front_1 : s1.front ≡ record { pc = s.front.pc; d = empty_d; e = bubble }
  unfolding cycle processor_edge front_edge hazard_in hazard_unit
  front_1 = rw (taken, no_hit, load.reads, or_true) refl

  m_1 : s1.m ≡ s.m
  unfolding cycle processor_edge hazard_in hazard_unit reg_file_m_edge
  m_1 = rw (no_hit, load.reads) refl

  ram_1 : s1.ram ≡ s.ram
  unfolding cycle processor_edge data_mem_write we_decoder
  ram_1 = rw load.no_write refl

  cache_1 : s1.cache ≡ read_edge (address s) (memory_word unknown s) s.cache
  unfolding cycle processor_edge we_decoder cache_edge
  cache_1 = rw (load.reads, load.no_write) refl

  s1-IsLoading : IsLoading s1
  unfolding lwstall
  s1-IsLoading = record {
    load_m = rw m_1 load;
    no_branch = pc_src_e-empty s1 (ap (λ (f : Front). f.e.op_e) front_1);
    no_load_use = rw front_1 refl;
  }

  running :
      (t : Machine) (instr : ℕ)
      → IsLoading t
      → t.cache.hit ≡ true
      → (processor_edge unknown false instr t).front ≡ record {
        pc = add32 t.front.pc 4;
        d = record { instr_d = instr; pc_d = t.front.pc; pc_plus4_d = add32 t.front.pc 4 };
        e = decode t.registers t.front.d;
      }
  unfolding processor_edge hazard_in
  running t instr loading hit =
      let no_miss : (t.m.mem_read_m && not t.cache.hit) ≡ false =
        rw (hit, loading.load_m.reads) refl in
      front_edge-running (hazard_in (pc_src_e t) t) instr (decode t.registers t.front.d) t.front
        loading.no_load_use no_miss
      ∙ rw loading.no_branch refl

  -- With a load in stage M and a branch or jump in stage E that is taken, where the cache has no hit, none coming for the
  -- address before, and does not hold the address of the load behind the first cycle: behind three cycles the
  -- program counter is the old one, with stages D and E empty, and with the fourth the instruction at that
  -- program counter is fetched, whatever the target of the branch was.
  pub target-lost :
      pending s.cache ≡ false
      → cached (read_edge (address s) (memory_word unknown s) s.cache) (address s) ≡ false
      → ((cycles unknown rom 3 s).front ≡ record { pc = s.front.pc; d = empty_d; e = bubble })
        × ((cycles unknown rom 4 s).front ≡ record {
          pc = add32 s.front.pc 4;
          d = record {
            instr_d = instr_mem rom s.front.pc;
            pc_d = s.front.pc;
            pc_plus4_d = add32 s.front.pc 4;
          };
          e = decode (cycles unknown rom 3 s).registers empty_d;
        })
  unfolding cycles cycle
  target-lost no_pending absent =
      let (h1, h2, h3, out) =
        read_edge-miss (address s) (memory_word unknown s) s.cache no_hit no_pending absent in
      let (held2, c2, l2) = IsHeld-on unknown rom s1 s1-IsLoading (rw cache_1 h1) in
      let s2 = cycle unknown rom s1 in
      let (held3, c3, l3) = IsHeld-on unknown rom s2 l2 (rw (c2, m_1, ram_1, cache_1) h2) in
      let s3 = cycle unknown rom s2 in
      let hit : s3.cache.hit ≡ true =
        rw (c3, held2.m_held, held2.ram_held, c2, m_1, ram_1, cache_1) h3 in
      let front = held3.front_held ∙ held2.front_held ∙ front_1 in
      (front, running s3 (instr_mem rom s3.front.pc) l3 hit ∙ rw front refl)
