-- ===== src/Processor/Load/Misses.antt =====
-- A load of rtl/risc_v.sv that the cache does not hold, cycle by cycle, and a load right behind it.
use risc_v_cpu.Base.{ℕ, true, false, ◌≡◌, ◌∙◌, refl}
use risc_v_cpu.Memory.{Ram, ld_decoder}
use risc_v_cpu.Cache.{cache_edge, cache_out}
use risc_v_cpu.Cache.Laws.{
  cached, pending, read_edge, read_edge-miss, read_edge-pending, read_edge-again,
}
use risc_v_cpu.Pipeline.{reg_file_edge}
use risc_v_cpu.Processor.{Machine, processor_edge, src_a, write_data_e, execute, instr_mem}
use risc_v_cpu.Processor.StraightLine.{cycle, cycles}
use risc_v_cpu.Processor.Load.{
  IsHeld, IsLoad, IsLoading, IsLoading-held, IsHeld-twice, address, memory_word, waits, cache_reads,
  next-registers, next-ram, next-m, next-cache-held,
}

module _ (unknown : ℕ) (rom : Ram) where
  -- The first cycles of a load that misses.
  pub IsHeld-on :
      (s : Machine)
      → IsLoading s
      → s.cache.hit ≡ false
      → IsHeld s (cycle unknown rom s)
        × ((cycle unknown rom s).cache ≡ read_edge (address s) (memory_word unknown s) s.cache)
        × IsLoading (cycle unknown rom s)
  unfolding cycle
  IsHeld-on s loading miss =
      let i = instr_mem rom s.front.pc in
      let held = waits unknown i s loading miss in
      (
        held,
        cache_reads unknown i s loading,
        IsLoading-held s (processor_edge unknown false i s) held loading,
      )

  module _ (s : Machine) (loading : IsLoading s) where
    abbrev a : ℕ
    a = address s

    abbrev word : ℕ
    word = memory_word unknown s

    -- Neither the address now, nor the one before it, is in the cache.
    module _ (no_hit : s.cache.hit ≡ false) (no_pending : pending s.cache ≡ false)
        (absent : cached (read_edge (address s) (memory_word unknown s) s.cache) (address s)
          ≡ false) where
      three :
          IsHeld s (cycles unknown rom 3 s)
          × IsLoading (cycles unknown rom 3 s)
          × ((cycles unknown rom 3 s).cache
              ≡ read_edge a word (read_edge a word (read_edge a word s.cache)))
      unfolding cycles
      three =
          let (h1, h2, h3, out) = read_edge-miss a word s.cache no_hit no_pending absent in
          let (held1, c1, l1) = IsHeld-on s loading no_hit in
          let s1 = cycle unknown rom s in
          let (held2, c2, l2) = IsHeld-on s1 l1 (rw c1 h1) in
          let s2 = cycle unknown rom s1 in
          let to2 = IsHeld-twice s s1 s2 held1 held2 in
          let (held3, c3, l3) = IsHeld-on s2 l2 (rw (c2, held1.m_held, held1.ram_held, c1) h2) in
          (
            IsHeld-twice s s2 (cycle unknown rom s2) to2 held3,
            l3,
            rw (c3, to2.m_held, to2.ram_held, c2, held1.m_held, held1.ram_held, c1) refl,
          )

      at_three :
          ((cycles unknown rom 3 s).cache.hit ≡ true)
          × (cache_out (cycles unknown rom 3 s).cache ≡ word)
      at_three =
          let (h1, h2, h3, out) = read_edge-miss a word s.cache no_hit no_pending absent in
          let (held, again, c) = three in (rw c h3, rw c out)

      abbrev s3 : Machine
      s3 = cycles unknown rom 3 s

      -- A load in stage M, with neither a taken branch in stage E behind it nor a load there that
      -- stage D waits for, where the cache has no hit, none coming for the address before, and
      -- does not hold the address of the load behind the first cycle, waits three cycles, in which
      -- the program counter, the pipeline registers and the memory are held. With the fourth its
      -- register has the word of the memory, as the load decoder gives it.
      pub load-miss :
          IsHeld s (cycles unknown rom 3 s)
          × ((cycles unknown rom 4 s).registers
              ≡ reg_file_edge true s.m.rd_m
                  (ld_decoder (memory_word unknown s) s.m.funct3_m)
                  (cycles unknown rom 3 s).registers)
          × ((cycles unknown rom 4 s).ram ≡ s.ram)
      unfolding cycles cycle
      load-miss =
          let (held, again, c) = three in
          let (hit, out) = at_three in
          let i = instr_mem rom s3.front.pc in
          (
            held,
            next-registers unknown i s3 again.load_m hit ∙ rw (out, held.m_held) refl,
            next-ram unknown i s3 again.load_m hit ∙ held.ram_held,
          )

      -- The cache still hits in the cycle behind that, on the same word.
      at_four :
          ((cycles unknown rom 4 s).cache.hit ≡ true)
          × (cache_out (cycles unknown rom 4 s).cache ≡ word)
          × ((cycles unknown rom 4 s).m ≡ execute (src_a s3) (write_data_e s3) s.front.e)
      unfolding cycles cycle cache_edge
      at_four =
          let (held, again, c) = three in
          let (hit, out) = at_three in
          let i = instr_mem rom s3.front.pc in
          let c1 = read_edge a word s.cache in
          let c2 = read_edge a word c1 in
          let (h1, h2, h3, out3) = read_edge-miss a word s.cache no_hit no_pending absent in
          let (hit4, out4) =
            read_edge-again a word (read_edge a word c2) h3
              (read_edge-pending a word c2 h2 refl refl) refl in
          let kept = next-cache-held unknown i s s3 held again.load_m hit in
          (
            rw (kept, c) hit4,
            rw (kept, c) (out4 ∙ out3),
            next-m unknown i s3 again.load_m hit ∙ rw held.front_held refl,
          )

      -- With a load in stage M, no taken branch in stage E and no load there that stage D waits
      -- for, where the cache has no hit, none coming for the address before, and does not hold the
      -- address of the load behind the first cycle: a load in stage E, right behind it, gets with
      -- the fifth cycle the word of the first load's address, as its own load decoder gives it,
      -- whatever address it reads itself.
      pub load-behind-miss :
          IsLoad (execute 0 0 s.front.e)
          → ((cycles unknown rom 5 s).registers
              ≡ reg_file_edge true s.front.e.rd_e
                  (ld_decoder (memory_word unknown s) s.front.e.funct3_e)
                  (cycles unknown rom 4 s).registers)
      unfolding cycles cycle execute
      load-behind-miss load =
          let s4 = cycles unknown rom 4 s in
          let (hit, out, m) = at_four in
          let there : IsLoad s4.m = record {
            reads = rw m load.reads;
            no_write = rw m load.no_write;
            writes_register = rw m load.writes_register;
            result_read = rw m load.result_read;
          } in
          next-registers unknown (instr_mem rom s4.front.pc) s4 there hit ∙ rw (out, m) refl
