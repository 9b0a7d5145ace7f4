-- ===== src/Processor/Cycle.antt =====
-- What a clock cycle of rtl/risc_v.sv does to each part when arithmetic, branches, `jal` and stores are in
-- flight.
use risc_v_cpu.Base.{
  ℕ, Bool, true, false, ◌⊎◌, ap, arith, not, ◌&&◌, ◌≡◌, inl, inr, refl, ◌∙◌, sym, bit, slice, add32,
  Bool-cases,
}
use risc_v_cpu.Hazard.{forward, hazard_unit, lwstall}
use risc_v_cpu.Pipeline.{StageE, Front, operand, StageD, bubble, empty_d, reg_file_edge}
use risc_v_cpu.Pipeline.Laws.{operand-forward, front_edge-running}
use risc_v_cpu.Processor.{
  StageM, Machine, decode, result_w, alu_of, pc_src_of, execute, leave_m, reg_file_m_edge,
  reg_file_w_edge, hazard_in, src_a, write_data_e, pc_src_e, processor_edge,
}
use risc_v_cpu.Processor.Registers.{edge-zero}
use risc_v_cpu.Processor.Visible.{store_m, store_e, commit_m, commit_e}
use risc_v_cpu.Processor.InOrder.{
  retire_m, retire_e, retire, architectural, IsPlain, IsSimple, IsSimpleM, IsReady, result_of,
  jal-pc_src, decode-IsSimpleE, plain-pc_src, empty_d-IsSimple, bubble-IsSimpleE,
}

reg_file_edge-zero :
    (we : Bool) (rd v : ℕ) (registers : ℕ → ℕ) → reg_file_edge we rd v registers 0 ≡ registers 0
unfolding reg_file_edge
reg_file_edge-zero we rd v registers = ground arith

operand-zero :
    (rd_m rd_w v_m v_w rd : ℕ) (we_m we_w : Bool)
    → operand (forward rd_m 0 rd_w we_m we_w) v_m v_w rd ≡ rd
unfolding operand forward
operand-zero rd_m rd_w v_m v_w rd we_m we_w = ground arith

module _ (old : ℕ → ℕ) (s : Machine) (ready : IsReady old s) where
  pub no_branch : IsPlain s.front.e.op_e → pc_src_e s ≡ false
  unfolding pc_src_e pc_src_of
  no_branch plain = plain-pc_src _ _ _ _ _ _ _ plain

  no_jump : pc_src_e s ≡ true → s.front.e.jump_e ≡ false
  no_jump taken = elim ready.simple_e.no_jump [
    | inl empty ↦ (let not_taken = no_branch (inr (inr (inr empty))) in cc)
    | inr straight ↦ straight
  ]

  -- The operands that stage E gets are those of the register file with stage M retired. Behind a `jal`
  -- stage E reads register 0 only.
  forwarded :
      (rs rd : ℕ)
      → ((s.m.result_src_m ≡ 0) ⊎ (rs ≡ 0))
      → rd ≡ old rs
      → operand
          (forward s.m.rd_m rs s.w.rd_w s.m.reg_write_m s.w.reg_write_w)
          s.m.alu_result_m
          (result_w s.w)
          rd
        ≡ retire_m s.m s.registers rs
  unfolding retire_m result_of
  forwarded rs rd (inl alu) read =
      rw (read, ready.written, alu)
        (operand-forward old rs s.m.rd_m s.w.rd_w s.m.alu_result_m (result_w s.w) s.m.reg_write_m
          s.w.reg_write_w)
  forwarded rs rd (inr zero) read =
      rw (zero, operand-zero, reg_file_edge-zero)
        (read
          ∙ ap old zero
          ∙ sym (reg_file_edge-zero s.w.reg_write_w s.w.rd_w (result_w s.w) old)
          ∙ ap (λ (f : ℕ → ℕ). f 0) (sym ready.written))

  settled_1 : (s.m.result_src_m ≡ 0) ⊎ (s.front.e.rs1_e ≡ 0)
  settled_1 = elim ready.settled [
    | inl alu ↦ inl alu
    | inr empty ↦ inr (ap (λ (e : StageE). e.rs1_e) empty)
  ]

  settled_2 : (s.m.result_src_m ≡ 0) ⊎ (s.front.e.rs2_e ≡ 0)
  settled_2 = elim ready.settled [
    | inl alu ↦ inl alu
    | inr empty ↦ inr (ap (λ (e : StageE). e.rs2_e) empty)
  ]

  pub src_a-retire : src_a s ≡ retire_m s.m s.registers s.front.e.rs1_e
  unfolding src_a hazard_unit hazard_in
  src_a-retire = forwarded s.front.e.rs1_e s.front.e.rd1_e settled_1 ready.read_1

  pub write_data_e-retire : write_data_e s ≡ retire_m s.m s.registers s.front.e.rs2_e
  unfolding write_data_e hazard_unit hazard_in
  write_data_e-retire = forwarded s.front.e.rs2_e s.front.e.rd2_e settled_2 ready.read_2

  result-even : bit s.front.e.result_src_e 0 ≡ false
  result-even = elim ready.simple_e.result_e [
    | inl alu ↦ rw alu refl
    | inr (link, jal) ↦ rw link refl
  ]

  no_load :
      lwstall s.front.e.rd_e
        (slice s.front.d.instr_d 15 5)
        (slice s.front.d.instr_d 20 5)
        (bit s.front.e.result_src_e 0)
      ≡ false
  unfolding lwstall
  no_load = rw result-even refl

  no_miss : (s.m.mem_read_m && not s.cache.hit) ≡ false
  no_miss = rw ready.simple_m.no_load refl

  -- What a cycle does to each part.
  module _ (unknown instr : ℕ) where
    abbrev next : Machine
    next = processor_edge unknown false instr s

    abbrev fetched : StageD
    fetched = record { instr_d = instr; pc_d = s.front.pc; pc_plus4_d = add32 s.front.pc 4 }

    -- A taken branch, and a cycle without one.
    pub next-front-taken :
        pc_src_e s ≡ true
        → next.front
          ≡ record { pc = add32 s.front.e.pc_e s.front.e.imm_ext_e; d = empty_d; e = bubble }
    unfolding processor_edge hazard_in
    next-front-taken taken =
        front_edge-running (hazard_in (pc_src_e s) s) instr (decode s.registers s.front.d) s.front
          no_load no_miss
        ∙ rw (taken, no_jump taken) refl

    pub next-front :
        pc_src_e s ≡ false
        → next.front
          ≡ record { pc = add32 s.front.pc 4; d = fetched; e = decode s.registers s.front.d }
    unfolding processor_edge hazard_in
    next-front on =
        front_edge-running (hazard_in (pc_src_e s) s) instr (decode s.registers s.front.d) s.front
          no_load no_miss
        ∙ rw on refl

    next-m : next.m ≡ execute (src_a s) (write_data_e s) s.front.e
    unfolding processor_edge hazard_in hazard_unit reg_file_m_edge
    next-m = rw ready.simple_m.no_load refl

    next-w : next.w.reg_write_w ≡ s.m.reg_write_m
    unfolding processor_edge hazard_in hazard_unit reg_file_w_edge leave_m
    next-w = rw ready.simple_m.no_load refl

    pub next-registers : next.registers ≡ retire_m s.m s.registers
    unfolding processor_edge hazard_in hazard_unit reg_file_w_edge leave_m result_w retire_m
        result_of
    next-registers = elim ready.simple_m.result_m [
      | inl alu ↦ rw (ready.simple_m.no_load, alu) refl
      | inr link ↦ rw (ready.simple_m.no_load, link) refl
    ]

    execute-retire :
        retire_m (execute (src_a s) (write_data_e s) s.front.e) (retire_m s.m s.registers)
        ≡ retire_e s.front.e (retire_m s.m s.registers)
    unfolding execute retire_m retire_e
    execute-retire = rw (src_a-retire, write_data_e-retire) refl

    decode-retire : (x : ℕ → ℕ) → retire_e (decode s.registers s.front.d) x ≡ retire s.front.d x
    unfolding retire retire_e decode alu_of
    decode-retire x = refl

    pub retire-next : retire_m next.m next.registers ≡ retire_e s.front.e (retire_m s.m s.registers)
    retire-next = rw (next-m, next-registers, execute-retire) refl

    result_m-next : next.m.result_src_m ≡ s.front.e.result_src_e
    unfolding execute
    result_m-next = ap (λ (m : StageM). m.result_src_m) next-m

    next-IsSimpleM : IsSimpleM next.m
    next-IsSimpleM = rw next-m execute-IsSimpleM
      where
        execute-IsSimpleM : IsSimpleM (execute (src_a s) (write_data_e s) s.front.e)
        execute-IsSimpleM =
            unfold execute in
            record {
              result_m = elim ready.simple_e.result_e [
                | inl alu ↦ inl alu
                | inr (link, jal) ↦ inr link
              ];
              no_load = ready.simple_e.no_load;
            }

    -- A `jal` takes its branch, so what stays in stage E behind it is empty.
    on-result : pc_src_e s ≡ false → s.front.e.result_src_e ≡ 0
    unfolding pc_src_e pc_src_of
    on-result on = elim ready.simple_e.result_e [
      | inl alu ↦ alu
      | inr (link, jal) ↦ (let taken : pc_src_e s ≡ true = jal-pc_src _ _ _ _ _ _ _ jal in cc)
    ]

    next-written :
        next.registers ≡ reg_file_edge next.w.reg_write_w next.w.rd_w (result_w next.w) s.registers
    unfolding processor_edge
    next-written = refl

    -- If the instruction that is fetched is simple too, the next state is as ready, whether a branch is
    -- taken or not.
    next-IsReady-taken : pc_src_e s ≡ true → IsReady s.registers next
    next-IsReady-taken taken = record {
      simple_d = rw (next-front-taken taken) empty_d-IsSimple;
      simple_e = rw (next-front-taken taken) bubble-IsSimpleE;
      simple_m = next-IsSimpleM;
      settled = inr (ap (λ (f : Front). f.e) (next-front-taken taken));
      written = next-written;
      zero = edge-zero unknown false instr s ready.zero;
      read_1 = rw (next-front-taken taken) (sym ready.zero);
      read_2 = rw (next-front-taken taken) (sym ready.zero);
    }

    next-IsReady-on : pc_src_e s ≡ false → IsSimple (slice instr 0 7) → IsReady s.registers next
    next-IsReady-on on simple = record {
      simple_d = rw (next-front on) simple;
      simple_e = rw (next-front on) (decode-IsSimpleE s.registers s.front.d ready.simple_d);
      simple_m = next-IsSimpleM;
      settled = inl (result_m-next ∙ on-result on);
      written = next-written;
      zero = edge-zero unknown false instr s ready.zero;
      read_1 = rw (next-front on) (unfold decode in refl);
      read_2 = rw (next-front on) (unfold decode in refl);
    }

    pub next-IsReady : IsSimple (slice instr 0 7) → IsReady s.registers next
    next-IsReady simple = elim (Bool-cases (pc_src_e s)) [
      | inl taken ↦ next-IsReady-taken taken
      | inr on ↦ next-IsReady-on on simple
    ]

    -- Without a taken branch, a cycle retires the instruction that is fetched behind all that are in flight.
    pub next-architectural :
        pc_src_e s ≡ false → architectural next ≡ retire fetched (architectural s)
    unfolding architectural
    next-architectural on = rw (next-front on, retire-next, decode-retire) refl

    pub next-ram : next.ram ≡ store_m unknown s.m s.ram
    unfolding processor_edge store_m
    next-ram = refl

    -- What is in stage M of the next state leaves what the instruction in stage E leaves in order.
    pub commit-next :
        commit_m unknown next.m (record { file = next.registers; memory = next.ram })
        ≡ commit_e unknown s.front.e
            (commit_m unknown s.m (record { file = s.registers; memory = s.ram }))
    unfolding commit_m commit_e store_e
    commit-next = rw (retire-next, next-ram, next-m, src_a-retire, write_data_e-retire) refl

    -- Without a store in stage E there is none in stage M of the next state.
    pub next-store : s.front.e.mem_write_e ≡ false → next.m.mem_write_m ≡ false
    unfolding execute
    next-store off = ap (λ (m : StageM). m.mem_write_m) next-m ∙ off
