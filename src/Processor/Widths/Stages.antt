-- ===== src/Processor/Widths/Stages.antt =====
-- What each stage of rtl/risc_v.sv, the cache and the data memory hand on fits its width.
use risc_v_cpu.Base.{ℕ, ◌+◌, Bool, true, false, if◌then◌else◌, arith}
use risc_v_cpu.Alu.Shift.{result-IsWord}
use risc_v_cpu.Memory.{Ram, Enables, data_mem_write, data_mem_read}
use risc_v_cpu.Cache.{Cache, cache_edge, cache_out}
use risc_v_cpu.Pipeline.{
  StageD, StageE, bubble, empty_d, reg_file_d_edge, reg_file_e_edge, pc_edge, pc_next,
}
use risc_v_cpu.Processor.{
  StageM, StageW, decode, execute, alu_of, result_w, read_data_m, leave_m, reg_file_m_edge,
  reg_file_w_edge,
}
use risc_v_cpu.Processor.Widths.{
  Fits, FitsD, FitsE, FitsM, FitsW, FitsCache, sign_extend-Fits, result_src-Fits, alu_control-Fits,
  ld_decoder-Fits,
}

pub decode-Fits :
    (registers : ℕ → ℕ) (d : StageD)
    → ((r : ℕ) → Fits 32 (registers r))
    → FitsD d
    → FitsE (decode registers d)
unfolding decode
decode-Fits registers d fit here = record {
  result_src_fits = result_src-Fits _ _ _;
  alu_control_fits = alu_control-Fits _ _ _;
  rd1_fits = fit _;
  rd2_fits = fit _;
  pc_fits = here.pc_fits;
  rs1_fits = omega arith;
  rs2_fits = omega arith;
  rd_fits = omega arith;
  imm_ext_fits = sign_extend-Fits _ _ here.instr_fits;
  pc_plus4_fits = here.pc_plus4_fits;
  funct3_fits = omega arith;
  op_fits = omega arith;
}

pub bubble-Fits : FitsE bubble
bubble-Fits = record {
  result_src_fits = omega arith;
  alu_control_fits = omega arith;
  rd1_fits = omega arith;
  rd2_fits = omega arith;
  pc_fits = omega arith;
  rs1_fits = omega arith;
  rs2_fits = omega arith;
  rd_fits = omega arith;
  imm_ext_fits = omega arith;
  pc_plus4_fits = omega arith;
  funct3_fits = omega arith;
  op_fits = omega arith;
}

pub empty_d-Fits : FitsD empty_d
empty_d-Fits = record {
  instr_fits = omega arith;
  pc_fits = omega arith;
  pc_plus4_fits = omega arith;
}

pub second_operand-Fits :
    (alu_src : Bool) (imm_ext write_data : ℕ)
    → Fits 32 imm_ext
    → Fits 32 write_data
    → Fits 32 (if alu_src then imm_ext else write_data)
second_operand-Fits alu_src imm_ext write_data a b = ground arith

pub execute-Fits : (a b : ℕ) (e : StageE) → Fits 32 a → Fits 32 b → FitsE e → FitsM (execute a b e)
unfolding execute alu_of
execute-Fits a b e fits_a fits_b here = record {
  result_src_fits = here.result_src_fits;
  alu_result_fits = result-IsWord _ _ _ fits_a (second_operand-Fits _ _ _ here.imm_ext_fits fits_b);
  write_data_fits = fits_b;
  rd_fits = here.rd_fits;
  pc_plus4_fits = here.pc_plus4_fits;
  funct3_fits = here.funct3_fits;
}

pub leave_m-Fits :
    (read_data : ℕ) (m : StageM) → Fits 32 read_data → FitsM m → FitsW (leave_m read_data m)
unfolding leave_m
leave_m-Fits read_data m fits here = record {
  result_src_fits = here.result_src_fits;
  alu_result_fits = here.alu_result_fits;
  read_data_fits = fits;
  rd_fits = here.rd_fits;
  pc_plus4_fits = here.pc_plus4_fits;
  funct3_fits = here.funct3_fits;
}

pub result_w-Fits : (w : StageW) → FitsW w → Fits 32 (result_w w)
unfolding result_w
result_w-Fits w here = ground (arith, here.pc_plus4_fits, here.read_data_fits, here.alu_result_fits)

pub cache_out-Fits : (c : Cache) → FitsCache c → Fits 32 (cache_out c)
unfolding cache_out
cache_out-Fits c here = let block = (here.blocks_fit c.a_set).word_fits in ground arith

pub read_data_m-Fits :
    (word : ℕ) (c : Cache) (m : StageM)
    → Fits 32 word
    → FitsCache c
    → Fits 32 (read_data_m word c m)
unfolding read_data_m
read_data_m-Fits word c m fits here =
    ld_decoder-Fits _ _ (second_operand-Fits c.hit (cache_out c) word (cache_out-Fits c here) fits)

module _ (unknown : ℕ) (byte : Fits 8 unknown) where
  pub data_mem_read-Fits :
      (a : ℕ) (ram : Ram) → ((i : ℕ) → Fits 8 (ram i)) → Fits 32 (data_mem_read 17 unknown a ram)
  unfolding data_mem_read
  data_mem_read-Fits a ram fit = ground (arith, fit a, fit (a + 1), fit (a + 2), fit (a + 3))

  pub data_mem_write-Fits :
      (we : Enables) (a wd : ℕ) (ram : Ram)
      → ((i : ℕ) → Fits 8 (ram i))
      → (i : ℕ) → Fits 8 (data_mem_write 17 unknown we a wd ram i)
  unfolding data_mem_write
  data_mem_write-Fits we a wd ram fit i = ground (arith, fit i)

pub cache_edge-Fits :
    (we : Enables) (mem_read : Bool) (a wd word : ℕ) (c : Cache)
    → Fits 32 word
    → FitsCache c
    → FitsCache (cache_edge we mem_read a wd word c)
unfolding cache_edge
cache_edge-Fits we mem_read a wd word c fits here = record {
  blocks_fit = λ i.
      let b = here.blocks_fit i in
      let r = here.blocks_fit c.a_set in
      let t = here.a_tag_fits in
      record {
        tag_fits = ground (arith, b.tag_fits, t);
        word_fits = ground (arith, b.word_fits, r.word_fits, fits);
      };
  a_tag_fits = omega arith;
  a_set_fits = omega arith;
}

pub pc_next-Fits : (taken : Bool) (e : StageE) (pc : ℕ) → Fits 32 (pc_next taken e pc)
unfolding pc_next
pc_next-Fits taken e pc = ground arith

pub pc_edge-Fits :
    (rst en : Bool) (next pc : ℕ) → Fits 32 next → Fits 32 pc → Fits 32 (pc_edge rst en next pc)
unfolding pc_edge
pc_edge-Fits rst en next pc a b = ground arith

pub reg_file_d_edge-Fits :
    (clr en : Bool) (new old : StageD)
    → FitsD new
    → FitsD old
    → FitsD (reg_file_d_edge clr en new old)
unfolding reg_file_d_edge
reg_file_d_edge-Fits true en new old a b = empty_d-Fits
reg_file_d_edge-Fits false true new old a b = b
reg_file_d_edge-Fits false false new old a b = a

pub reg_file_e_edge-Fits :
    (clr en : Bool) (new old : StageE)
    → FitsE new
    → FitsE old
    → FitsE (reg_file_e_edge clr en new old)
unfolding reg_file_e_edge
reg_file_e_edge-Fits true en new old a b = bubble-Fits
reg_file_e_edge-Fits false true new old a b = b
reg_file_e_edge-Fits false false new old a b = a

pub reg_file_m_edge-Fits :
    (en : Bool) (new old : StageM) → FitsM new → FitsM old → FitsM (reg_file_m_edge en new old)
unfolding reg_file_m_edge
reg_file_m_edge-Fits true new old a b = b
reg_file_m_edge-Fits false new old a b = a

pub reg_file_w_edge-Fits :
    (en : Bool) (new old : StageW) → FitsW new → FitsW old → FitsW (reg_file_w_edge en new old)
unfolding reg_file_w_edge
reg_file_w_edge-Fits true new old a b = b
reg_file_w_edge-Fits false new old a b = a
