-- ===== src/Hazard.antt =====
-- rtl/hazard_unit/hazard_unit.sv with rtl/hazard_unit/subunits/: forwarding, stalls and flushes. A set
-- stall signal holds the stage's register.
use risc_v_cpu.Base.{ℕ, Bool, not, ◌&&◌, ◌||◌, ◌==◌, if◌then◌else◌}

pub record HazardIn : Type 0 where
  pub rs1_d : ℕ
  pub rs2_d : ℕ
  pub rd_e : ℕ
  pub rs1_e : ℕ
  pub rs2_e : ℕ
  pub pc_src_e : Bool
  pub result_src_e0 : Bool
  pub rd_m : ℕ
  pub reg_write_m : Bool
  pub rd_w : ℕ
  pub reg_write_w : Bool
  pub mem_read_m : Bool
  pub hit_m : Bool

pub record HazardOut : Type 0 where
  pub stall_f : Bool
  pub stall_d : Bool
  pub stall_e : Bool
  pub stall_m : Bool
  pub stall_w : Bool
  pub flush_d : Bool
  pub flush_e : Bool
  pub forward_ae : ℕ
  pub forward_be : ℕ

-- subunits/forward.sv.
unfoldable pub forward : ℕ → ℕ → ℕ → Bool → Bool → ℕ
forward rd_m rs_e rd_w reg_write_m reg_write_w =
    if rs_e == rd_m && reg_write_m && not (rs_e == 0)
    then 0b10
    else if rs_e == rd_w && reg_write_w && not (rs_e == 0)
    then 0b01
    else 0b00

-- subunits/lwstall.sv.
unfoldable pub lwstall : ℕ → ℕ → ℕ → Bool → Bool
lwstall rd_e rs1_d rs2_d result_src_e0 = result_src_e0 && (rd_e == rs1_d || rd_e == rs2_d)

unfoldable pub hazard_unit : HazardIn → HazardOut
unfolding forward lwstall
hazard_unit i =
    let load = lwstall i.rd_e i.rs1_d i.rs2_d i.result_src_e0 in
    let cache_stall = i.mem_read_m && not i.hit_m in
    record {
      stall_f = load || cache_stall;
      stall_d = load || cache_stall;
      stall_e = cache_stall;
      stall_m = cache_stall;
      stall_w = cache_stall;
      flush_d = i.pc_src_e;
      flush_e = i.pc_src_e || load;
      forward_ae = forward i.rd_m i.rs1_e i.rd_w i.reg_write_m i.reg_write_w;
      forward_be = forward i.rd_m i.rs2_e i.rd_w i.reg_write_m i.reg_write_w;
    }
