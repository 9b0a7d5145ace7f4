-- ===== src/Processor/Visible.antt =====
-- What a program can see, the registers and the memory, when an instruction in a stage of rtl/risc_v.sv has been
-- retired.
use risc_v_cpu.Base.{ℕ, ◌≡◌, refl, false, slice}
use risc_v_cpu.ControlUnit.{control_unit}
use risc_v_cpu.Memory.{Ram, we_decoder, data_mem_write}
use risc_v_cpu.Pipeline.{StageD, StageE, bubble, empty_d, reg_file_edge}
use risc_v_cpu.Processor.{StageM, decode, alu_of, execute}
use risc_v_cpu.Processor.InOrder.{retire_m, retire_e, retire_e-bubble}

pub record Visible : Type 0 where
  pub file : ℕ → ℕ
  pub memory : Ram

module _ (unknown : ℕ) where
  -- The store of an instruction in stage M, and of one in stage E with its operands.
  unfoldable pub store_m : StageM → Ram → Ram
  store_m m ram =
      data_mem_write 17 unknown (we_decoder m.funct3_m m.mem_write_m) (slice m.alu_result_m 0 17)
        m.write_data_m ram

  unfoldable pub store_e : StageE → (ℕ → ℕ) → Ram → Ram
  store_e e file ram = store_m (execute (file e.rs1_e) (file e.rs2_e) e) ram

  unfoldable pub commit_m : StageM → Visible → Visible
  commit_m m v = record { file = retire_m m v.file; memory = store_m m v.memory }

  unfoldable pub commit_e : StageE → Visible → Visible
  commit_e e v = record { file = retire_e e v.file; memory = store_e e v.file v.memory }

  unfoldable pub commit : StageD → Visible → Visible
  commit d v = commit_e (decode v.file d) v

  pub store_m-off : (m : StageM) (ram : Ram) → m.mem_write_m ≡ false → store_m m ram ≡ ram
  unfolding store_m we_decoder data_mem_write
  store_m-off m ram off = rw off refl

  pub commit_e-bubble : (v : Visible) → commit_e bubble v ≡ v
  unfolding commit_e store_e store_m execute we_decoder data_mem_write
  commit_e-bubble v = rw retire_e-bubble refl

  pub commit-empty_d : (v : Visible) → commit empty_d v ≡ v
  unfolding commit commit_e retire_e reg_file_edge store_e store_m decode control_unit execute
      we_decoder data_mem_write
  commit-empty_d v = refl

  pub commit-decode :
      (registers : ℕ → ℕ) (v : Visible) (d : StageD) → commit_e (decode registers d) v ≡ commit d v
  unfolding commit commit_e retire_e store_e decode execute alu_of
  commit-decode registers v d = refl
