-- ===== src/Processor/Registers.antt =====
-- The register file of rtl/risc_v.sv over any sequence of cycles: register 0, and how soon a write can show.
use risc_v_cpu.Base.{ℕ, zero, suc, length, ◌≤◌, ◌≡◌, ◌∙◌, refl, Bool, false, List, [], ◌∷◌, arith}
use risc_v_cpu.ControlUnit.{control_unit}
use risc_v_cpu.Pipeline.{StageD, front_edge, reg_file_edge, reg_file_e_edge}
use risc_v_cpu.Processor.{
  Machine, decode, processor_edge, reg_file_m_edge, reg_file_w_edge, execute, leave_m,
}

-- Cycles with the level of RST and the instruction that is fetched in each.
unfoldable pub edges : ℕ → List (Bool × ℕ) → Machine → Machine
edges unknown [] s = s
edges unknown ((rst, instr) ∷ rest) s = edges unknown rest (processor_edge unknown rst instr s)

reg_file_edge-off :
    (we : Bool) (a wd : ℕ) (registers : ℕ → ℕ)
    → we ≡ false
    → reg_file_edge we a wd registers ≡ registers
unfolding reg_file_edge
reg_file_edge-off we a wd registers off = rw off refl

empty-decode :
    (registers : ℕ → ℕ) (d : StageD) → d.instr_d ≡ 0 → (decode registers d).reg_write_e ≡ false
unfolding decode control_unit
empty-decode registers d e = rw e refl

module _ (unknown : ℕ) where
  pub edge-zero :
      (rst : Bool) (instr : ℕ) (s : Machine)
      → s.registers 0 ≡ 0
      → (processor_edge unknown rst instr s).registers 0 ≡ 0
  unfolding processor_edge reg_file_edge
  edge-zero rst instr s h = ground arith

  -- If register 0 is 0, it stays 0 through every sequence of cycles, whatever is fetched and
  -- whenever RST is set, from every such state.
  pub edges-zero :
      (l : List (Bool × ℕ)) (s : Machine) → s.registers 0 ≡ 0 → (edges unknown l s).registers 0 ≡ 0
  unfolding edges
  edges-zero [] s h = h
  edges-zero ((rst, instr) ∷ l) s h =
      edges-zero l (processor_edge unknown rst instr s) (edge-zero rst instr s h)

  module _ (rst : Bool) (instr : ℕ) (s : Machine) where
    abbrev after : Machine
    after = processor_edge unknown rst instr s

    -- Nothing reaches stage W, or M, or E, that was not in a stage before it.
    quiet_w : s.m.reg_write_m ≡ false → s.w.reg_write_w ≡ false → after.w.reg_write_w ≡ false
    unfolding processor_edge reg_file_w_edge leave_m
    quiet_w m w = ground arith

    quiet_m : s.front.e.reg_write_e ≡ false → s.m.reg_write_m ≡ false → after.m.reg_write_m ≡ false
    unfolding processor_edge reg_file_m_edge execute
    quiet_m e m = ground arith

    quiet_e :
        (decode s.registers s.front.d).reg_write_e ≡ false
        → s.front.e.reg_write_e ≡ false
        → after.front.e.reg_write_e ≡ false
    unfolding processor_edge front_edge reg_file_e_edge
    quiet_e d e = ground arith

    same_registers :
        s.m.reg_write_m ≡ false → s.w.reg_write_w ≡ false → after.registers ≡ s.registers
    unfolding processor_edge
    same_registers m w = reg_file_edge-off _ _ _ _ (quiet_w m w)

-- For how many cycles no register write can come out of the pipeline: the last so many stages hold none.
abbrev pub Quiet : ℕ → Machine → Type 0
Quiet zero s = Unit
Quiet (suc zero) s = (s.m.reg_write_m ≡ false) × (s.w.reg_write_w ≡ false)
Quiet (suc (suc zero)) s =
    (s.front.e.reg_write_e ≡ false) × (s.m.reg_write_m ≡ false) × (s.w.reg_write_w ≡ false)
Quiet (suc (suc (suc zero))) s =
    (s.front.d.instr_d ≡ 0)
    × (s.front.e.reg_write_e ≡ false)
    × (s.m.reg_write_m ≡ false)
    × (s.w.reg_write_w ≡ false)
Quiet (suc (suc (suc (suc n)))) s = ⊥

module _ (unknown : ℕ) where
  pub edge-Quiet :
      (n : ℕ) (rst : Bool) (instr : ℕ) (s : Machine)
      → Quiet (suc n) s
      → Quiet n (processor_edge unknown rst instr s)
        × ((processor_edge unknown rst instr s).registers ≡ s.registers)
  edge-Quiet zero rst instr s (m, w) = (tt, same_registers unknown rst instr s m w)
  edge-Quiet (suc zero) rst instr s (e, m, w) = (
    (quiet_m unknown rst instr s e m, quiet_w unknown rst instr s m w),
    same_registers unknown rst instr s m w,
  )
  edge-Quiet (suc (suc zero)) rst instr s (d, e, m, w) = (
    (
      quiet_e unknown rst instr s (empty-decode s.registers s.front.d d) e,
      quiet_m unknown rst instr s e m,
      quiet_w unknown rst instr s m w,
    ),
    same_registers unknown rst instr s m w,
  )
  edge-Quiet (suc (suc (suc n))) rst instr s h = absurd h

  edges-Quiet :
      (n : ℕ) (l : List (Bool × ℕ)) (s : Machine)
      → length l ≤ n
      → Quiet n s
      → (edges unknown l s).registers ≡ s.registers
  unfolding edges
  edges-Quiet n [] s short h = refl
  edges-Quiet zero (x ∷ l) s short h = absurd (omega arith)
  edges-Quiet (suc n) ((rst, instr) ∷ l) s short h =
      let (quiet, same) = edge-Quiet n rst instr s h in
      edges-Quiet n l (processor_edge unknown rst instr s) (omega arith) quiet ∙ same

  -- From a state whose stage D is empty and whose stages E, M and W hold no register write, up to three
  -- cycles leave the register file as it was, whatever instructions are fetched in them and whatever RST is: no
  -- result can be seen before the fourth cycle.
  pub edges-late :
      (l : List (Bool × ℕ)) (s : Machine)
      → length l ≤ 3
      → Quiet 3 s
      → (edges unknown l s).registers ≡ s.registers
  edges-late l s short quiet = edges-Quiet 3 l s short quiet
