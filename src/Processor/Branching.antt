-- ===== src/Processor/Branching.antt =====
-- Programs of arithmetic, conditional branches, `jal` and stores on the processor of rtl/risc_v.sv, against a
-- machine that executes one instruction after the other with the same decoder, arithmetic unit and branch decision.
pub mod Steps
pub mod Lag
use risc_v_cpu.Base.{
  ℕ, zero, suc, ◌+◌, ◌*◌, ◌≤◌, ◌≡◌, ◌∙◌, ◌⊎◌, ap, refl, sym, inl, inr, Bool, true, false, not, ◌&&◌,
  if◌then◌else◌, slice, add32, arith, Bool-cases,
}
use risc_v_cpu.Memory.{Ram}
use risc_v_cpu.Alu.{alu}
use risc_v_cpu.ControlUnit.{control_unit}
use risc_v_cpu.Pipeline.{StageD, StageE, Front, bubble, empty_d, pc_next}
use risc_v_cpu.Processor.{Machine, decode, alu_of, pc_src_of, pc_src_e, instr_mem, processor_edge}
use risc_v_cpu.Processor.InOrder.{
  retire_m, retire_e, retire, IsSimple, IsSimpleE, IsReady, retire_e-bubble, retire-empty_d,
  plain-pc_src,
}
use risc_v_cpu.Processor.Visible.{
  Visible, commit_m, commit_e, commit, commit_e-bubble, commit-empty_d, commit-decode,
}
use risc_v_cpu.Processor.Cycle.{
  src_a-retire, write_data_e-retire, next-front, next-front-taken, next-IsReady, retire-next,
  next-ram,
}
use risc_v_cpu.Processor.StraightLine.{cycle, cycles}

-- The machine that executes in order.
pub record InOrder : Type 0 where
  pub counter : ℕ
  pub state : Visible

-- Whether an instruction in stage E redirects the program counter, with all that is older retired.
unfoldable pub redirects : StageE → (ℕ → ℕ) → Bool
redirects e file = pc_src_of (alu_of (file e.rs1_e) (file e.rs2_e) e) e

unfoldable pub target : StageE → ℕ
target e = add32 e.pc_e e.imm_ext_e

-- Decoding with other register contents changes neither the branch nor its target.
pub redirects-decode :
    (registers file : ℕ → ℕ) (d : StageD)
    → redirects (decode registers d) file ≡ redirects (decode file d) file
unfolding redirects decode alu_of pc_src_of
redirects-decode registers file d = refl

pub target-decode :
    (registers file : ℕ → ℕ) (d : StageD) → target (decode registers d) ≡ target (decode file d)
unfolding target decode
target-decode registers file d = refl

pub redirects-bubble : (file : ℕ → ℕ) → redirects bubble file ≡ false
unfolding redirects pc_src_of
redirects-bubble file = plain-pc_src _ _ _ _ _ _ _ (inr (inr (inr refl)))

pub redirects-empty_d : (file : ℕ → ℕ) → redirects (decode file empty_d) file ≡ false
unfolding redirects decode pc_src_of
redirects-empty_d file = plain-pc_src _ _ _ _ _ _ _ (inr (inr (inr refl)))

module _ (unknown : ℕ) (rom : Ram) where
  abbrev pub fetch : ℕ → StageD
  fetch pc = record { instr_d = instr_mem rom pc; pc_d = pc; pc_plus4_d = add32 pc 4 }

  unfoldable pub step : InOrder → InOrder
  step q =
      let e = decode q.state.file (fetch q.counter) in
      record {
        counter = if redirects e q.state.file then target e else add32 q.counter 4;
        state = commit unknown (fetch q.counter) q.state;
      }

  unfoldable pub steps : ℕ → InOrder → InOrder
  steps zero q = q
  steps (suc n) q = steps n (step q)

module _ (unknown : ℕ) where
  -- The state in order behind stage E, and behind stage D, for what a machine has in flight.
  unfoldable pub behind_d : Visible → StageD → ℕ → InOrder
  behind_d v d pc = record {
    counter = if redirects (decode v.file d) v.file then target (decode v.file d) else pc;
    state = commit unknown d v;
  }

  unfoldable pub behind_e : Visible → Front → InOrder
  behind_e v f =
      if redirects f.e v.file
      then record { counter = target f.e; state = commit_e unknown f.e v }
      else behind_d (commit_e unknown f.e v) f.d f.pc

  unfoldable pub view : Machine → InOrder
  view s = behind_e (commit_m unknown s.m (record { file = s.registers; memory = s.ram })) s.front

  -- How many cycles the branches in flight still cost.
  unfoldable pub delay : Visible → Front → ℕ
  delay v f =
      if redirects f.e v.file
      then 1
      else if redirects (decode (commit_e unknown f.e v).file f.d) (commit_e unknown f.e v).file
      then 2
      else 0

  unfoldable pub penalty : Machine → ℕ
  penalty s = delay (commit_m unknown s.m (record { file = s.registers; memory = s.ram })) s.front

  pub penalty-≤2 : (s : Machine) → penalty s ≤ 2
  unfolding penalty delay
  penalty-≤2 s = ground arith

  -- The state behind two empty stages, and behind an instruction that has just been decoded.
  pub behind_e-empty :
      (v : Visible) (pc : ℕ)
      → behind_e v (record { pc = pc; d = empty_d; e = bubble })
        ≡ record { counter = pc; state = v }
  unfolding behind_e behind_d
  behind_e-empty v pc =
      rw (redirects-bubble, commit_e-bubble, redirects-empty_d, commit-empty_d) refl

  pub behind_e-decode :
      (registers : ℕ → ℕ) (v : Visible) (d fetched : StageD) (pc : ℕ)
      → behind_e v (record { pc = pc; d = fetched; e = decode registers d }) ≡ (
          if redirects (decode v.file d) v.file
          then record { counter = target (decode v.file d); state = commit unknown d v }
          else behind_d (commit unknown d v) fetched pc)
  unfolding behind_e
  behind_e-decode registers v d fetched pc =
      rw
        (
          redirects-decode registers v.file d,
          target-decode registers v.file d,
          commit-decode unknown registers v d,
        )
        refl

  module _ (v : Visible) (f : Front) where
    abbrev v_e : Visible
    v_e = commit_e unknown f.e v

    pub behind_e-taken :
        redirects f.e v.file ≡ true
        → (behind_e v f ≡ record { counter = target f.e; state = v_e }) × (delay v f ≡ 1)
    unfolding behind_e delay
    behind_e-taken taken = (rw taken refl, rw taken refl)

    module _ (on : redirects f.e v.file ≡ false) where
      pub behind_e-on-taken :
          redirects (decode v_e.file f.d) v_e.file ≡ true
          → (behind_e v f
              ≡ record { counter = target (decode v_e.file f.d); state = commit unknown f.d v_e })
            × (delay v f ≡ 2)
      unfolding behind_e behind_d delay
      behind_e-on-taken taken = (rw (on, taken) refl, rw (on, taken) refl)

      pub behind_e-on :
          redirects (decode v_e.file f.d) v_e.file ≡ false
          → (behind_e v f ≡ record { counter = f.pc; state = commit unknown f.d v_e })
            × (delay v f ≡ 0)
      unfolding behind_e behind_d delay
      behind_e-on straight = (rw (on, straight) refl, rw (on, straight) refl)

  pub delay-empty :
      (v : Visible) (pc : ℕ) → delay v (record { pc = pc; d = empty_d; e = bubble }) ≡ 0
  unfolding delay
  delay-empty v pc = rw (redirects-bubble, commit_e-bubble, redirects-empty_d) refl
