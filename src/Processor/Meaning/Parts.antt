-- ===== src/Processor/Meaning/Parts.antt =====
-- A step of the machine in order, by its program counter, registers and memory.
use risc_v_cpu.Base.{ℕ, ◌≡◌, refl, false, slice, add32, if◌then◌else◌, arith}
use risc_v_cpu.ControlUnit.{control_unit}
use risc_v_cpu.Memory.{Ram}
use risc_v_cpu.Pipeline.{StageD}
use risc_v_cpu.Processor.{decode, pc_src_of, execute}
use risc_v_cpu.Processor.InOrder.{retire, IsPlain, plain-pc_src}
use risc_v_cpu.Processor.Visible.{commit, commit_e, store_e, store_m-off}
use risc_v_cpu.Processor.Branching.{InOrder, fetch, step, redirects, target}

module _ (unknown : ℕ) (rom : Ram) (q : InOrder) where
  abbrev here : StageD
  here = fetch unknown rom q.counter

  abbrev file : ℕ → ℕ
  file = q.state.file

  pub step-parts :
      (counter : ℕ) (after : ℕ → ℕ) (memory : Ram)
      → (if redirects (decode file here) file then target (decode file here) else add32 q.counter 4)
        ≡ counter
      → retire here file ≡ after
      → store_e unknown (decode file here) file q.state.memory ≡ memory
      → step unknown rom q
        ≡ record { counter = counter; state = record { file = after; memory = memory } }
  unfolding step commit commit_e retire
  step-parts counter after memory e1 e2 e3 = rw (e1, e2, e3) refl

  pub no_store :
      (decode file here).mem_write_e ≡ false
      → store_e unknown (decode file here) file q.state.memory ≡ q.state.memory
  unfolding store_e execute
  no_store off = store_m-off unknown _ q.state.memory off

  module _ (plain : IsPlain (slice here.instr_d 0 7)) where
    straight : redirects (decode file here) file ≡ false
    unfolding redirects decode pc_src_of
    straight = plain-pc_src _ _ _ _ _ _ _ plain

    quiet : (decode file here).mem_write_e ≡ false
    unfolding decode control_unit
    quiet = ground (arith, plain)

    -- A plain instruction, by what is retired.
    pub step-plain :
        (after : ℕ → ℕ)
        → retire here file ≡ after
        → step unknown rom q ≡ record {
          counter = add32 q.counter 4;
          state = record { file = after; memory = q.state.memory };
        }
    step-plain after retired =
        step-parts (add32 q.counter 4) after q.state.memory (rw straight refl) retired
          (no_store quiet)
