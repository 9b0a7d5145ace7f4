-- ===== src/Testbench/FullProgram.antt =====
-- testbench/risc_v/versions/risc_v_full_program_tb.h: the loop that runs a program on the processor and shows
-- register a0 on the board, with VBUDDY set. The tracing is left out, and nothing in rtl/ calls $finish.
pub mod Session
pub mod Simulated
pub mod Typed
pub mod Returns
pub mod Reset
pub mod Counting
use risc_v_cpu.Base.{
  ℕ, zero, suc, ◌+◌, ◌%◌, ◌^◌, Bool, true, false, not, ◌&&◌, ◌==◌, if◌then◌else◌, Option, none,
  some, List, [], ◌∷◌, ◌++◌,
}
use risc_v_cpu.Base.Int.{ℤ, pos, negsuc, signed32}
use risc_v_cpu.Memory.{Ram}
use risc_v_cpu.Serial.{World, Outcome, waiting, ◌>>=◌, ◌>>◌, pure}
use risc_v_cpu.Serial.Device.{Port}
use risc_v_cpu.Processor.{Machine, instr_mem, processor_edge}
use risc_v_cpu.Vbuddy.{vbd_close}
use risc_v_cpu.Vbuddy.Config.{vbd_open_config}
use risc_v_cpu.Vbuddy.Keyboard.{Keyboard, type_in, get_key}
use risc_v_cpu.Vbuddy.Commands.{Call, plot, header, bar, run}
use risc_v_cpu.Vbuddy.Commands
use risc_v_cpu.Testbench.RiscV.{rst_falls}

-- The names that the loop tells apart.
pub data Program : Type 0 where
  f1_starting_light pdf : Program
  named : List ℕ → Program

abbrev pub program_name : Program → List ℕ
program_name f1_starting_light =
    b'f' ∷ b'1' ∷ b'_' ∷ b's' ∷ b't' ∷ b'a' ∷ b'r' ∷ b't' ∷ b'i' ∷ b'n' ∷ b'g' ∷ b'_' ∷ b'l' ∷ b'i'
    ∷ b'g' ∷ b'h' ∷ b't' ∷ []
program_name pdf = b'p' ∷ b'd' ∷ b'f' ∷ []
program_name (named text) = text

-- `program_name + ": " + DATASET`.
abbrev pub header_of : Program → List ℕ
header_of pdf =
    b'p' ∷ b'd' ∷ b'f' ∷ b':' ∷ b' ' ∷ b'G' ∷ b'a' ∷ b'u' ∷ b's' ∷ b's' ∷ b'i' ∷ b'a' ∷ b'n' ∷ []
header_of program = program_name program

-- `int(top->reg_output)`.
abbrev pub reg_output : Machine → ℤ
reg_output s = signed32 (s.registers 10 % 2 ^ 32)

-- The calls of a cycle, and `started` behind it.
abbrev pub show_output : ℤ → ℕ → List Call
show_output output simcyc = plot output (pos 0) (pos 255) ∷ Commands.cycle (pos simcyc) ∷ []

unfoldable pub calls_of : Program → ℕ → Bool → ℤ → ℕ → Bool × List Call
calls_of f1_starting_light simcyc started output pc_viewer =
    (started, bar output ∷ Commands.cycle (pos simcyc) ∷ [])
calls_of pdf simcyc started output pc_viewer =
    if not started && pc_viewer == 0x60
    then (true, [])
    else if started
    then (if simcyc % 4 == 0 then (started, show_output output simcyc) else (started, []))
    else (started, [])
calls_of (named text) simcyc started output pc_viewer = (started, show_output output simcyc)

-- The board is called one function after the other.
module _ (fuel : ℕ) (stack : List ℕ) where
  unfoldable pub run_all : List Call → World → Outcome (Unit {0})
  run_all [] = pure tt
  run_all (call ∷ calls) = run fuel stack call >> run_all calls

-- RST is 1 in cycle 0 and falls as cycle 1 begins.
unfoldable pub before_edge : ℕ → Machine → Machine
before_edge simcyc s = if simcyc == 1 then rst_falls s else s

-- The clock of a cycle rises between two falls, so that register a0 is seen before this cycle writes the
-- register file, and the program counter behind its edge.
module _ (unknown : ℕ) (rom : Ram) where
  unfoldable pub sim_cycle : ℕ → Machine → Machine
  sim_cycle simcyc s =
      let b = before_edge simcyc s in
      processor_edge unknown (simcyc == 0) (instr_mem rom b.front.pc) b

  -- The calls and the next value of `started`.
  unfoldable pub shown : Program → ℕ → Bool → Machine → Bool × List Call
  shown program simcyc started s =
      calls_of program simcyc started (reg_output (before_edge simcyc s))
        (sim_cycle simcyc s).front.pc

  -- `bytes_waiting` is the count of the terminal, and `arrive` what is typed before the call of vbdGetkey in
  -- each cycle.
  module _ (fuel : ℕ) (stack : List ℕ) (program : Program) (bytes_waiting : Bool → List ℕ → ℕ)
      (arrive : ℕ → List ℕ) where
    -- The loop, with `n` cycles left of MAX_SIM_CYC.
    unfoldable pub simulate : ℕ → ℕ → Bool → Machine → Keyboard → World → Outcome (Unit {0})
    simulate zero simcyc started s k = pure tt
    simulate (suc n) simcyc started s k = elim (get_key bytes_waiting (type_in (arrive simcyc) k)) [
      | none ↦ λ w. waiting
      | some (key, k') ↦
          (let rest =
              simulate n (suc simcyc) (shown program simcyc started s).0 (sim_cycle simcyc s) k' in
            if key == b'q'
            then pure tt
            else (run_all fuel stack (shown program simcyc started s).1 >> rest))
    ]

    -- `main` behind `vbdOpen`, and `main`; `config` is vbuddy.cfg, and `opens` the answer of the operating system
    -- for a port.
    unfoldable pub with_board : ℕ → Port → Machine → Keyboard → World → Outcome ℤ
    with_board max_sim_cyc p s k =
        run fuel stack (header (header_of program))
        >> (simulate max_sim_cyc 0 false s k
            >> (run fuel stack (bar (pos 0)) >> (vbd_close fuel stack p >>= λ q. pure (pos 0))))

    unfoldable pub full_program :
        ℕ → Option (List ℕ) → (List ℕ → Option ℕ) → Port → Machine → Keyboard → World → Outcome ℤ
    full_program max_sim_cyc config opens p s k = vbd_open_config fuel stack config opens p >>= λ r.
        elim r.0 [ pos (suc zero) ↦ with_board max_sim_cyc r.1 s k | other ↦ pure (negsuc 0) ]
