-- ===== src/Testbench/FullProgram/Counting.antt =====
-- programs/counter under testbench/risc_v/versions/risc_v_full_program_tb.h: what the board is told.
use risc_v_cpu.Base.{
  ℕ, zero, suc, ◌+◌, ◌*◌, ◌<◌, ◌≡◌, ◌∙◌, refl, ap, sym, Bool, false, List, [], ◌∷◌, ◌++◌, ◌==◌,
  arith,
}
use risc_v_cpu.Base.Int.{pos}
use mathlib.Core.Path.{subst}
use risc_v_cpu.Memory.{Ram}
use risc_v_cpu.Pipeline.{empty_d, bubble}
use risc_v_cpu.Processor.{Machine}
use risc_v_cpu.Processor.StraightLine.{cycle, cycles}
use risc_v_cpu.Vbuddy.Commands.{Call, plot}
use risc_v_cpu.Testbench.FullProgram.{named, reg_output, before_edge, sim_cycle, shown, calls_of}
use risc_v_cpu.Testbench.FullProgram.Session.{session}
use risc_v_cpu.Testbench.FullProgram.Reset.{reset-cycle}
use risc_v_cpu.Processor.Meaning.Text.{text-AreSimple}
use risc_v_cpu.Programs.{IsLoaded, loaded-IsText}
use risc_v_cpu.Programs.Counter.{counter, image}
use risc_v_cpu.Programs.Counter.Pipelined.{IsAtStart, counter-shows}

-- A call stands somewhere in a list.
abbrev pub Tells : Call → List Call → Type 0
Tells call l = (before : List Call) × (after : List Call) × (l ≡ before ++ call ∷ after)

Tells-later : (call : Call) (front l : List Call) → Tells call l → Tells call (front ++ l)
Tells-later call [] l h = h
Tells-later call (x ∷ front) l h =
    let (before, after, e) = Tells-later call front l h in
    (x ∷ before, after, ap (λ (l : List Call). x ∷ l) e)

module _ (unknown : ℕ) (rom : Ram) where
  cycles-suc :
      (j : ℕ) (s : Machine)
      → cycles unknown rom (suc j) s ≡ cycle unknown rom (cycles unknown rom j s)
  unfolding cycles
  cycles-suc zero s = refl
  cycles-suc (suc j) s = cycles-suc j (cycle unknown rom s)

  -- From cycle 1 on the clock edge is one without a reset, and RST falls in cycle 1 only.
  late_cycle :
      (j : ℕ) (t : Machine)
      → sim_cycle unknown rom (suc j) t ≡ cycle unknown rom (before_edge (suc j) t)
  unfolding sim_cycle cycle
  late_cycle j t = let e : (suc j == 0) ≡ false = ground arith in rw e refl

  late_edge : (j : ℕ) (t : Machine) → before_edge (suc (suc j)) t ≡ t
  unfolding before_edge
  late_edge j t = let e : (suc (suc j) == 1) ≡ false = ground arith in rw e refl

  module _ (s : Machine)
      (resets : before_edge 1 (sim_cycle unknown rom 0 s) ≡ cycle unknown rom s) where
    -- The state that the loop has before cycle `j`, and the one that its output is taken from.
    state_at : ℕ → Machine
    state_at zero = s
    state_at (suc j) = sim_cycle unknown rom j (state_at j)

    seen : (j : ℕ) → before_edge j (state_at j) ≡ cycles unknown rom j s
    unfolding state_at before_edge cycles
    seen zero = refl
    seen (suc zero) = resets
    seen (suc (suc j)) =
        late_edge j (sim_cycle unknown rom (suc j) (state_at (suc j)))
        ∙ late_cycle j (state_at (suc j))
        ∙ ap (cycle unknown rom) (seen (suc j))
        ∙ sym (cycles-suc (suc j) s)

    -- The plot of a0 in cycle `j + d`.
    module _ (text : List ℕ) (keys : ℕ → ℕ) (no_quit : (i : ℕ) → (keys i == b'q') ≡ false) where
      session-Tells :
          (d n j : ℕ) (started : Bool)
          → d < n
          → Tells
              (plot (reg_output (cycles unknown rom (j + d) s)) (pos 0) (pos 255))
              (session unknown rom (named text) keys n j started (state_at j))
      unfolding session shown calls_of state_at
      session-Tells zero (suc n) j started less =
          let here : j + 0 ≡ j = omega arith in rw (here, no_quit j, seen j) ([], _, refl)
      session-Tells (suc d) (suc n) j started less =
          let there : j + suc d ≡ suc j + d = omega arith in
          rw (there, no_quit j)
            (Tells-later _ ((shown unknown rom (named text) j started (state_at j)).1) _
              (session-Tells d n (suc j) started (omega arith)))
      session-Tells d zero j started less = absurd (omega arith)

reg_output-pos : (t : Machine) (i : ℕ) → t.registers 10 ≡ i → i < 255 → reg_output t ≡ pos i
reg_output-pos t i a0_is less = ground arith

-- With the image of the counter program in the instruction memory from 0 on and at the multiples of 4 outside it 0 or
-- a valid instruction of arithmetic, `jal`, a conditional branch or a store, those that branch by a multiple of 4, a processor that
-- fetches from 0 with nothing in its first stages, in a ready state whose registers are words, with 0 in register 0,
-- as they stand behind what is in flight, and no key `q`: the testbench, with another program name than
-- those that it tells apart, tells the board to plot each `i` below 255 in each round `m`, if it runs for more
-- than three times the number of instructions to there, 767 a round and 3 a count, plus 5 cycles.
pub session-counts :
    (unknown : ℕ) (rom : Ram) (text : List ℕ) (keys : ℕ → ℕ) (s : Machine) (n m i : ℕ)
    → IsLoaded counter image rom 0
    → IsAtStart unknown 0 s
    → s.front ≡ record { pc = 0; d = empty_d; e = bubble }
    → ((j : ℕ) → (keys j == b'q') ≡ false)
    → i < 255
    → 3 * (4 + 767 * m + 3 * i) + 5 < n
    → Tells (plot (pos i) (pos 0) (pos 255)) (session unknown rom (named text) keys n 0 false s)
unfolding state_at
session-counts unknown rom text keys s n m i loaded at_start empty no_quit less long =
    let running = at_start.running in
    let (d, a0_is, a1_is, few) = counter-shows unknown 0 rom loaded s at_start m i less in
    let first =
      (text-AreSimple unknown rom (loaded-IsText counter image rom 0 loaded) 1 running.old s
        running.ready running.on_text).0 in
    let resets : before_edge 1 (sim_cycle unknown rom 0 s) ≡ cycle unknown rom s =
      unfold before_edge in reset-cycle unknown rom running.old s running.ready empty first in
    let zero_add : d ≡ 0 + d = omega arith in
    let output : reg_output (cycles unknown rom (0 + d) s) ≡ pos i =
      reg_output-pos (cycles unknown rom (0 + d) s) i
        (subst (λ j. (cycles unknown rom j s).registers 10 ≡ i) zero_add a0_is) less in
    subst
      (λ x. Tells (plot x (pos 0) (pos 255)) (session unknown rom (named text) keys n 0 false s))
      output (session-Tells unknown rom s resets text keys no_quit d n 0 false (omega arith))
