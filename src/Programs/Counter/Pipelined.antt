-- ===== src/Programs/Counter/Pipelined.antt =====
-- programs/counter on the pipeline of rtl/risc_v.sv.
use risc_v_cpu.Base.{◌∙◌, ap, sym, ◌-◌, ℕ, ◌+◌, ◌*◌, ◌≤◌, ◌<◌, ◌≡◌, arith}
use risc_v_cpu.Memory.{Ram}
use mathlib.Core.Path.{subst}
use risc_v_cpu.Processor.{Machine}
use risc_v_cpu.Processor.Visible.{Visible}
use risc_v_cpu.Processor.StraightLine.{cycles}
use risc_v_cpu.Processor.Branching.{InOrder, view, penalty-≤2}
use risc_v_cpu.Processor.Meaning.Runs.{AreWords, runs, cycles-runs}
use risc_v_cpu.Processor.Meaning.Text.{text-AreSimple}
use risc_v_cpu.Processor.Meaning.Progress.{IsRunning, held-later, reaches-runs}
use risc_v_cpu.Programs.{IsLoaded, loaded-IsText}
use risc_v_cpu.Programs.Counter.{counter, image, program}
use risc_v_cpu.Programs.Counter.Rounds.{counts}
use risc_v_cpu.Programs.Counter.Stays.{Stays-shown, runs_late-Stays, start-Holds}

-- The state in order behind what is in flight is at the start of the program.
pub record IsAtStart (unknown base : ℕ) (s : Machine) : Type 0 where
  pub running : IsRunning s
  pub words : AreWords (view unknown s)
  pub place : (view unknown s).counter ≡ base
  pub zero_is : (view unknown s).state.file 0 ≡ 0

module _ (unknown base : ℕ) (rom : Ram) (loaded : IsLoaded counter image rom base) (s : Machine)
    (at_start : IsAtStart unknown base s) where
  -- With the image of the counter program in the instruction memory from the multiple `base` of 4 on, inside the
  -- address space, and at the multiples of 4 outside it 0 or a valid instruction of arithmetic, `jal`, a conditional
  -- branch or a store, those that branch by a multiple of 4, from a ready state on that text whose registers are
  -- words, with 0 in register 0, and whose program counter is `base`, all as they stand behind what
  -- is in flight: for every round `m` and every `i` below 255 there is a number of cycles after
  -- which the registers a0, the program's output, and a1 hold `i`. It is at most three times the
  -- number of instructions to there, 767 a round and 3 a count, plus 5.
  pub counter-shows :
      (m i : ℕ)
      → i < 255
      → (n : ℕ) × ((cycles unknown rom n s).registers 10 ≡ i)
        × ((cycles unknown rom n s).registers 11 ≡ i)
        × (n ≤ 3 * (4 + 767 * m + 3 * i) + 5)
  counter-shows m i less =
      let k = 3 + (767 * m + (3 * i + 1)) in
      let (n, same, later, most, few) =
        reaches-runs unknown rom (loaded-IsText counter image rom base loaded) (program base) k s
          at_start.running at_start.words
          (start-Holds base loaded.room rom loaded k (view unknown s) at_start.place
            at_start.zero_is) in
      let there =
        counts base loaded.room m i (view unknown s) less at_start.place at_start.zero_is in
      let bound = penalty-≤2 unknown s in
      (
        n + 3,
        ap (λ (v : Visible). v.file 10) later ∙ there.a0_is,
        ap (λ (v : Visible). v.file 11) later ∙ there.a1_is,
        omega arith,
      )

  -- With the image of the counter program in the instruction memory from the multiple `base` of 4 on, inside the
  -- address space, and at the multiples of 4 outside it 0 or a valid instruction of arithmetic, `jal`, a conditional
  -- branch or a store, those that branch by a multiple of 4, from a ready state on that text whose registers are
  -- words, with 0 in register 0, and whose program counter is `base`, all as they stand behind what
  -- is in flight: from the twelfth cycle on the register a0 is below 255.
  pub counter-below : (n : ℕ) → 12 ≤ n → (cycles unknown rom n s).registers 10 < 255
  counter-below n late =
      let running = at_start.running in
      let text = loaded-IsText counter image rom base loaded in
      let (k, same, most, enough) =
        cycles-runs (program base) unknown rom (n - 3) running.old s running.ready
          (text-AreSimple unknown rom text (n - 3) running.old s running.ready running.on_text)
          at_start.words
          (start-Holds base loaded.room rom loaded (n - 3) (view unknown s) at_start.place
            at_start.zero_is) in
      let bound = penalty-≤2 unknown s in
      let stays =
        runs_late-Stays base loaded.room k (view unknown s) (omega arith) at_start.place
          at_start.zero_is in
      let three : n ≡ n - 3 + 3 = omega arith in
      let later =
        held-later unknown rom text (n - 3) s running ∙ ap (λ (q : InOrder). q.state) same in
      let shown = ap (λ (v : Visible). v.file 10) later in
      subst (λ j. (cycles unknown rom j s).registers 10 < 255) (sym three)
        (subst (λ x. x < 255) (sym shown)
          (Stays-shown base (runs (program base) k (view unknown s)) stays))
