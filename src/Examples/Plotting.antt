-- ===== src/Examples/Plotting.antt =====
-- programs/counter under the testbench of whole programs, on a memory that has it from 0 on.
use risc_v_cpu.Base.{
  inl, false, ℕ, ◌%◌, ◌≤◌, ◌<◌, ◌≡◌, ◌⊎◌, refl, List, [], ◌∷◌, get_or, IsWord, add32, arith,
}
use risc_v_cpu.Base.Int.{pos}
use risc_v_cpu.Memory.{Ram}
use risc_v_cpu.Processor.{instr_mem}
use risc_v_cpu.Processor.Meaning.Text.{bubble-LandsE, empty_d-LandsD}
use risc_v_cpu.Programs.{IsLoaded}
use risc_v_cpu.Programs.Counter.{counter, image, counter-image, counter-AreValid}
use risc_v_cpu.Programs.Counter.Pipelined.{IsAtStart}
use risc_v_cpu.Vbuddy.Commands.{plot}
use risc_v_cpu.Testbench.FullProgram.{named}
use risc_v_cpu.Testbench.FullProgram.Session.{session}
use risc_v_cpu.Testbench.FullProgram.Counting.{Tells, session-counts}
use risc_v_cpu.Examples.Machine.{at-IsReady}
use risc_v_cpu.Examples.Looping.{at_zero, at_zero-view}
use risc_v_cpu.Examples.Counting.{get_or-beyond}

abbrev rom : Ram
rom a = get_or image a 0

rom-words : (a : ℕ) → IsWord a → a % 4 ≡ 0 → (a < 0) ⊎ (28 ≤ a) → instr_mem rom a ≡ 0
unfolding instr_mem
rom-words a word aligned out =
    rw
      (
        get_or-beyond image (add32 a 3) (ground arith),
        get_or-beyond image (add32 a 2) (ground arith),
        get_or-beyond image (add32 a 1) (ground arith),
        get_or-beyond image a (ground arith),
      )
      refl

loaded : IsLoaded counter image rom 0
loaded = record {
  same = counter-image;
  valid = counter-AreValid;
  bytes = (
    refl,
    (
      refl,
      (
        refl,
        (
          refl,
          (
            refl,
            (
              refl,
              (
                refl,
                (
                  refl,
                  (
                    refl,
                    (
                      refl,
                      (
                        refl,
                        (
                          refl,
                          (
                            refl,
                            (
                              refl,
                              (
                                refl,
                                (
                                  refl,
                                  (
                                    refl,
                                    (
                                      refl,
                                      (
                                        refl,
                                        (
                                          refl,
                                          (
                                            refl,
                                            (
                                              refl,
                                              (refl, (refl, (refl, (refl, (refl, (refl, tt)))))),
                                            ),
                                          ),
                                        ),
                                      ),
                                    ),
                                  ),
                                ),
                              ),
                            ),
                          ),
                        ),
                      ),
                    ),
                  ),
                ),
              ),
            ),
          ),
        ),
      ),
    ),
  );
  aligned = refl;
  room = omega arith;
  outside = λ a word aligned out. inl (rom-words a word aligned out);
}

at_zero-IsAtStart : IsAtStart 0 0 at_zero
at_zero-IsAtStart = record {
  running = record {
    old = λ r. 0;
    ready = at-IsReady 0;
    on_text = record {
      pc_word = omega arith;
      pc_aligned = refl;
      lands_d = empty_d-LandsD;
      lands_e = bubble-LandsE;
    };
  };
  words = rw at_zero-view (λ r. omega arith);
  place = rw at_zero-view refl;
  zero_is = rw at_zero-view refl;
}

abbrev counter_name : List ℕ
counter_name = b'c' ∷ b'o' ∷ b'u' ∷ b'n' ∷ b't' ∷ b'e' ∷ b'r' ∷ []

session-counts_example :
    Tells
      (plot (pos 7) (pos 0) (pos 255))
      (session 0 rom (named counter_name) (λ i. 0) 3000 0 false at_zero)
session-counts_example =
    session-counts 0 rom counter_name (λ i. 0) at_zero 3000 1 7 loaded at_zero-IsAtStart refl
      (λ j. refl) (omega arith) (omega arith)
