-- ===== src/Examples/Counting.antt =====
-- programs/counter at the start of the array of rtl/instr_mem/instr_mem.sv.
use risc_v_cpu.Base.{
  inl, ℕ, zero, suc, ◌+◌, ◌-◌, ◌*◌, ◌%◌, ◌≤◌, ◌<◌, ◌≡◌, ◌⊎◌, refl, List, [], ◌∷◌, length, get_or,
  ltb, if◌then◌else◌, IsWord, add32, arith,
}
use risc_v_cpu.Memory.{Ram, we_decoder, data_mem_write}
use risc_v_cpu.Pipeline.{reg_file_edge}
use risc_v_cpu.Processor.{instr_mem}
use risc_v_cpu.Processor.StraightLine.{cycles}
use risc_v_cpu.Processor.InOrder.{retire_m}
use risc_v_cpu.Processor.Visible.{commit_m, store_m}
use risc_v_cpu.Processor.Branching.{InOrder, view, penalty, behind_e-empty}
use risc_v_cpu.Processor.Branching.Lag.{held}
use risc_v_cpu.Processor.Meaning.Runs.{runs}
use risc_v_cpu.Processor.Meaning.Text.{bubble-LandsE, empty_d-LandsD}
use risc_v_cpu.Processor.Meaning.Progress.{IsRunning, reaches-runs}
use risc_v_cpu.Programs.{IsLoaded, loaded-IsText}
use risc_v_cpu.Programs.Counter.{counter, image, counter-image, counter-AreValid, program}
use risc_v_cpu.Programs.Counter.Stays.{start-Holds}
use risc_v_cpu.Programs.Counter.Pipelined.{IsAtStart, counter-shows, counter-below}
use risc_v_cpu.Examples.Machine.{power_on, at-IsReady}

abbrev rom : Ram
rom a = if ltb a 0xBFC00000 then 0 else get_or image (a - 0xBFC00000) 0

pub get_or-beyond : (l : List ℕ) (j : ℕ) → length l ≤ j → get_or l j 0 ≡ 0
get_or-beyond [] j less = refl
get_or-beyond (x ∷ l) zero less = absurd (omega arith)
get_or-beyond (x ∷ l) (suc j) less = get_or-beyond l j (omega arith)

rom-outside : (a : ℕ) → (a < 0xBFC00000) ⊎ (0xBFC0001C ≤ a) → rom a ≡ 0
rom-outside a out = ground (arith, get_or-beyond image (a - 0xBFC00000))

rom-words :
    (a : ℕ) → IsWord a → a % 4 ≡ 0 → (a < 0xBFC00000) ⊎ (0xBFC0001C ≤ a) → instr_mem rom a ≡ 0
unfolding instr_mem
rom-words a word aligned out =
    rw
      (
        rom-outside (add32 a 3) (ground arith),
        rom-outside (add32 a 2) (ground arith),
        rom-outside (add32 a 1) (ground arith),
        rom-outside a out,
      )
      refl

loaded : IsLoaded counter image rom 0xBFC00000
loaded = record {
  same = counter-image;
  valid = counter-AreValid;
  bytes = (
    refl,
    (
      refl,
      (
        refl,
        (
          refl,
          (
            refl,
            (
              refl,
              (
                refl,
                (
                  refl,
                  (
                    refl,
                    (
                      refl,
                      (
                        refl,
                        (
                          refl,
                          (
                            refl,
                            (
                              refl,
                              (
                                refl,
                                (
                                  refl,
                                  (
                                    refl,
                                    (
                                      refl,
                                      (
                                        refl,
                                        (
                                          refl,
                                          (
                                            refl,
                                            (
                                              refl,
                                              (refl, (refl, (refl, (refl, (refl, (refl, tt)))))),
                                            ),
                                          ),
                                        ),
                                      ),
                                    ),
                                  ),
                                ),
                              ),
                            ),
                          ),
                        ),
                      ),
                    ),
                  ),
                ),
              ),
            ),
          ),
        ),
      ),
    ),
  );
  aligned = refl;
  room = omega arith;
  outside = λ a word aligned out. inl (rom-words a word aligned out);
}

at_power_on : IsRunning power_on
at_power_on = record {
  old = λ r. 0;
  ready = at-IsReady 0xBFC00000;
  on_text = record {
    pc_word = omega arith;
    pc_aligned = refl;
    lands_d = empty_d-LandsD;
    lands_e = bubble-LandsE;
  };
}

abbrev start : InOrder
start = record { counter = 0xBFC00000; state = record { file = λ r. 0; memory = power_on.ram } }

power_on-view : view 0 power_on ≡ start
unfolding view commit_m retire_m reg_file_edge store_m we_decoder data_mem_write
power_on-view = behind_e-empty 0 (record { file = λ r. 0; memory = power_on.ram }) 0xBFC00000

power_on-IsAtStart : IsAtStart 0 0xBFC00000 power_on
power_on-IsAtStart = record {
  running = at_power_on;
  words = rw power_on-view (λ r. omega arith);
  place = rw power_on-view refl;
  zero_is = rw power_on-view refl;
}

reaches-runs_example :
    (n : ℕ) × (view 0 (cycles 0 rom n power_on) ≡ runs (program 0xBFC00000) 1000 (view 0 power_on))
    × (held (cycles 0 rom (n + 3) power_on)
        ≡ (runs (program 0xBFC00000) 1000 (view 0 power_on)).state)
    × (1000 ≤ n)
    × (n ≤ 3 * 1000 + penalty 0 power_on)
reaches-runs_example =
    reaches-runs 0 rom (loaded-IsText counter image rom 0xBFC00000 loaded) (program 0xBFC00000) 1000
      power_on at_power_on (rw power_on-view (λ r. omega arith))
      (start-Holds 0xBFC00000 (omega arith) rom loaded 1000 (view 0 power_on)
        (rw power_on-view refl) (rw power_on-view refl))

counter-shows_example :
    (n : ℕ) × (◌≡◌ {A = ℕ} ((cycles 0 rom n power_on).registers 10) 254)
    × (◌≡◌ {A = ℕ} ((cycles 0 rom n power_on).registers 11) 254)
    × (n ≤ 3 * (4 + 767 * 2 + 3 * 254) + 5)
counter-shows_example =
    counter-shows 0 0xBFC00000 rom loaded power_on power_on-IsAtStart 2 254 (omega arith)

counter-below_example : (cycles 0 rom 5000 power_on).registers 10 < 255
counter-below_example =
    counter-below 0 0xBFC00000 rom loaded power_on power_on-IsAtStart 5000 (omega arith)
