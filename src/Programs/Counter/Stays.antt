-- ===== src/Programs/Counter/Stays.antt =====
-- Where the run of programs/counter/counter.s is, and what its registers are at most.
use risc_v_cpu.Base.{◌-◌, ◌/◌, ℕ, zero, suc, ◌+◌, ◌*◌, ◌^◌, ◌≤◌, ◌<◌, ◌≡◌, ◌⊎◌, inl, inr, arith}
use mathlib.Core.Path.{subst}
use risc_v_cpu.Memory.{Ram}
use risc_v_cpu.Processor.{instr_mem}
use risc_v_cpu.Processor.Branching.{InOrder}
use risc_v_cpu.Processor.Meaning.{IsHandled, IsValid, encode}
use risc_v_cpu.Processor.Meaning.Runs.{Holds, runs}
use risc_v_cpu.Programs.{IsLoaded, instr_mem-at}
use risc_v_cpu.Programs.Counter.{
  counter, image, counter-IsHandled, IsAt, program, step, next-copy, next-clear_a1, next-count,
  next-again, next-leave, next-round, next-start, next-second,
}

-- Behind the two instructions that set t1 and a0.
pub data Stays (base : ℕ) (q : InOrder) : Type 0 where
  clears : (a0 a1 : ℕ) → IsAt base 2 a0 a1 q → a0 < 255 → Stays base q
  copies : (a0 a1 : ℕ) → IsAt base 3 a0 a1 q → a0 < 255 → a1 < 255 → Stays base q
  counts : (a0 a1 : ℕ) → IsAt base 4 a0 a1 q → a0 < 255 → a1 < 255 → Stays base q
  tests : (a0 a1 : ℕ) → IsAt base 5 a0 a1 q → a0 < 255 → a1 ≤ 255 → Stays base q
  repeats : (a0 a1 : ℕ) → IsAt base 6 a0 a1 q → a0 < 255 → Stays base q

pub Stays-shown : (base : ℕ) (q : InOrder) → Stays base q → q.state.file 10 < 255
Stays-shown base q (clears a0 a1 h less) = rw h.a0_is less
Stays-shown base q (copies a0 a1 h less count) = rw h.a0_is less
Stays-shown base q (counts a0 a1 h less count) = rw h.a0_is less
Stays-shown base q (tests a0 a1 h less count) = rw h.a0_is less
Stays-shown base q (repeats a0 a1 h less) = rw h.a0_is less

Stays-place :
    (base : ℕ) (q : InOrder) → Stays base q → (j : ℕ) × (j < 7) × (q.counter ≡ base + 4 * j)
Stays-place base q (clears a0 a1 h less) = (2, omega arith, h.place)
Stays-place base q (copies a0 a1 h less count) = (3, omega arith, h.place)
Stays-place base q (counts a0 a1 h less count) = (4, omega arith, h.place)
Stays-place base q (tests a0 a1 h less count) = (5, omega arith, h.place)
Stays-place base q (repeats a0 a1 h less) = (6, omega arith, h.place)

module _ (base : ℕ) (room : base + 28 ≤ 2 ^ 32) where
  step-Stays : (q : InOrder) → Stays base q → Stays base (step base q)
  step-Stays q (clears a0 a1 h less) =
      copies a0 0 (next-clear_a1 base room a0 a1 q h) less (omega arith)
  step-Stays q (copies a0 a1 h less count) =
      counts a1 a1 (next-copy base room a0 a1 q h (omega arith)) count count
  step-Stays q (counts a0 a1 h less count) =
      tests a0 (a1 + 1) (next-count base room a0 a1 q h (omega arith)) less (omega arith)
  step-Stays q (tests a0 a1 h less count) = elim (split count) [
    | inl below ↦ copies a0 a1 (next-again base room a0 a1 q h below) less below
    | inr full ↦
        repeats a0 255 (next-leave base room a0 a1 q (subst (λ c. IsAt base 5 a0 c q) full h)) less
  ]
    where
      split : a1 ≤ 255 → (a1 < 255) ⊎ (a1 ≡ 255)
      split count = ground arith
  step-Stays q (repeats a0 a1 h less) = clears a0 a1 (next-round base room a0 a1 q h) less

  runs-Stays : (k : ℕ) (q : InOrder) → Stays base q → Stays base (runs (program base) k q)
  unfolding runs
  runs-Stays zero q h = h
  runs-Stays (suc k) q h = runs-Stays k (step base q) (step-Stays q h)

  start-Stays :
      (q : InOrder) → q.counter ≡ base → q.state.file 0 ≡ 0 → Stays base (step base (step base q))
  start-Stays q here zero_is =
      clears 0 (q.state.file 11) (next-start base room 0 0 q here zero_is) (omega arith)

  pub runs_late-Stays :
      (k : ℕ) (q : InOrder)
      → 2 ≤ k
      → q.counter ≡ base
      → q.state.file 0 ≡ 0
      → Stays base (runs (program base) k q)
  unfolding runs
  runs_late-Stays zero q late here zero_is = absurd (omega arith)
  runs_late-Stays (suc zero) q late here zero_is = absurd (omega arith)
  runs_late-Stays (suc (suc k)) q late here zero_is =
      runs-Stays k (step base (step base q)) (start-Stays q here zero_is)

  module _ (rom : Ram) (loaded : IsLoaded counter image rom base) where
    held :
        (j : ℕ) (q : InOrder)
        → j < 7
        → q.counter ≡ base + 4 * j
        → (instr_mem rom q.counter ≡ encode (program base q.counter))
          × IsValid (program base q.counter)
          × IsHandled (program base q.counter) q
    held j q less here =
        let index : (q.counter - base) / 4 ≡ j = omega arith in
        let (same, valid) = instr_mem-at counter image rom base loaded j less in
        (rw here same, rw here valid, rw index (counter-IsHandled j q))

    Stays-Holds : (k : ℕ) (q : InOrder) → Stays base q → Holds (program base) rom k q
    Stays-Holds zero q h = tt
    Stays-Holds (suc k) q h =
        let (j, less, here) = Stays-place base q h in
        let (same, valid, handled) = held j q less here in
        (same, valid, handled, Stays-Holds k (step base q) (step-Stays q h))

    -- The memory holds the program wherever its run goes.
    pub start-Holds :
        (k : ℕ) (q : InOrder) → q.counter ≡ base → q.state.file 0 ≡ 0 → Holds (program base) rom k q
    start-Holds zero q here zero_is = tt
    start-Holds (suc zero) q here zero_is =
        let (same, valid, handled) = held 0 q (omega arith) (omega arith) in
        (same, valid, handled, tt)
    start-Holds (suc (suc k)) q here zero_is =
        let (same, valid, handled) = held 0 q (omega arith) (omega arith) in
        let (same_1, valid_1, handled_1) =
          held 1 (step base q) (omega arith) (next-second base room 0 0 q here) in
        (
          same,
          valid,
          handled,
          (
            same_1,
            valid_1,
            handled_1,
            Stays-Holds k (step base (step base q)) (start-Stays q here zero_is),
          ),
        )
