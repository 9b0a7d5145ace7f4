-- ===== src/Programs/Counter.antt =====
-- programs/counter: `counter.s`, its image `instr_mem.mem`, and what it does.
pub mod Rounds
pub mod Stays
pub mod Pipelined
use risc_v_cpu.Base.{
  zero, suc, ℕ, zero, suc, ◌+◌, ◌-◌, ◌*◌, ◌/◌, ◌%◌, ◌^◌, ◌≤◌, ◌<◌, ◌≡◌, ◌≢◌, ◌⊎◌, ◌∙◌, ap, refl,
  inl, inr, true, false, Bool-cases, IsWord, List, [], ◌∷◌, length, get_or, add32, arith,
}
use risc_v_cpu.Flags.{branch_taken}
use risc_v_cpu.Flags.Branch.{unsigned_branches}
use risc_v_cpu.Memory.{Ram}
use risc_v_cpu.Processor.Manual.{updated, compares}
use risc_v_cpu.ControlUnit.Execute.{Op, add, sub, srl, sra}
use risc_v_cpu.Processor.Branching.{InOrder}
use risc_v_cpu.Processor.Meaning.{IsHandled, Instruction, IsValid, immediate, branch, lui, meaning}
use risc_v_cpu.Processor.Meaning.Runs.{Holds, runs}
use risc_v_cpu.Programs.{Assembles, AreValid, nth, program_at, IsLoaded, instr_mem-at}

abbrev pub counter : List Instruction
counter =
    immediate add 6 0 0xff
    ∷ immediate add 10 0 0
    ∷ immediate add 11 0 0
    ∷ immediate add 10 11 0
    ∷ immediate add 11 11 1
    ∷ branch 1 11 6 (2 ^ 32 - 8)
    ∷ branch 1 6 0 (2 ^ 32 - 16)
    ∷ []

abbrev pub image : List ℕ
image =
    0x13 ∷ 0x03 ∷ 0xf0 ∷ 0x0f ∷ 0x13 ∷ 0x05 ∷ 0x00 ∷ 0x00 ∷ 0x93 ∷ 0x05 ∷ 0x00 ∷ 0x00 ∷ 0x13 ∷ 0x85
    ∷ 0x05 ∷ 0x00 ∷ 0x93 ∷ 0x85 ∷ 0x15 ∷ 0x00 ∷ 0xe3 ∷ 0x9c ∷ 0x65 ∷ 0xfe ∷ 0xe3 ∷ 0x18 ∷ 0x03
    ∷ 0xfe ∷ []

pub counter-image : Assembles counter image
counter-image = (refl, (refl, (refl, (refl, (refl, (refl, (refl, tt)))))))

addi-IsValid :
    (rd rs1 imm : ℕ) → rd < 32 → rs1 < 32 → imm < 2 ^ 10 → IsValid (immediate add rd rs1 imm)
addi-IsValid rd rs1 imm h h1 small = (h, h1, inl (omega arith), cc, inl (ground arith))

bne-IsValid :
    (rs1 rs2 back : ℕ)
    → rs1 < 32
    → rs2 < 32
    → 2 ^ 32 - 2 ^ 11 ≤ back
    → back < 2 ^ 32
    → back % 2 ≡ 0
    → IsValid (branch 1 rs1 rs2 back)
bne-IsValid rs1 rs2 back h1 h2 low high even =
    (omega arith, h1, h2, inr (omega arith, omega arith), even, inl (omega arith))

pub counter-AreValid : AreValid counter
counter-AreValid = (
  addi-IsValid 6 0 255 (omega arith) (omega arith) (omega arith),
  tt,
  (
    addi-IsValid 10 0 0 (omega arith) (omega arith) (omega arith),
    tt,
    (
      addi-IsValid 11 0 0 (omega arith) (omega arith) (omega arith),
      tt,
      (
        addi-IsValid 10 11 0 (omega arith) (omega arith) (omega arith),
        tt,
        (
          addi-IsValid 11 11 1 (omega arith) (omega arith) (omega arith),
          tt,
          (
            bne-IsValid 11 6 _ (omega arith) (omega arith) (omega arith) (omega arith) refl,
            refl,
            (
              bne-IsValid 6 0 _ (omega arith) (omega arith) (omega arith) (omega arith) refl,
              refl,
              tt,
            ),
          ),
        ),
      ),
    ),
  ),
)

bne_taken : (a b : ℕ) → a ≢ b → compares 1 a b ≡ true
unfolding compares
bne_taken a b ne = ground arith

bne_on : (a : ℕ) → compares 1 a a ≡ false
unfolding compares
bne_on a = ground arith

-- The program does not store, and its branches compare for equality.
pub counter-IsHandled : (j : ℕ) (q : InOrder) → IsHandled (nth counter j) q
counter-IsHandled zero q = tt
counter-IsHandled (suc zero) q = tt
counter-IsHandled (suc (suc zero)) q = tt
counter-IsHandled (suc (suc (suc zero))) q = tt
counter-IsHandled (suc (suc (suc (suc zero)))) q = tt
counter-IsHandled (suc (suc (suc (suc (suc zero))))) q = inl (omega arith)
counter-IsHandled (suc (suc (suc (suc (suc (suc zero)))))) q = inl (omega arith)
counter-IsHandled (suc (suc (suc (suc (suc (suc (suc j))))))) q = tt

-- The registers a0, a1, t1, and the instruction of the program at which a run is.
pub record IsAt (base j : ℕ) (a0 a1 : ℕ) (q : InOrder) : Type 0 where
  pub place : q.counter ≡ base + 4 * j
  pub zero_is : q.state.file 0 ≡ 0
  pub t1_is : q.state.file 6 ≡ 255
  pub a0_is : q.state.file 10 ≡ a0
  pub a1_is : q.state.file 11 ≡ a1

-- The program at `base`, and a step of a run.
abbrev pub program : ℕ → ℕ → Instruction
program base = program_at base counter

abbrev pub step : ℕ → InOrder → InOrder
step base q = meaning (program base q.counter) q

module _ (base : ℕ) (room : base + 28 ≤ 2 ^ 32) where
  next-nth :
      (j : ℕ) (q : InOrder) → q.counter ≡ base + 4 * j → step base q ≡ meaning (nth counter j) q
  next-nth j q e =
      let index : (q.counter - base) / 4 ≡ j = omega arith in
      ap (λ i. meaning (nth counter i) q) index

  module _ (a0 a1 : ℕ) (q : InOrder) where
    pub next-copy : IsAt base 3 a0 a1 q → a1 < 256 → IsAt base 4 a1 a1 (step base q)
    unfolding meaning updated
    next-copy h small = rw (next-nth 3 q h.place) record {
      place = omega (arith, h.place);
      zero_is = h.zero_is;
      t1_is = h.t1_is;
      a0_is = rw h.a1_is (omega arith);
      a1_is = h.a1_is;
    }

    pub next-clear_a1 : IsAt base 2 a0 a1 q → IsAt base 3 a0 0 (step base q)
    unfolding meaning updated
    next-clear_a1 h = rw (next-nth 2 q h.place) record {
      place = omega (arith, h.place);
      zero_is = h.zero_is;
      t1_is = h.t1_is;
      a0_is = h.a0_is;
      a1_is = rw h.zero_is refl;
    }

    pub next-count : IsAt base 4 a0 a1 q → a1 < 256 → IsAt base 5 a0 (a1 + 1) (step base q)
    unfolding meaning updated
    next-count h small = rw (next-nth 4 q h.place) record {
      place = omega (arith, h.place);
      zero_is = h.zero_is;
      t1_is = h.t1_is;
      a0_is = h.a0_is;
      a1_is = rw h.a1_is (omega arith);
    }

    pub next-again : IsAt base 5 a0 a1 q → a1 < 255 → IsAt base 3 a0 a1 (step base q)
    unfolding meaning
    next-again h small = rw (next-nth 5 q h.place) record {
      place = rw (h.a1_is, h.t1_is, bne_taken a1 255 (omega arith)) (omega (arith, h.place));
      zero_is = h.zero_is;
      t1_is = h.t1_is;
      a0_is = h.a0_is;
      a1_is = h.a1_is;
    }

    pub next-leave : IsAt base 5 a0 255 q → IsAt base 6 a0 255 (step base q)
    unfolding meaning
    next-leave h = rw (next-nth 5 q h.place) record {
      place = rw (h.a1_is, h.t1_is, bne_on 255) (omega (arith, h.place));
      zero_is = h.zero_is;
      t1_is = h.t1_is;
      a0_is = h.a0_is;
      a1_is = h.a1_is;
    }

    pub next-round : IsAt base 6 a0 a1 q → IsAt base 2 a0 a1 (step base q)
    unfolding meaning
    next-round h = rw (next-nth 6 q h.place) record {
      place = rw (h.t1_is, h.zero_is, bne_taken 255 0 (omega arith)) (omega (arith, h.place));
      zero_is = h.zero_is;
      t1_is = h.t1_is;
      a0_is = h.a0_is;
      a1_is = h.a1_is;
    }

    pub next-start :
        q.counter ≡ base
        → q.state.file 0 ≡ 0
        → IsAt base 2 0 (q.state.file 11) (step base (step base q))
    unfolding meaning updated
    next-start here zero_is =
        rw (next-nth 0 q (omega arith), next-nth 1 (meaning (nth counter 0) q) (omega arith))
          record {
            place = omega arith;
            zero_is = zero_is;
            t1_is = rw zero_is refl;
            a0_is = rw zero_is refl;
            a1_is = refl;
          }

    pub next-second : q.counter ≡ base → (step base q).counter ≡ base + 4 * 1
    unfolding meaning
    next-second here = rw (next-nth 0 q (omega arith)) (omega arith)
