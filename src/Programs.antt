-- ===== src/Programs.antt =====
-- The programs of programs/: the assembled bytes, as rtl/instr_mem/instr_mem.sv loads them, and the instructions of the
-- assembly source.
pub mod Counter
use risc_v_cpu.Base.{
  ℕ, zero, suc, ◌+◌, ◌-◌, ◌*◌, ◌/◌, ◌%◌, ◌^◌, ◌≤◌, ◌<◌, ◌≡◌, ◌⊎◌, refl, inl, inr, List, [], ◌∷◌,
  length, get_or, IsWord, add32, arith,
}
use mathlib.Core.Path.{subst}
use risc_v_cpu.Memory.{Ram}
use risc_v_cpu.Processor.{instr_mem}
use risc_v_cpu.Processor.Meaning.{Instruction, lui, encode, IsValid}
use risc_v_cpu.Processor.Meaning.Text.{IsText, IsTextAt, IsAligned}

-- `$readmemh`: the bytes of a file stand in the memory from an address on.
abbrev pub Loaded : ℕ → List ℕ → Ram → Type 0
Loaded base [] rom = Unit
Loaded base (b ∷ rest) rom = (rom base ≡ b) × Loaded (base + 1) rest rom

-- The file has the four bytes of each instruction, the lowest first.
abbrev pub Assembles : List Instruction → List ℕ → Type 0
Assembles [] [] = Unit
Assembles (i ∷ l) (b0 ∷ b1 ∷ b2 ∷ b3 ∷ rest) =
    (b3 * 2 ^ 24 + b2 * 2 ^ 16 + b1 * 2 ^ 8 + b0 ≡ encode i) × Assembles l rest
Assembles l image = ⊥

-- Each instruction is valid, and branches by multiples of 4.
abbrev pub AreValid : List Instruction → Type 0
AreValid [] = Unit
AreValid (i ∷ l) = IsValid i × IsAligned i × AreValid l

-- The instruction of the list at index `j`; behind its end it does not matter.
abbrev pub nth : List Instruction → ℕ → Instruction
nth l j = get_or l j (lui 0 0)

-- The program by its addresses.
abbrev pub program_at : ℕ → List Instruction → ℕ → Instruction
program_at base l a = nth l ((a - base) / 4)

pub nth-valid :
    (l : List Instruction) (j : ℕ)
    → AreValid l
    → j < length l
    → IsValid (nth l j) × IsAligned (nth l j)
nth-valid [] j valid less = absurd (omega arith)
nth-valid (i ∷ l) zero (v, far, rest) less = (v, far)
nth-valid (i ∷ l) (suc j) (v, far, rest) less = nth-valid l j rest (omega arith)

first_word :
    (rom : Ram) (base b0 b1 b2 b3 : ℕ)
    → rom base ≡ b0
    → rom (base + 1) ≡ b1
    → rom (base + 1 + 1) ≡ b2
    → rom (base + 1 + 1 + 1) ≡ b3
    → base + 4 ≤ 2 ^ 32
    → instr_mem rom (base + 4 * 0) ≡ b3 * 2 ^ 24 + b2 * 2 ^ 16 + b1 * 2 ^ 8 + b0
unfolding instr_mem
first_word rom base b0 b1 b2 b3 h0 h1 h2 h3 room =
    let a0 : base + 4 * 0 ≡ base = omega arith in
    let a1 : add32 base 1 ≡ base + 1 = omega arith in
    let a2 : add32 base 2 ≡ base + 1 + 1 = omega arith in
    let a3 : add32 base 3 ≡ base + 1 + 1 + 1 = omega arith in
    rw (a0, a3, a2, a1, h3, h2, h1, h0) refl

instr_mem-nth :
    (l : List Instruction) (image : List ℕ) (rom : Ram) (base j : ℕ)
    → Assembles l image
    → Loaded base image rom
    → base + 4 * length l ≤ 2 ^ 32
    → j < length l
    → instr_mem rom (base + 4 * j) ≡ encode (nth l j)
instr_mem-nth [] image rom base j same loaded room less = absurd (omega arith)
instr_mem-nth (i ∷ l) (b0 ∷ b1 ∷ b2 ∷ b3 ∷ rest) rom base zero (same, more)
      (h0, (h1, (h2, (h3, loaded)))) room less =
    rw (first_word rom base b0 b1 b2 b3 h0 h1 h2 h3 (omega arith)) same
instr_mem-nth (i ∷ l) (b0 ∷ b1 ∷ b2 ∷ b3 ∷ rest) rom base (suc j) (same, more)
      (h0, (h1, (h2, (h3, loaded)))) room less =
    let there : base + 1 + 1 + 1 + 1 ≡ base + 4 = omega arith in
    let here : base + 4 * suc j ≡ base + 4 + 4 * j = omega arith in
    rw here (
      instr_mem-nth l rest rom (base + 4) j more (subst (λ b. Loaded b rest rom) there loaded)
        (omega arith) (omega arith))
instr_mem-nth (i ∷ l) [] rom base j same loaded room less = absurd same
instr_mem-nth (i ∷ l) (b0 ∷ []) rom base j same loaded room less = absurd same
instr_mem-nth (i ∷ l) (b0 ∷ b1 ∷ []) rom base j same loaded room less = absurd same
instr_mem-nth (i ∷ l) (b0 ∷ b1 ∷ b2 ∷ []) rom base j same loaded room less = absurd same

module _ (l : List Instruction) (image : List ℕ) (rom : Ram) (base : ℕ) where
  -- The memory has the program from `base` on, the words outside it are instructions too, or 0.
  pub record IsLoaded : Type 0 where
    pub same : Assembles l image
    pub valid : AreValid l
    pub bytes : Loaded base image rom
    pub aligned : base % 4 ≡ 0
    pub room : base + 4 * length l ≤ 2 ^ 32
    pub outside :
        (a : ℕ) → IsWord a → a % 4 ≡ 0 → (a < base) ⊎ (base + 4 * length l ≤ a) → IsTextAt rom a

  module _ (h : IsLoaded) where
    pub instr_mem-at :
        (j : ℕ)
        → j < length l
        → (instr_mem rom (base + 4 * j) ≡ encode (program_at base l (base + 4 * j)))
          × IsValid (program_at base l (base + 4 * j))
    instr_mem-at j less =
        let index : (base + 4 * j - base) / 4 ≡ j = omega arith in
        (
          rw index (instr_mem-nth l image rom base j h.same h.bytes h.room less),
          rw index (nth-valid l j h.valid less).0,
        )

    pub loaded-IsText : IsText rom
    loaded-IsText a word aligned = elim (split a) [
      | inl (inl low) ↦ h.outside a word aligned (inl low)
      | inl (inr high) ↦ h.outside a word aligned (inr high)
      | inr (low, high) ↦
          let j = (a - base) / 4 in
          let index : base + 4 * j ≡ a = omega (arith, h.aligned, aligned) in
          let less : j < length l = omega (arith, h.aligned, aligned) in
          inr (
            nth l j,
            subst (λ b. instr_mem rom b ≡ encode (nth l j)) index
                (instr_mem-nth l image rom base j h.same h.bytes h.room less),
            (nth-valid l j h.valid less).0,
            (nth-valid l j h.valid less).1,
          )
    ]
      where
        split :
            (a : ℕ)
            → ((a < base) ⊎ (base + 4 * length l ≤ a)) ⊎ ((base ≤ a) × (a < base + 4 * length l))
        split a = ground arith
