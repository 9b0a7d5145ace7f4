-- ===== src/Processor/Meaning/Text.antt =====
-- Program texts whose branches and jumps land on multiples of 4, on the pipeline of rtl/risc_v.sv: what it fetches, also
-- behind a branch that will be taken, is in the text.
use risc_v_cpu.Base.{
  ℕ, zero, suc, ◌+◌, ◌*◌, ◌%◌, ◌^◌, ◌≡◌, ◌⊎◌, refl, inl, inr, true, false, IsWord, slice, add32,
  arith, Bool-cases,
}
use risc_v_cpu.Flags.{pc_src}
use risc_v_cpu.ControlUnit.{control_unit}
use risc_v_cpu.ControlUnit.Execute.{funct3_of, funct7_of}
use risc_v_cpu.Memory.{Ram}
use risc_v_cpu.Pipeline.{StageD, StageE, bubble, empty_d}
use risc_v_cpu.SignExtend.RoundTrip.{sign_extend-encode_b, sign_extend-encode_j}
use risc_v_cpu.Processor.{Machine, decode, pc_src_of, instr_mem}
use risc_v_cpu.Processor.InOrder.{IsPlain, IsSimple, IsReady, plain-pc_src}
use risc_v_cpu.Processor.Instructions.{funct3-lt, fields_r, fields_i}
use risc_v_cpu.Processor.StraightLine.{cycle}
use risc_v_cpu.Processor.Branching.{
  fetch, redirects, target, redirects-bubble, redirects-empty_d, redirects-decode,
}
use risc_v_cpu.Processor.Branching.Steps.{AreSimple, here_m, front-taken, front-on, cycle-IsReady}
use risc_v_cpu.Processor.Meaning.{
  Instruction, register, immediate, lui, jal, branch, store, middle, encode, IsValid, fields_u,
  fields_j, fields_b, fields_s,
}

-- A branch or a jump in stage E lands on a multiple of 4, and so one in stage D.
abbrev pub LandsE : StageE → Type 0
LandsE e = (file : ℕ → ℕ) → redirects e file ≡ true → target e % 4 ≡ 0

abbrev pub LandsD : StageD → Type 0
LandsD d = (registers : ℕ → ℕ) → LandsE (decode registers d)

target-IsWord : (e : StageE) → IsWord (target e)
unfolding target
target-IsWord e = omega arith

pub bubble-LandsE : LandsE bubble
bubble-LandsE file taken = absurd (cc (taken, redirects-bubble file))

pub empty_d-LandsD : LandsD empty_d
empty_d-LandsD registers file taken =
    absurd (cc (taken, redirects-decode registers file empty_d, redirects-empty_d file))

plain-LandsD : (d : StageD) → IsPlain (slice d.instr_d 0 7) → LandsD d
unfolding redirects decode pc_src_of
plain-LandsD d plain registers file taken = absurd (cc (taken, plain-pc_src _ _ _ _ _ _ _ plain))

-- The immediate of a branch or a jump is a multiple of 4.
abbrev pub IsAligned : Instruction → Type 0
IsAligned (register op rd rs1 rs2) = Unit
IsAligned (immediate op rd rs1 imm) = Unit
IsAligned (lui rd imm) = Unit
IsAligned (jal rd imm) = imm % 4 ≡ 0
IsAligned (branch f rs1 rs2 imm) = imm % 4 ≡ 0
IsAligned (store f rs1 rs2 imm) = Unit

module _ (unknown : ℕ) (rom : Ram) where
  abbrev pub IsLanding : ℕ → Type 0
  IsLanding a = IsSimple (slice (instr_mem rom a) 0 7) × LandsD (fetch unknown rom a)

  module _ (a : ℕ) (aligned : a % 4 ≡ 0) where
    plain-IsLanding : IsPlain (slice (instr_mem rom a) 0 7) → IsLanding a
    plain-IsLanding plain = (inl plain, plain-LandsD (fetch unknown rom a) plain)

    module _ (rd imm : ℕ) (e : instr_mem rom a ≡ encode (jal rd imm))
        (valid : IsValid (jal rd imm)) where
      jal-target :
          (registers : ℕ → ℕ) → target (decode registers (fetch unknown rom a)) ≡ add32 a imm
      unfolding target decode control_unit
      jal-target registers =
          rw
            (
              e,
              (fields_j rd imm valid.0).0,
              sign_extend-encode_j imm (rd * 2 ^ 7 + 0b1101111) valid.1 valid.2
                  (omega (arith, valid.0)),
            )
            refl

    module _ (f rs1 rs2 imm : ℕ) (e : instr_mem rom a ≡ encode (branch f rs1 rs2 imm))
        (valid : IsValid (branch f rs1 rs2 imm)) where
      branch-target :
          (registers : ℕ → ℕ) → target (decode registers (fetch unknown rom a)) ≡ add32 a imm
      unfolding target decode control_unit
      branch-target registers =
          rw
            (
              e,
              (fields_b f rs1 rs2 imm valid.0 valid.1 valid.2).0,
              sign_extend-encode_b imm (middle f rs1 rs2) 0b1100011 valid.3 valid.4
                  (omega (arith, valid.0, valid.1, valid.2)) (omega arith),
            )
            refl

    module _ (f rs1 rs2 imm : ℕ) (e : instr_mem rom a ≡ encode (store f rs1 rs2 imm))
        (valid : IsValid (store f rs1 rs2 imm)) where
      store-straight :
          (registers file : ℕ → ℕ) → redirects (decode registers (fetch unknown rom a)) file ≡ false
      unfolding redirects decode pc_src_of pc_src
      store-straight registers file =
          let w = fields_s f rs1 rs2 imm (omega (arith, valid.0)) valid.1 valid.2 in
          rw (e, w.0) refl

    -- An instruction at a multiple of 4.
    pub encode-IsLanding :
        (i : Instruction) → instr_mem rom a ≡ encode i → IsValid i → IsAligned i → IsLanding a
    encode-IsLanding (register op rd rs1 rs2) e (d, h1, h2) far =
        plain-IsLanding
          (inl (rw e (fields_r (funct3_of op) (funct7_of op) rd rs1 rs2 (funct3-lt op) d h1 h2).0))
    encode-IsLanding (immediate op rd rs1 imm) e (d, h1, signed, ne, fits) far =
        plain-IsLanding
          (inr (inl (rw e (fields_i (funct3_of op) imm rd rs1 (funct3-lt op) d h1 signed).0)))
    encode-IsLanding (lui rd imm) e valid far =
        plain-IsLanding (inr (inr (inl (rw e (fields_u rd imm valid.0).0))))
    encode-IsLanding (jal rd imm) e valid far = (
      inr (inr (inr (rw e (fields_j rd imm valid.0).0))),
      λ registers file taken. rw (jal-target rd imm e valid registers) (omega arith),
    )
    encode-IsLanding (branch f rs1 rs2 imm) e valid far = (
      inr (inl (rw e (fields_b f rs1 rs2 imm valid.0 valid.1 valid.2).0)),
      λ registers file taken. rw (branch-target f rs1 rs2 imm e valid registers) (omega arith),
    )
    encode-IsLanding (store f rs1 rs2 imm) e valid far = (
      inr (inr (inl (rw e (fields_s f rs1 rs2 imm (omega (arith, valid.0)) valid.1 valid.2).0))),
      λ registers file taken.
          absurd (cc (taken, store-straight f rs1 rs2 imm e valid registers file)),
    )

    -- A word that is 0.
    pub zero-IsLanding : instr_mem rom a ≡ 0 → IsLanding a
    zero-IsLanding e = plain-IsLanding (inr (inr (inr (rw e refl))))

-- At an address stands 0, or an instruction that, if it branches, does so by a multiple of 4.
abbrev pub IsTextAt : Ram → ℕ → Type 0
IsTextAt rom a =
    (instr_mem rom a ≡ 0)
    ⊎ ((i : Instruction) × (instr_mem rom a ≡ encode i) × IsValid i × IsAligned i)

-- At each multiple of 4 of the address space.
abbrev pub IsText : Ram → Type 0
IsText rom = (a : ℕ) → IsWord a → a % 4 ≡ 0 → IsTextAt rom a

-- The machine fetches from a multiple of 4, and what is in flight lands on one.
pub record IsOnText (s : Machine) : Type 0 where
  pub pc_word : IsWord s.front.pc
  pub pc_aligned : s.front.pc % 4 ≡ 0
  pub lands_d : LandsD s.front.d
  pub lands_e : LandsE s.front.e

module _ (unknown : ℕ) (rom : Ram) (text : IsText rom) where
  text-IsLanding : (a : ℕ) → IsWord a → a % 4 ≡ 0 → IsLanding unknown rom a
  text-IsLanding a word aligned = elim (text a word aligned) [
    | inl e ↦ zero-IsLanding unknown rom a aligned e
    | inr (i, e, valid, far) ↦ encode-IsLanding unknown rom a aligned i e valid far
  ]

  module _ (old : ℕ → ℕ) (s : Machine) (ready : IsReady old s) (on_text : IsOnText s) where
    pub next-IsReady : IsReady s.registers (cycle unknown rom s)
    next-IsReady =
        cycle-IsReady unknown rom old s ready
          (text-IsLanding s.front.pc on_text.pc_word on_text.pc_aligned).0

    pub next-IsOnText : IsOnText (cycle unknown rom s)
    next-IsOnText = elim (Bool-cases (redirects s.front.e (here_m old s ready unknown rom).file)) [
      | inl taken ↦
          let front = front-taken old s ready unknown rom taken in
          record {
            pc_word = rw front (target-IsWord s.front.e);
            pc_aligned = rw front (on_text.lands_e _ taken);
            lands_d = rw front empty_d-LandsD;
            lands_e = rw front bubble-LandsE;
          }
      | inr on ↦
          let front = front-on old s ready unknown rom on in
          record {
            pc_word = rw front (omega arith);
            pc_aligned = rw front (omega (arith, on_text.pc_aligned));
            lands_d = rw front (text-IsLanding s.front.pc on_text.pc_word on_text.pc_aligned).1;
            lands_e = rw front (on_text.lands_d s.registers);
          }
    ]

  -- Whatever is fetched is arithmetic, a conditional branch, a store or `jal`.
  pub text-AreSimple :
      (n : ℕ) (old : ℕ → ℕ) (s : Machine) → IsReady old s → IsOnText s → AreSimple unknown rom n s
  text-AreSimple zero old s ready on_text = tt
  text-AreSimple (suc n) old s ready on_text = (
    (text-IsLanding s.front.pc on_text.pc_word on_text.pc_aligned).0,
    text-AreSimple n s.registers (cycle unknown rom s) (next-IsReady old s ready on_text)
        (next-IsOnText old s ready on_text),
  )
