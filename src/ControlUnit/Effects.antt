-- ===== src/ControlUnit/Effects.antt =====
-- Which opcodes rtl/control_unit/decoders/main_decoder.sv lets change the state of the processor.
use risc_v_cpu.Base.{
  refl, ◌≢◌, ◌∙◌, sym, inl, inr, false, ◌==◌, ==_iff, Bool-cases, ◌<◌, ◌^◌, ℕ, ◌≡◌, ◌⊎◌, ◌↔◌, Bool,
  true, arith,
}
use risc_v_cpu.ControlUnit.{control_unit}
use risc_v_cpu.Flags.{is_jump, pc_src}

abbrev pub IsStore : ℕ → Type 0
IsStore op = op ≡ 0b0100011

-- The opcodes of instructions with a destination register.
abbrev pub HasDestination : ℕ → Type 0
HasDestination op =
    (op ≡ 0b0000011)
    ⊎ (op ≡ 0b0110011)
    ⊎ (op ≡ 0b0010011)
    ⊎ (op ≡ 0b0010111)
    ⊎ (op ≡ 0b0110111)
    ⊎ (op ≡ 0b1100111)
    ⊎ (op ≡ 0b1101111)

-- The opcodes that redirect the program counter whatever the flags are. The last two are no instructions; the
-- flags unit takes them for `jal` although the control unit does not allow them to branch.
abbrev pub Redirects : ℕ → Type 0
Redirects op = (op ≡ 0b1100111) ⊎ (op ≡ 0b1101111) ⊎ (op ≡ 0b1110111) ⊎ (op ≡ 0b1111111)

jump_iff : (op : ℕ) → op < 2 ^ 7 → (is_jump op ≡ true) ↔ Redirects op
jump_iff op small = ground arith

pc_src-jump :
    (zero n c v branch : Bool) (op f : ℕ) → is_jump op ≡ true → pc_src zero n c v branch op f ≡ true
unfolding pc_src
pc_src-jump zero n c v branch op f jump = rw jump refl

pc_src-off :
    (zero n c v : Bool) (op f : ℕ) → is_jump op ≡ false → pc_src zero n c v false op f ≡ false
unfolding pc_src
pc_src-off zero n c v op f jump = rw jump (ground arith)

branch-off :
    (op f : ℕ) (b : Bool)
    → is_jump op ≡ false
    → op ≢ 0b1100011
    → (control_unit op f b).branch ≡ false
unfolding control_unit
branch-off op f b jump ne = ground arith

branch-on : (f : ℕ) (b : Bool) → (control_unit 0b1100011 f b).branch ≡ true
unfolding control_unit
branch-on f b = refl

module _ (op funct3 : ℕ) (b zero n c v : Bool) (small : op < 2 ^ 7) where
  abbrev decides : Bool
  decides = pc_src zero n c v true 0b1100011 funct3

  redirected :
      (pc_src zero n c v (control_unit op funct3 b).branch op funct3 ≡ true)
      ↔ (Redirects op ⊎ ((op ≡ 0b1100011) × (decides ≡ true)))
  redirected = elim (Bool-cases (is_jump op)) [
    | inl jump ↦
        (λ taken. inl ((jump_iff op small).0 jump), λ why. pc_src-jump zero n c v _ op funct3 jump)
    | inr none ↦ elim (Bool-cases (op == 0b1100011)) [
      | inl same ↦
          let e = (==_iff op 0b1100011).0 same in
          let here : pc_src zero n c v (control_unit op funct3 b).branch op funct3 ≡ decides =
            rw (e, branch-on funct3 b) refl in
          (
            λ taken. inr (e, sym here ∙ taken),
            λ why. elim why [
              | inl r ↦ absurd (cc ((jump_iff op small).1 r, none))
              | inr (eq, on) ↦ here ∙ on
            ],
          )
      | inr other ↦
          let ne : op ≢ 0b1100011 = ground (arith, other) in
          let off : pc_src zero n c v (control_unit op funct3 b).branch op funct3 ≡ false =
            rw (branch-off op funct3 b none ne) (pc_src-off zero n c v op funct3 none) in
          (
            λ taken. absurd (cc (taken, off)),
            λ why. elim why [
              | inl r ↦ absurd (cc ((jump_iff op small).1 r, none))
              | inr (eq, on) ↦ absurd (ne eq)
            ],
          )
    ]
  ]

-- A register is written exactly for the opcodes with a destination register, memory exactly for stores, and memory
-- is read exactly for loads. With the flags unit on the outputs of the control unit, the program counter is redirected
-- for the opcodes of `jal` and `jalr` and for 1110111 and 1111111, which are no instructions; for that of a
-- conditional branch exactly if the flags decide so; and for no other opcode of seven bits.
pub effects :
    (op funct3 : ℕ) (funct7_5 zero n c v : Bool)
    → op < 2 ^ 7
    → (((control_unit op funct3 funct7_5).reg_write ≡ true) ↔ HasDestination op)
      × (((control_unit op funct3 funct7_5).mem_write ≡ true) ↔ IsStore op)
      × (((control_unit op funct3 funct7_5).mem_read ≡ true) ↔ (op ≡ 0b0000011))
      × ((pc_src zero n c v (control_unit op funct3 funct7_5).branch op funct3 ≡ true)
          ↔ (Redirects op ⊎ ((op ≡ 0b1100011) × (pc_src zero n c v true 0b1100011 funct3 ≡ true))))
unfolding control_unit
effects op funct3 funct7_5 zero n c v small =
    (ground arith, ground arith, ground arith, redirected op funct3 funct7_5 zero n c v small)
