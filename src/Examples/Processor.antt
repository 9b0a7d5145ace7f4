-- ===== src/Examples/Processor.antt =====
-- The combinational parts of rtl/ on concrete words, and the testbench of the immediates.
use risc_v_cpu.Base.{ℕ, ◌-◌, ◌^◌, ◌≤◌, ◌<◌, ◌≡◌, ◌↔◌, ◌≢◌, ◌⊎◌, inr, refl, true, false, arith}
use risc_v_cpu.Base.Int.{signed32, ◌<ℤ◌, ◌≤ℤ◌}
use risc_v_cpu.Alu.{alu}
use risc_v_cpu.Flags.{branch_taken, pc_src}
use risc_v_cpu.Flags.Branch.{Misjudged, branches-compare}
use risc_v_cpu.ControlUnit.{control_unit}
use risc_v_cpu.ControlUnit.Effects.{effects, HasDestination, IsStore, Redirects}
use risc_v_cpu.SignExtend.{sign_extend}
use risc_v_cpu.SignExtend.RoundTrip.{b_format, encode, sign_extend-encode}

branches-compare_example :
    ((branch_taken 0b000 5 7 ≡ true) ↔ (◌≡◌ {A = ℕ} 5 7))
    × ((branch_taken 0b001 5 7 ≡ true) ↔ (◌≢◌ {A = ℕ} 5 7))
    × ((branch_taken 0b110 5 7 ≡ true) ↔ (5 < 7))
    × ((branch_taken 0b111 5 7 ≡ true) ↔ (7 ≤ 5))
    × ((branch_taken 0b101 5 7 ≡ true) ↔ (branch_taken 0b100 5 7 ≢ true))
    × ((branch_taken 0b100 5 7 ≡ true) ↔ (
        ((¬ Misjudged 5 7) × (signed32 5 <ℤ signed32 7))
        ⊎ (Misjudged 5 7 × (signed32 7 ≤ℤ signed32 5))))
branches-compare_example = branches-compare 5 7 (omega arith) (omega arith)

-- `blt` at 5 and 7 is not taken.
blt_not_taken : branch_taken 0b100 5 7 ≡ false
unfolding branch_taken pc_src alu
blt_not_taken = refl

effects_example :
    (((control_unit 0b0100011 2 false).reg_write ≡ true) ↔ HasDestination 0b0100011)
    × (((control_unit 0b0100011 2 false).mem_write ≡ true) ↔ IsStore 0b0100011)
    × (((control_unit 0b0100011 2 false).mem_read ≡ true) ↔ (◌≡◌ {A = ℕ} 0b0100011 0b0000011))
    × ((pc_src true false false false (control_unit 0b0100011 2 false).branch 0b0100011 2 ≡ true)
        ↔ (Redirects 0b0100011
            ⊎ ((◌≡◌ {A = ℕ} 0b0100011 0b1100011)
                × (pc_src true false false false true 0b1100011 2 ≡ true))))
effects_example = effects 0b0100011 2 false true false false false (omega arith)

-- 1110111 is no instruction, and redirects.
undefined_redirects :
    pc_src false false false false (control_unit 0b1110111 0 false).branch 0b1110111 0 ≡ true
unfolding pc_src control_unit
undefined_redirects = refl

-- A branch back by 8.
sign_extend-encode_example :
    sign_extend (encode b_format (2 ^ 32 - 8) 0 0b1100011) 0b010 ≡ 2 ^ 32 - 8
sign_extend-encode_example =
    sign_extend-encode b_format (2 ^ 32 - 8) 0 0b1100011 (inr (omega arith, omega arith), refl)
      (omega arith) (omega arith)
