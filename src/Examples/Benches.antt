-- ===== src/Examples/Benches.antt =====
-- The testbenches of the register file, of the data memory and of whole programs on concrete states.
use risc_v_cpu.Base.{◌<◌, ◌^◌, false}
use risc_v_cpu.SignExtend.{sign_extend}
use risc_v_cpu.Testbench.DataMem.{lw}
use risc_v_cpu.Testbench.DataMem.Words.{Counts, lw-passes}
use risc_v_cpu.Testbench.SignExtend.Tests.{
  imm_src000, imm_src001, imm_src010, imm_src011, imm_src100, other, sign_extend_tests-pass,
}
use risc_v_cpu.Base.{length, inl}
use risc_v_cpu.Vbuddy.Keyboard.{Keyboard, IsSetUp, key_at, queue_at}
use risc_v_cpu.Vbuddy.Config.{port_name}
use risc_v_cpu.Base.{
  ℕ, zero, suc, ◌+◌, ◌%◌, ◌≡◌, ◌↔◌, refl, true, false, List, [], ◌∷◌, ◌++◌, map, some, arith,
}
use risc_v_cpu.Base.Int.{pos}
use risc_v_cpu.Serial.{Rx, World, done}
use risc_v_cpu.Serial.Device.{closed}
use risc_v_cpu.Serial.Read.Arrival.{end, quiet, next}
use risc_v_cpu.Vbuddy.Message.{clear_text, stop_text, header_text, bar_text}
use risc_v_cpu.Vbuddy.Commands.{Call, message}
use risc_v_cpu.Testbench.RegFile.{async_read, sync_write, reg_0}
use risc_v_cpu.Testbench.RegFile.Agreement.{reg_file_tests-pass}
use risc_v_cpu.Testbench.DataMem.{lb, lh, lbu, lhu, sb, sh, sw}
use risc_v_cpu.Testbench.DataMem.Agreement.{data_mem_tests_end}
use risc_v_cpu.Testbench.FullProgram.{named, shown, calls_of, full_program}
use risc_v_cpu.Testbench.FullProgram.Session.{Answers, all_read, line, session}
use risc_v_cpu.Testbench.FullProgram.Returns.{full_program-returns}
use risc_v_cpu.Examples.Boards.{world, blank, acknowledged}
use risc_v_cpu.Examples.Machine.{power_on}

reg_file_tests-pass_example :
    ((async_read (λ r. r + 7) ≡ true) ↔ (◌≡◌ {A = ℕ} 7 0))
    × ((sync_write (λ r. r + 7) ≡ true) ↔ (◌≡◌ {A = ℕ} 7 0))
    × ((reg_0 (λ r. r + 7) ≡ true) ↔ (◌≡◌ {A = ℕ} 7 0))
reg_file_tests-pass_example = reg_file_tests-pass (λ r. r + 7)

data_mem_tests_end_example :
    ((lb 0 (λ a. 1) ≡ false)
      × (lh 0 (λ a. 1) ≡ false)
      × (lbu 0 (λ a. 1) ≡ false)
      × (lhu 0 (λ a. 1) ≡ false))
    × ((sb 0 (λ a. 1) ≡ true) × (sh 0 (λ a. 1) ≡ true) × (sw 0 (λ a. 1) ≡ true))
data_mem_tests_end_example = data_mem_tests_end 0 (λ a. 1)

lw-passes_example : (lw 0 (λ a. a % 2 ^ 8) ≡ true) ↔ Counts (λ a. a % 2 ^ 8)
lw-passes_example = lw-passes 0 (λ a. a % 2 ^ 8) (λ j. omega arith)

-- `jal x0, -4`, on an instance whose inputs were 0.
sign_extend_tests-pass_example :
    (imm_src000 0 0 0xFFDFF06F ≡ true)
    × (imm_src001 0 0 0xFFDFF06F ≡ true)
    × (imm_src010 0 0 0xFFDFF06F ≡ true)
    × (imm_src011 0 0 0xFFDFF06F ≡ true)
    × ((imm_src100 0 0 0xFFDFF06F ≡ true) ↔ (0xFFDFF06F < 2 ^ 31))
    × (other 0 0 0xFFDFF06F ≡ true)
unfolding sign_extend
sign_extend_tests-pass_example = sign_extend_tests-pass 0 0 0xFFDFF06F (omega arith) refl

abbrev lines : ℕ → List Rx
lines zero = []
lines (suc n) = acknowledged ++ lines n

lines-Answers : (n : ℕ) → Answers [] n (lines n)
lines-Answers zero = all_read refl
lines-Answers (suc n) =
    line (b'A' ∷ []) (next (quiet (next (next (end refl))))) (omega arith, tt) (omega arith)
      (lines-Answers n)

-- Nothing is typed.
abbrev pub untouched : Keyboard
untouched = record {
  initialized = false;
  canonical = true;
  unbuffered = false;
  ahead = [];
  typed = [];
}

-- A cycle of a program named `x`.
abbrev told : List Call
told = session 0 (λ a. 0) (named (b'x' ∷ [])) (key_at [] (λ i. [])) 1 0 false power_on

named_usb : port_name (some (b'u' ∷ b's' ∷ b'b' ∷ b'\n' ∷ [])) ≡ some (b'u' ∷ b's' ∷ b'b' ∷ [])
unfolding port_name
named_usb = refl

pub untouched-IsSetUp : IsSetUp untouched
untouched-IsSetUp = record { none_ahead = refl; set_up = inl refl }

full_program-returns_example :
    (v : World) × (full_program 0
        (λ a. 0)
        1
        blank
        (named (b'x' ∷ []))
        (λ canonical. length)
        (λ i. [])
        1
        (some (b'u' ∷ b's' ∷ b'b' ∷ b'\n' ∷ []))
        (λ name. some 3)
        closed
        power_on
        untouched
        (world [] (lines 6 ∷ []))
      ≡ done (pos 0) v)
    × (v.sent
        ≡ clear_text
          ∷ header_text (b'x' ∷ [])
          ∷ (map message told ++ bar_text (pos 0) ∷ stop_text ∷ []))
    × (v.rx ≡ [])
unfolding session shown calls_of key_at queue_at
full_program-returns_example =
    full_program-returns [] 0 blank refl (λ canonical. length) (λ keys. refl) (λ i. []) 0 (λ a. 0)
      (named (b'x' ∷ [])) (some (b'u' ∷ b's' ∷ b'b' ∷ b'\n' ∷ [])) (λ name. some 3)
      (b'u' ∷ b's' ∷ b'b' ∷ []) 1 3 closed power_on untouched (lines 6) [] (world [] (lines 6 ∷ []))
      named_usb refl untouched-IsSetUp (omega arith) (omega arith) refl (lines-Answers 6)
