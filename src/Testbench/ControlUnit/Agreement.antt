-- ===== src/Testbench/ControlUnit/Agreement.antt =====
-- The tests of the control unit hold for every instruction of the kind that they try.
use risc_v_cpu.Base.{
  ℕ, ◌≡◌, ◌≢◌, ◌⊎◌, inl, inr, ◌∙◌, ap, refl, sym, Bool, true, false, ◌&&◌, bit, slice, arith, List,
  [], ◌∷◌, ◌++◌,
}
use risc_v_cpu.ControlUnit.{control_unit}
use risc_v_cpu.Flags.{pc_src, is_jump}
use risc_v_cpu.Testbench.ControlUnit.{
  Case, split_fields, process_instruction, outcome, passes, connected, assert_control_signals,
}
use risc_v_cpu.Testbench.ControlUnit.Cases.{
  r_type, i_load, i_type, s_type, b_type, u_type, jumps, test_cases, jal,
}

-- Away from arithmetic, the control unit reads the opcode only; away from branches, so does the decision
-- on the jump.
control_unit-op :
    (op f g : ℕ) (a b : Bool)
    → op ≢ 0b0110011
    → op ≢ 0b10011
    → control_unit op f a ≡ control_unit op g b
unfolding control_unit
control_unit-op op f g a b r i = ground arith

jumps_only :
    (op f : ℕ) (b : Bool)
    → op ≢ 0b1100011
    → ((control_unit op f b).branch ≡ false) ⊎ (is_jump op ≡ true)
unfolding control_unit
jumps_only op f b ne = ground arith

pc_src-off :
    (zero n c v branch : Bool) (op f g : ℕ)
    → (branch ≡ false) ⊎ (is_jump op ≡ true)
    → pc_src zero n c v branch op f ≡ pc_src zero n c v branch op g
unfolding pc_src
pc_src-off zero n c v branch op f g (inl e) = rw e (off f ∙ sym (off g))
  where
    off : (h : ℕ) → pc_src zero n c v false op h ≡ is_jump op
    off h = ground arith
pc_src-off zero n c v branch op f g (inr e) = rw e refl

pc_src-op :
    (zero n c v : Bool) (op f g : ℕ) (b : Bool)
    → op ≢ 0b1100011
    → pc_src zero n c v (control_unit op f b).branch op f
      ≡ pc_src zero n c v (control_unit op f b).branch op g
pc_src-op zero n c v op f g b ne =
    pc_src-off zero n c v (control_unit op f b).branch op f g (jumps_only op f b ne)

outcome-op :
    (op f g : ℕ) (a b : Bool) (t : Case)
    → op ≢ 0b0110011
    → op ≢ 0b10011
    → (f ≡ g) ⊎ (op ≢ 0b1100011)
    → outcome connected op f a t ≡ outcome connected op g b t
unfolding outcome
outcome-op op f g a b t r i (inl e) = rw (control_unit-op op f g a b r i, e) refl
outcome-op op f g a b t r i (inr ne) =
    rw (pc_src-op t.zero t.n t.c t.v op f g a ne, control_unit-op op f g a b r i) refl

bit_30 : (w : ℕ) → bit (slice w 25 7) 5 ≡ bit w 30
bit_30 w = ground arith

outcome-split_fields :
    (op f3 f7 : ℕ) (t : Case)
    → outcome connected
        (split_fields op f3 f7).op
        (split_fields op f3 f7).funct3
        (bit (split_fields op f3 f7).funct7 5)
        t
      ≡ outcome connected op f3 (bit f7 5) t
unfolding split_fields
outcome-split_fields op f3 f7 t =
    ground
      (arith, outcome-op op 0 f3 (bit 0 5) (bit f7 5) t, outcome-op op f3 f3 (bit 0 5) (bit f7 5) t)

-- The fields that `processInstruction` leaves at 0 do not matter: for every instruction and all flags, the
-- assertions come out as they do at the fields that the processor itself takes out of the instruction.
pub passes-process_instruction :
    (t : Case)
    → passes connected t
      ≡ outcome connected (slice t.instr 0 7) (slice t.instr 12 3) (bit t.instr 30) t
unfolding passes process_instruction
passes-process_instruction t =
    outcome-split_fields (slice t.instr 0 7) (slice t.instr 12 3) (slice t.instr 25 7) t
    ∙ ap (λ (b : Bool). outcome connected (slice t.instr 0 7) (slice t.instr 12 3) b t)
        (bit_30 t.instr)

pub data Listed (t : Case) : List Case → Type 0 where
  here : {ts : List Case} → Listed t (t ∷ ts)
  there : {u : Case} {ts : List Case} → Listed t ts → Listed t (u ∷ ts)

all_pass : List Case → Bool
all_pass [] = true
all_pass (t ∷ ts) = passes connected t && all_pass ts

all_pass-append :
    (ts us : List Case) → all_pass ts ≡ true → all_pass us ≡ true → all_pass (ts ++ us) ≡ true
unfolding all_pass
all_pass-append [] us h k = k
all_pass-append (t ∷ ts) us h k = ground (arith, all_pass-append ts us)

passes-Listed :
    (t : Case) (ts : List Case) → Listed t ts → all_pass ts ≡ true → passes connected t ≡ true
unfolding all_pass
passes-Listed t [] l h = elim l [ ]
passes-Listed t (u ∷ ts) here h = ground arith
passes-Listed t (u ∷ ts) (there l) h = passes-Listed t ts l (ground arith)

r_type-pass : all_pass r_type ≡ true
unfolding all_pass r_type passes outcome process_instruction split_fields assert_control_signals
    control_unit pc_src
r_type-pass = refl

i_load-pass : all_pass i_load ≡ true
unfolding all_pass i_load passes outcome process_instruction split_fields assert_control_signals
    control_unit pc_src
i_load-pass = refl

i_type-pass : all_pass i_type ≡ true
unfolding all_pass i_type passes outcome process_instruction split_fields assert_control_signals
    control_unit pc_src
i_type-pass = refl

s_type-pass : all_pass s_type ≡ true
unfolding all_pass s_type passes outcome process_instruction split_fields assert_control_signals
    control_unit pc_src
s_type-pass = refl

b_type-pass : all_pass b_type ≡ true
unfolding all_pass b_type passes outcome process_instruction split_fields assert_control_signals
    control_unit pc_src
b_type-pass = refl

u_type-pass : all_pass u_type ≡ true
unfolding all_pass u_type passes outcome process_instruction split_fields assert_control_signals
    control_unit pc_src
u_type-pass = refl

jumps-pass : all_pass jumps ≡ true
unfolding all_pass jumps passes outcome process_instruction split_fields assert_control_signals
    control_unit pc_src
jumps-pass = refl

test_cases-pass : all_pass test_cases ≡ true
unfolding test_cases
test_cases-pass = all_pass-append r_type _ r_type-pass (
    all_pass-append i_load _ i_load-pass (
      all_pass-append i_type _ i_type-pass (
        all_pass-append s_type _ s_type-pass (
          all_pass-append b_type _ b_type-pass (all_pass-append u_type _ u_type-pass jumps-pass)))))

-- On the control unit with the flags unit of rtl/ on its outputs, which has the ports that the fixture uses while
-- control_unit.sv, the module that the testbench names, does not: every test but that of `jal` passes, and
-- not at its own instruction only: at each instruction with the same opcode, funct3 and bit 30, whatever its
-- registers and its immediate.
pub test_cases-hold :
    (t : Case) (instr : ℕ)
    → Listed t test_cases
    → slice instr 0 7 ≡ slice t.instr 0 7
    → slice instr 12 3 ≡ slice t.instr 12 3
    → bit instr 30 ≡ bit t.instr 30
    → passes connected (record t { instr = instr }) ≡ true
unfolding outcome
test_cases-hold t instr l same_op same_funct3 same_bit =
    passes-process_instruction (record t { instr = instr })
    ∙ rw (same_op, same_funct3, same_bit)
        (sym (passes-process_instruction t) ∙ passes-Listed t test_cases l test_cases-pass)

-- The test of `jal` fails at every instruction with that opcode: it asks for ResultSrc 3, and the control unit
-- gives 2.
pub jal-fails :
    (instr : ℕ)
    → slice instr 0 7 ≡ 0b1101111
    → passes connected (record jal { instr = instr }) ≡ false
unfolding jal outcome assert_control_signals control_unit
jal-fails instr is_jal = passes-process_instruction (record jal { instr = instr }) ∙ rw is_jal refl
