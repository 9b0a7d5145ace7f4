-- ===== src/Testbench/Alu/Agreement.antt =====
-- The tests of the arithmetic unit hold, and so do variants of them that they do not try.
use risc_v_cpu.Base.{
  ℕ, ◌+◌, ◌*◌, ◌%◌, ◌^◌, ◌<◌, ◌≡◌, ◌⊎◌, inl, inr, ◌∙◌, refl, bit, Bool, true, ◌&&◌, arith, List, [],
  ◌∷◌, ◌++◌,
}
use risc_v_cpu.Alu.{alu}
use risc_v_cpu.Testbench.Alu.{
  Case, passes, sums, left_shift, comparisons, exclusive_or, right_shifts, bitwise, alu_tests,
}

-- The control bits of the shifts.
abbrev pub IsShift : ℕ → Type 0
IsShift control = (control ≡ 0b0010) ⊎ (control ≡ 0b0110) ⊎ (control ≡ 0b0111)

pub data Listed (t : Case) : List Case → Type 0 where
  here : {ts : List Case} → Listed t (t ∷ ts)
  there : {u : Case} {ts : List Case} → Listed t ts → Listed t (u ∷ ts)

all_pass : List Case → Bool
all_pass [] = true
all_pass (t ∷ ts) = passes t && all_pass ts

passes-Listed : (t : Case) (ts : List Case) → Listed t ts → all_pass ts ≡ true → passes t ≡ true
unfolding all_pass
passes-Listed t [] l h = elim l [ ]
passes-Listed t (u ∷ ts) here h = ground arith
passes-Listed t (u ∷ ts) (there l) h = passes-Listed t ts l (ground arith)

all_pass-append :
    (ts us : List Case) → all_pass ts ≡ true → all_pass us ≡ true → all_pass (ts ++ us) ≡ true
unfolding all_pass
all_pass-append [] us h k = k
all_pass-append (t ∷ ts) us h k = ground (arith, all_pass-append ts us)

sums-pass : all_pass sums ≡ true
unfolding all_pass sums passes alu
sums-pass = refl

left_shift-pass : all_pass left_shift ≡ true
unfolding all_pass left_shift passes alu
left_shift-pass = refl

comparisons-pass : all_pass comparisons ≡ true
unfolding all_pass comparisons passes alu
comparisons-pass = refl

exclusive_or-pass : all_pass exclusive_or ≡ true
unfolding all_pass exclusive_or passes alu
exclusive_or-pass = refl

right_shifts-pass : all_pass right_shifts ≡ true
unfolding all_pass right_shifts passes alu
right_shifts-pass = refl

bitwise-pass : all_pass bitwise ≡ true
unfolding all_pass bitwise passes alu
bitwise-pass = refl

-- A shift looks at the low five bits of its amount only.
module _ (a b k : ℕ) (small : b < 32) (fits : k < 2 ^ 26) where
  amount : (b + 32 * k) % 2 ^ 5 ≡ b % 2 ^ 5
  amount = ground arith

  sign_clear : bit (b + 32 * k) 31 ≡ bit b 31
  sign_clear = ground arith

  alu-longer : (control : ℕ) → IsShift control → alu control a (b + 32 * k) ≡ alu control a b
  unfolding alu
  alu-longer control (inl e) = rw (e, sign_clear, amount) refl
  alu-longer control (inr (inl e)) = rw (e, sign_clear, amount) refl
  alu-longer control (inr (inr e)) = rw (e, sign_clear, amount) refl

alu_tests-pass : all_pass alu_tests ≡ true
unfolding alu_tests sums bitwise left_shift comparisons exclusive_or
alu_tests-pass = all_pass-append sums _ sums-pass (
    all_pass-append left_shift _ left_shift-pass (
      all_pass-append comparisons _ comparisons-pass (
        all_pass-append exclusive_or _ exclusive_or-pass
          (all_pass-append right_shifts _ right_shifts-pass bitwise-pass))))

-- A test itself, or a shift test with a multiple of 32 added to its amount.
pub data Variant (t : Case) : Case → Type 0 where
  unchanged : Variant t t
  longer :
      (k : ℕ)
      → IsShift t.control
      → t.src_b < 32
      → k < 2 ^ 26
      → Variant t (record t { src_b = t.src_b + 32 * k })

longer-passes :
    (t : Case) (k : ℕ)
    → alu t.control t.src_a (t.src_b + 32 * k) ≡ alu t.control t.src_a t.src_b
    → passes (record t { src_b = t.src_b + 32 * k }) ≡ passes t
unfolding passes
longer-passes t k e = rw e refl

-- Every test passes, and so does a shift test with a multiple of 32 added to the amount, which the result
-- and the flags do not see.
pub alu_tests-hold : (t u : Case) → Listed t alu_tests → Variant t u → passes u ≡ true
alu_tests-hold t u l unchanged = passes-Listed t alu_tests l alu_tests-pass
alu_tests-hold t u l (longer k shift small fits) =
    longer-passes t k (alu-longer t.src_a t.src_b k small fits t.control shift)
    ∙ passes-Listed t alu_tests l alu_tests-pass
