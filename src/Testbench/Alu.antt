-- ===== src/Testbench/Alu.antt =====
-- testbench/alu/alu_tb.cpp: the inputs and the assertions of its tests.
pub mod Agreement
use risc_v_cpu.Base.{ℕ, Bool, true, false, ◌&&◌, ◌==◌, of_bool, List, [], ◌∷◌, ◌++◌}
use risc_v_cpu.Alu.{alu}

-- `ALUControl`, `SrcA`, `SrcB`, and the expected `ALUResult`, `Zero`, `N`, `V` and `C`.
pub record Case : Type 0 where
  pub control : ℕ
  pub src_a : ℕ
  pub src_b : ℕ
  pub result : ℕ
  pub zero_flag : Bool
  pub n : Bool
  pub v : Bool
  pub c : Bool

abbrev test : ℕ → ℕ → ℕ → ℕ → Bool → Bool → Bool → Bool → Case
test control src_a src_b result zero_flag n v c = record {
  control = control;
  src_a = src_a;
  src_b = src_b;
  result = result;
  zero_flag = zero_flag;
  n = n;
  v = v;
  c = c;
}

abbrev same : Bool → Bool → Bool
same x y = of_bool x == of_bool y

-- The assertions of a test, all of them.
unfoldable pub passes : Case → Bool
passes t =
    let o = alu t.control t.src_a t.src_b in
    o.result == t.result
    && same o.zero_flag t.zero_flag
    && same o.n t.n
    && same o.v t.v
    && same o.c t.c

-- Sums and differences.
unfoldable pub sums : List Case
sums =
    test 0b0000 0x0000003F 0x0000014A 0x00000189 false false false false
    ∷ test 0b0000 0xFFFFFFFF 0xFFFFFFFF 0xFFFFFFFE false true false true
    ∷ test 0b0001 0x000037D8 0x0000025B 0x0000357D false false false false
    ∷ test 0b0001 0xFFFFF021 0xFFFFF021 0x00000000 true false true false
    ∷ []

-- The left shift.
unfoldable pub left_shift : List Case
left_shift = test 0b0010 0x000037D8 3 0x0001BEC0 false false false false ∷ []

-- The right shifts.
unfoldable pub right_shifts : List Case
right_shifts =
    test 0b0110 0xA020025B 8 0x00A02002 false false false false
    ∷ test 0b0111 0x030D37D8 5 0x001869BE false false false false
    ∷ test 0b0111 0xF0000000 4 0xFF000000 false true false false
    ∷ []

-- Comparisons.
unfoldable pub comparisons : List Case
comparisons =
    test 0b0011 0x000037D8 0x0000025B 0x00000000 true false false false
    ∷ test 0b0011 0x29AB0E38 0xE010F021 0x00000000 true false false false
    ∷ test 0b0011 0xFFFFFFFF 0xF01FF021 0x00000000 true false true false
    ∷ test 0b0011 0x0000025B 0x00007901 0x00000001 false false false false
    ∷ test 0b0011 0xF01FF021 0x00AB0E38 0x00000001 false false false false
    ∷ test 0b0011 0xA0AB0E38 0xF01FF021 0x00000001 false false true false
    ∷ test 0b0100 0x735a1099 0x30d2f191 0x00000000 true false false false
    ∷ test 0b0100 0x30d2f191 0x735a1099 0x00000001 false false false false
    ∷ []

-- The exclusive or.
unfoldable pub exclusive_or : List Case
exclusive_or = test 0b0101 0x6047D6D3 0xD471D368 0xB43605BB false true false false ∷ []

-- Or, and, and `lui`.
unfoldable pub bitwise : List Case
bitwise =
    test 0b1000 0x030D37D8 0xA020025B 0xA32D37DB false true false false
    ∷ test 0b1001 0x29AB0E38 0xE010F021 0x20000020 false false false false
    ∷ test 0b1011 0x11111111 0x01234567 0x01234567 false false false false
    ∷ []

unfoldable pub alu_tests : List Case
alu_tests = sums ++ left_shift ++ comparisons ++ exclusive_or ++ right_shifts ++ bitwise
