-- ===== src/Base/Word.antt =====
-- Machine words as native numbers: a value is its bit pattern, and a slice or a shift is written
-- by `/`, `%` and `*`.
use Prim.Native.Nat.{ℕ, ◌+◌, ◌-◌, ◌/◌, ◌%◌, ◌^◌, ◌<◌}
use mathlib.Core.Bool.{Bool, true, false}
use risc_v_cpu.Base.Tests.{◌==◌}

abbrev pub IsWord : ℕ → Type 0
IsWord w = w < 2 ^ 32

-- `x[lo+width-1:lo]`.
abbrev pub slice : ℕ → ℕ → ℕ → ℕ
slice x lo width = x / 2 ^ lo % 2 ^ width

-- `x[i]` as a signal.
abbrev pub bit : ℕ → ℕ → Bool
bit x i = x / 2 ^ i % 2 == 1

-- A signal as a number.
abbrev pub of_bool : Bool → ℕ
of_bool true = 1
of_bool false = 0

-- 32-bit addition and subtraction.
abbrev pub add32 : ℕ → ℕ → ℕ
add32 a b = (a + b) % 2 ^ 32

abbrev pub sub32 : ℕ → ℕ → ℕ
sub32 a b = (a + 2 ^ 32 - b) % 2 ^ 32
