-- ===== src/Vbuddy/Message.antt =====
-- The texts that the functions of vbuddy/vbuddy.cpp print with `sprintf`, and their length.
use risc_v_cpu.Base.{
  ℕ, zero, suc, ◌+◌, ◌-◌, ◌/◌, ◌%◌, ◌^◌, ◌≤◌, ◌<◌, Option, none, some, List, [], ◌∷◌, ◌++◌, length,
  length-append, replicate, length-replicate, ltb, Bool-cases, if◌then◌else◌, arith, inl, inr,
}
use risc_v_cpu.Base.Int.{ℤ, pos, negsuc}
use native.Mathlib.Nat.{pow-suc}

-- The decimal digits of `n` in front of `out`; a round takes one unit of fuel.
unfoldable pub digits : ℕ → ℕ → List ℕ → List ℕ
digits zero n out = out
digits (suc fuel) n out =
    let shown = (b'0' + n % 10) ∷ out in
    let rest = digits fuel (n / 10) shown in if ltb n 10 then shown else rest

-- `%d`.
unfoldable pub show_int : ℤ → List ℕ
unfolding digits
show_int (pos n) = digits (suc n) n []
show_int (negsuc n) = b'-' ∷ digits (suc (suc n)) (suc n) []

-- `%4d`.
pub show_padded : ℤ → List ℕ
unfolding show_int
show_padded i = let text = show_int i in replicate (4 - length text) b' ' ++ text

-- `$`, a letter, and what stands behind it up to the newline.
abbrev frame : ℕ → List ℕ → List ℕ
frame letter args = b'$' ∷ letter ∷ args ++ b'\n' ∷ []

abbrev comma : ℤ → List ℕ
comma i = b',' ∷ show_int i

abbrev pub clear_text : List ℕ
clear_text = frame b'C' []

-- `"$t,    STOP,R\n"`.
abbrev pub stop_text : List ℕ
stop_text =
    frame b't' (b',' ∷ b' ' ∷ b' ' ∷ b' ' ∷ b' ' ∷ b'S' ∷ b'T' ∷ b'O' ∷ b'P' ∷ b',' ∷ b'R' ∷ [])

-- The `switch` on the digit: with no case that fits, nothing is printed.
unfoldable pub hex_text : ℕ → ℤ → Option (List ℕ)
hex_text digit v = if ltb digit 6 then some (frame b'H' ((b'0' + digit) ∷ comma v)) else none

abbrev pub plot_text : ℤ → ℤ → ℤ → List ℕ
plot_text y low high = frame b'p' (comma y ++ comma low ++ comma high)

abbrev pub header_text : List ℕ → List ℕ
header_text header = frame b'T' (b',' ∷ header)

-- `"$t,cyc:%4d,R\n"`.
abbrev pub cycle_text : ℤ → List ℕ
cycle_text cycle =
    frame b't' (b',' ∷ b'c' ∷ b'y' ∷ b'c' ∷ b':' ∷ show_padded cycle ++ b',' ∷ b'R' ∷ [])

abbrev pub flag_text : List ℕ
flag_text = frame b'Y' []

abbrev pub mode_text : ℤ → List ℕ
mode_text mode = frame b'y' (comma mode)

abbrev pub value_text : List ℕ
value_text = frame b'V' []

abbrev pub analog_text : ℤ → List ℕ
analog_text samples = frame b'S' (comma samples)

abbrev pub sample_text : ℤ → List ℕ
sample_text sample = frame b's' (comma sample)

abbrev pub analog_on_text : List ℕ
analog_on_text = frame b'O' []

abbrev pub analog_off_text : List ℕ
analog_off_text = frame b'o' []

abbrev pub mic_in_text : ℤ → List ℕ
mic_in_text samples = frame b'M' (comma samples)

abbrev pub mic_text : List ℕ
mic_text = frame b'm' []

abbrev pub bar_text : ℤ → List ℕ
bar_text v = frame b'B' (comma v)

abbrev pub watch_text : List ℕ
watch_text = frame b'W' []

abbrev pub elapsed_text : List ℕ
elapsed_text = frame b'w' []

-- A C `int`.
abbrev pub IsInt : ℤ → Type 0
IsInt (pos n) = n < 2 ^ 31
IsInt (negsuc n) = n < 2 ^ 31

-- `k` more digits suffice for a number below 10^k.
length-digits :
    (k fuel n : ℕ) (out : List ℕ) → n < 10 ^ suc k → length (digits fuel n out) ≤ suc k + length out
unfolding digits
length-digits k zero n out h = omega arith
length-digits zero (suc fuel) n out h = ground arith
length-digits (suc k) (suc fuel) n out h =
    let shown = (b'0' + n % 10) ∷ out in
    let smaller : n / 10 < 10 ^ suc k = omega (arith, pow-suc 10 (suc k)) in
    elim (Bool-cases (ltb n 10)) [
      | inl e ↦ rw e (omega arith)
      | inr e ↦ rw e (omega (arith, length-digits k fuel (n / 10) shown smaller))
    ]

pub length-show_int : (i : ℤ) → IsInt i → length (show_int i) ≤ 11
unfolding show_int
length-show_int (pos n) h = omega (arith, length-digits 9 (suc n) n [] (omega arith))
length-show_int (negsuc n) h = omega (arith, length-digits 9 (suc (suc n)) (suc n) [] (omega arith))

pub length-show_padded : (i : ℤ) → IsInt i → length (show_padded i) ≤ 11
unfolding show_padded
length-show_padded i h = omega (
  arith,
  length-append (replicate (4 - length (show_int i)) b' ') (show_int i),
  length-replicate {A = ℕ} (4 - length (show_int i)) b' ',
  length-show_int i h,
)

pub length-show_int_small : (n : ℕ) → n < 10 ^ 8 → length (show_int (pos n)) ≤ 8
unfolding show_int
length-show_int_small n h = omega (arith, length-digits 7 (suc n) n [] h)
