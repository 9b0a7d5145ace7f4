-- ===== src/Vbuddy/Reply.antt =====
-- How vbuddy/vbuddy.cpp reads a number out of a reply: `vbdValue`, `vbdMicValue` and `vbdElapsed`
-- have the same lines. A reply is `$`, digits and `*`; the code also allows for one `$` too many.
pub mod RoundTrip
use risc_v_cpu.Base.{
  ℕ, zero, suc, ◌+◌, ◌-◌, ◌*◌, ◌^◌, Bool, true, false, ◌&&◌, ◌||◌, Option, none, some, List, [],
  ◌∷◌, leb, ltb, ◌==◌, if◌then◌else◌, get_or,
}
use risc_v_cpu.Base.Int.{ℤ, pos, negsuc}

-- A number, or the exception that leaves the function.
pub data Parsed {ℓ} (A : Type ℓ) : Type ℓ where
  value : A → Parsed A
  out_of_range invalid_argument : Parsed A

infixl 5 ◌>>=◌
abbrev pub ◌>>=◌ {ℓ κ} : {A : Type ℓ} {B : Type κ} → Parsed A → (A → Parsed B) → Parsed B
value a >>= f = f a
out_of_range >>= f = out_of_range
invalid_argument >>= f = invalid_argument

-- `string str = msg`: the characters up to the first 0.
pub c_string : List ℕ → List ℕ
c_string [] = []
c_string (zero ∷ xs) = []
c_string (suc c ∷ xs) = suc c ∷ c_string xs

abbrev shift_index : Option ℕ → Option ℕ
shift_index none = none
shift_index (some i) = some (i + 1)

-- `str.find(c)`, none for `npos`.
pub find : ℕ → List ℕ → Option ℕ
find c [] = none
find c (x ∷ xs) = if x == c then some 0 else shift_index (find c xs)

-- `str.erase(i, 1)`, which throws behind the end of the text.
pub erase_at : List ℕ → ℕ → Parsed (List ℕ)
erase_at xs zero = elim xs [ [] ↦ value [] | x ∷ rest ↦ value rest ]
erase_at [] (suc i) = out_of_range
erase_at (x ∷ xs) (suc i) = erase_at xs i >>= λ rest. value (x ∷ rest)

pub erase : List ℕ → Option ℕ → Parsed (List ℕ)
unfolding erase_at
erase xs none = out_of_range
erase xs (some i) = erase_at xs i

abbrev pub is_digit : ℕ → Bool
is_digit c = leb b'0' c && leb c b'9'

-- The number that the leading digits spell behind `n`.
pub scan : ℕ → List ℕ → ℕ
scan n [] = n
scan n (c ∷ s) = if is_digit c then scan (n * 10 + (c - b'0')) s else n

starts_with_digit : List ℕ → Bool
starts_with_digit [] = false
starts_with_digit (c ∷ s) = is_digit c

-- `isspace`.
is_space : ℕ → Bool
is_space c = c == b' ' || (leb 9 c && leb c 13)

-- The digits, behind the sign if there was one.
magnitude : Bool → List ℕ → Parsed ℤ
unfolding scan starts_with_digit
magnitude negative s =
    if starts_with_digit s
    then (let n = scan 0 s in
        if negative
        then (if leb n (2 ^ 31)
            then value (if n == 0 then pos 0 else negsuc (n - 1))
            else out_of_range)
        else (if ltb n (2 ^ 31) then value (pos n) else out_of_range))
    else invalid_argument

-- `stoi`: white space, a sign, digits; what stands behind them is left.
pub stoi : List ℕ → Parsed ℤ
unfolding magnitude is_space
stoi [] = invalid_argument
stoi (c ∷ s) =
    if is_space c
    then stoi s
    else if c == b'-'
    then magnitude true s
    else if c == b'+'
    then magnitude false s
    else magnitude false (c ∷ s)

-- `int(msg[1]) < 48`, for a signed `char`.
abbrev is_low : ℕ → Bool
is_low c = ltb c 48 || leb 128 c

-- The lines from `string str = msg` on; `msg` is the whole array.
pub parse_reply : List ℕ → Parsed ℤ
unfolding c_string find erase stoi
parse_reply msg =
    let str = c_string msg in
    (if is_low (get_or msg 1 0) then erase str (find b'$' str) else value str) >>= λ str.
    erase str (find b'$' str) >>= λ bare. erase bare (find b'*' str) >>= λ number. stoi number
