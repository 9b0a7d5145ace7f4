-- ===== src/Vbuddy/Reply/RoundTrip.antt =====
-- The number that the board prints is the number that vbuddy/vbuddy.cpp reads.
use risc_v_cpu.Base.{
  ℕ, zero, suc, ◌+◌, ◌/◌, ◌%◌, ◌^◌, ◌≤◌, ◌<◌, ◌≡◌, ◌≢◌, refl, ap, ◌∙◌, true, false, none, some,
  List, [], ◌∷◌, ◌++◌, ltb, Bool-cases, inl, inr, get_or, length, length-append, arith,
}
use risc_v_cpu.Base.Int.{ℤ, pos, negsuc}
use risc_v_cpu.Vbuddy.Message.{digits, show_int}
use risc_v_cpu.Vbuddy.Reply.{
  Parsed, value, out_of_range, ◌>>=◌, c_string, find, erase_at, erase, scan, starts_with_digit,
  is_low, magnitude, stoi, parse_reply,
}

abbrev pub AllDigits : List ℕ → Type 0
AllDigits [] = Unit
AllDigits (c ∷ s) = (b'0' ≤ c) × (c ≤ b'9') × AllDigits s

digits-AllDigits : (fuel n : ℕ) (out : List ℕ) → AllDigits out → AllDigits (digits fuel n out)
unfolding digits
digits-AllDigits zero n out h = h
digits-AllDigits (suc fuel) n out h =
    let shown : AllDigits ((b'0' + n % 10) ∷ out) = (omega arith, omega arith, h) in
    elim (Bool-cases (ltb n 10)) [
      | inl e ↦ rw e shown
      | inr e ↦ rw e (digits-AllDigits fuel (n / 10) ((b'0' + n % 10) ∷ out) shown)
    ]

-- Reading the digits of `n` and then `rest` is reading `rest` behind `n`.
scan-digits :
    (fuel n : ℕ) (out rest : List ℕ)
    → n < fuel
    → scan 0 (digits fuel n out ++ rest) ≡ scan n (out ++ rest)
unfolding scan digits
scan-digits zero n out rest h = absurd (omega arith)
scan-digits (suc fuel) n out rest h = elim (Bool-cases (ltb n 10)) [
  | inl e ↦ rw e (last n (out ++ rest) (ground arith))
  | inr e ↦ rw e (
      scan-digits fuel (n / 10) ((b'0' + n % 10) ∷ out) rest (ground arith) ∙ later n (out ++ rest))
]
  where
    last : (n : ℕ) (s : List ℕ) → n < 10 → scan 0 ((b'0' + n % 10) ∷ s) ≡ scan n s
    last n s h = ground arith

    later : (n : ℕ) (s : List ℕ) → scan (n / 10) ((b'0' + n % 10) ∷ s) ≡ scan n s
    later n s = ground arith

starts-digits :
    (fuel n : ℕ) (out rest : List ℕ) → starts_with_digit (digits (suc fuel) n out ++ rest) ≡ true
unfolding starts_with_digit digits
starts-digits zero n out rest = ground arith
starts-digits (suc fuel) n out rest = elim (Bool-cases (ltb n 10)) [
  | inl e ↦ rw e (ground arith)
  | inr e ↦ rw e (starts-digits fuel (n / 10) ((b'0' + n % 10) ∷ out) rest)
]

c_string-digits :
    (ds junk : List ℕ) → AllDigits ds → c_string (ds ++ b'*' ∷ 0 ∷ junk) ≡ ds ++ b'*' ∷ []
unfolding c_string
c_string-digits [] junk h = refl
c_string-digits (zero ∷ ds) junk h = absurd (omega arith)
c_string-digits (suc c ∷ ds) junk (lo, hi, h) =
    ap (λ (s : List ℕ). suc c ∷ s) (c_string-digits ds junk h)

find-star : (ds : List ℕ) → AllDigits ds → find b'*' (ds ++ b'*' ∷ []) ≡ some (length ds)
unfolding find
find-star [] h = refl
find-star (c ∷ ds) (lo, hi, h) = ground (arith, find-star ds h)

find-dollar : (ds : List ℕ) → AllDigits ds → find b'$' (ds ++ b'*' ∷ []) ≡ none
unfolding find
find-dollar [] h = refl
find-dollar (c ∷ ds) (lo, hi, h) = ground (arith, find-dollar ds h)

-- Erasing at the length of a text leaves it.
erase_at-end : (xs : List ℕ) (n : ℕ) → n ≡ length xs → erase_at xs n ≡ value xs
unfolding erase_at
erase_at-end [] zero e = refl
erase_at-end [] (suc n) e = absurd (omega arith)
erase_at-end (x ∷ xs) zero e = absurd (omega arith)
erase_at-end (x ∷ xs) (suc n) e = rw (erase_at-end xs n (omega arith))

-- The last three steps, at a text with one `$`.
abbrev strip : List ℕ → Parsed ℤ
strip str =
    erase str (find b'$' str) >>= λ bare. erase bare (find b'*' str) >>= λ number. stoi number

strip_lem : (ds : List ℕ) → AllDigits ds → strip (b'$' ∷ ds ++ b'*' ∷ []) ≡ stoi (ds ++ b'*' ∷ [])
unfolding erase erase_at find
strip_lem ds h = rw (
  find-star ds h,
  erase_at-end (ds ++ b'*' ∷ []) (length ds + 1) (omega (arith, length-append {0} ds (b'*' ∷ []))),
)

magnitude-value :
    (s : List ℕ) (n : ℕ)
    → starts_with_digit s ≡ true
    → scan 0 s ≡ n
    → n < 2 ^ 31
    → magnitude false s ≡ value (pos n)
unfolding magnitude
magnitude-value s n starts spells fits = ground arith

stoi-magnitude :
    (ds rest : List ℕ)
    → AllDigits ds
    → starts_with_digit (ds ++ rest) ≡ true
    → ds ≢ []
    → stoi (ds ++ rest) ≡ magnitude false (ds ++ rest)
unfolding stoi
stoi-magnitude [] rest all starts ne = absurd (ne refl)
stoi-magnitude (c ∷ ds) rest (lo, hi, all) starts ne = ground arith

digits-ne-nil : (fuel n c : ℕ) (out : List ℕ) → digits fuel n (c ∷ out) ≢ []
unfolding digits
digits-ne-nil zero n c out = cc
digits-ne-nil (suc fuel) n c out =
    ground (arith, digits-ne-nil fuel (n / 10) (b'0' + n % 10) (c ∷ out))

show_int-ne-nil : (n : ℕ) → show_int (pos n) ≢ []
unfolding show_int digits
show_int-ne-nil n = ground (arith, digits-ne-nil n (n / 10) (b'0' + n % 10) [])

starts-show : (n : ℕ) (rest : List ℕ) → starts_with_digit (show_int (pos n) ++ rest) ≡ true
unfolding show_int
starts-show n rest = starts-digits n n [] rest

scan-show :
    (n : ℕ) (rest : List ℕ) → starts_with_digit rest ≡ false → scan 0 (show_int (pos n) ++ rest) ≡ n
unfolding show_int scan starts_with_digit
scan-show n [] h = scan-digits (suc n) n [] [] (omega arith)
scan-show n (c ∷ rest) h = scan-digits (suc n) n [] (c ∷ rest) (omega arith) ∙ ground arith

first-digit : (ds rest : List ℕ) → AllDigits ds → ds ≢ [] → is_low (get_or (ds ++ rest) 0 0) ≡ false
first-digit [] rest h ne = absurd (ne refl)
first-digit (c ∷ ds) rest (lo, hi, h) ne = ground arith

-- The facts about the digits of `n` that the steps need.
module _ (n : ℕ) (fits : n < 2 ^ 31) where
  pub shown-AllDigits : AllDigits (show_int (pos n))
  unfolding show_int
  shown-AllDigits = digits-AllDigits (suc n) n [] tt

  stoi-show_int : stoi (show_int (pos n) ++ b'*' ∷ []) ≡ value (pos n)
  unfolding starts_with_digit
  stoi-show_int =
      let starts = starts-show n (b'*' ∷ []) in
      stoi-magnitude (show_int (pos n)) (b'*' ∷ []) shown-AllDigits starts (show_int-ne-nil n)
      ∙ magnitude-value (show_int (pos n) ++ b'*' ∷ []) n starts (scan-show n (b'*' ∷ []) refl) fits

  -- For a number below 2^31, the digits between `$` and `*` are read as that number, whatever the array
  -- holds behind the terminator.
  pub parse_reply-show_int :
      (junk : List ℕ) → parse_reply (b'$' ∷ show_int (pos n) ++ b'*' ∷ 0 ∷ junk) ≡ value (pos n)
  unfolding parse_reply
  parse_reply-show_int junk =
      rw
        (
          first-digit (show_int (pos n)) (b'*' ∷ 0 ∷ junk) shown-AllDigits (show_int-ne-nil n),
          c_string-digits (show_int (pos n)) junk shown-AllDigits,
        )
        (strip_lem (show_int (pos n)) shown-AllDigits ∙ stoi-show_int)

-- A negative number between `$` and `*` is not read: the test for a second `$` takes the minus sign for
-- one, and erasing a `$` that is not there throws.
parse_reply-negative :
    (n : ℕ) (junk : List ℕ)
    → parse_reply (b'$' ∷ show_int (negsuc n) ++ b'*' ∷ 0 ∷ junk) ≡ out_of_range
unfolding parse_reply show_int
parse_reply-negative n junk =
    let all = digits-AllDigits (suc (suc n)) (suc n) [] tt in
    rw (c_string-digits (digits (suc (suc n)) (suc n) []) junk all, find-dollar _ all)
