-- ===== src/Base/Lists.antt =====
-- Lists measured and indexed by native numbers: C arrays, texts and streams of events.
use Prim.Native.Nat.{ℕ, zero, suc, ◌+◌, ◌≤◌, ◌<◌}
use mathlib.Core.Path.{◌≡◌, refl, ap, ◌∙◌}
use mathlib.Core.Logic.{◌≢◌}
use mathlib.Core.List.{List, [], ◌∷◌, ◌++◌}
use native.Mathlib.Omega.{arith}

module _ {ℓ} {A : Type ℓ} where
  abbrev pub length : List A → ℕ
  length [] = 0
  length (x ∷ xs) = suc (length xs)

  -- A write out of bounds changes nothing.
  abbrev pub set : List A → ℕ → A → List A
  set [] i v = []
  set (x ∷ xs) zero v = v ∷ xs
  set (x ∷ xs) (suc i) v = x ∷ set xs i v

  -- The array with these values from index `i` on.
  abbrev pub write_text : List A → ℕ → List A → List A
  write_text buffer i [] = buffer
  write_text buffer i (x ∷ xs) = write_text (set buffer i x) (i + 1) xs

  abbrev pub get_or : List A → ℕ → A → A
  get_or [] i d = d
  get_or (x ∷ xs) zero d = x
  get_or (x ∷ xs) (suc i) d = get_or xs i d

  abbrev pub take : ℕ → List A → List A
  take zero xs = []
  take (suc n) [] = []
  take (suc n) (x ∷ xs) = x ∷ take n xs

  abbrev pub drop : ℕ → List A → List A
  drop zero xs = xs
  drop (suc n) [] = []
  drop (suc n) (x ∷ xs) = drop n xs

  abbrev pub replicate : ℕ → A → List A
  replicate zero a = []
  replicate (suc n) a = a ∷ replicate n a

  pub length-append : (xs ys : List A) → length (xs ++ ys) ≡ length xs + length ys
  length-append [] ys = omega arith
  length-append (x ∷ xs) ys = omega (arith, length-append xs ys)

  pub length-set : (xs : List A) (i : ℕ) (v : A) → length (set xs i v) ≡ length xs
  length-set [] i v = refl
  length-set (x ∷ xs) zero v = refl
  length-set (x ∷ xs) (suc i) v = ap suc (length-set xs i v)

  pub length-replicate : (n : ℕ) (a : A) → length (replicate n a) ≡ n
  length-replicate zero a = refl
  length-replicate (suc n) a = ap suc (length-replicate n a)

  pub get_or-set_self :
      (xs : List A) (i : ℕ) (v d : A) → i < length xs → get_or (set xs i v) i d ≡ v
  get_or-set_self [] i v d h = absurd (omega arith)
  get_or-set_self (x ∷ xs) zero v d h = refl
  get_or-set_self (x ∷ xs) (suc i) v d h = get_or-set_self xs i v d (omega arith)

  pub get_or-set_ne :
      (xs : List A) (i j : ℕ) (v d : A) → i ≢ j → get_or (set xs i v) j d ≡ get_or xs j d
  get_or-set_ne [] i j v d h = refl
  get_or-set_ne (x ∷ xs) zero zero v d h = absurd (h refl)
  get_or-set_ne (x ∷ xs) zero (suc j) v d h = refl
  get_or-set_ne (x ∷ xs) (suc i) zero v d h = refl
  get_or-set_ne (x ∷ xs) (suc i) (suc j) v d h = get_or-set_ne xs i j v d (λ e. h (ap suc e))

  pub length-write_text :
      (buffer : List A) (i : ℕ) (xs : List A) → length (write_text buffer i xs) ≡ length buffer
  length-write_text buffer i [] = refl
  length-write_text buffer i (x ∷ xs) =
      length-write_text (set buffer i x) (i + 1) xs ∙ length-set buffer i x

  write_text-cons :
      (b : A) (buffer : List A) (i k : ℕ) (xs : List A)
      → k ≡ suc i
      → write_text (b ∷ buffer) k xs ≡ b ∷ write_text buffer i xs
  write_text-cons b buffer i k [] e = refl
  write_text-cons b buffer i zero (x ∷ xs) e = absurd (omega arith)
  write_text-cons b buffer i (suc k) (x ∷ xs) e =
      let same : k ≡ i = omega arith in
      ap (λ j. write_text (b ∷ set buffer j x) (suc k + 1) xs) same
      ∙ write_text-cons b (set buffer i x) (i + 1) (suc k + 1) xs (omega arith)

  -- A text written from the start stands in front of what it did not reach.
  pub write_text_lem :
      (buffer xs : List A)
      → length xs ≤ length buffer
      → write_text buffer 0 xs ≡ xs ++ drop (length xs) buffer
  write_text_lem buffer [] h = refl
  write_text_lem [] (x ∷ xs) h = absurd (omega arith)
  write_text_lem (b ∷ buffer) (x ∷ xs) h =
      write_text-cons x buffer 0 (0 + 1) xs (omega arith)
      ∙ ap (λ (ys : List A). x ∷ ys) (write_text_lem buffer xs (omega arith))
