-- ===== src/Serial/Bytes/Collects.antt =====
-- `readBytes` puts the bytes of the port together.
use risc_v_cpu.Base.{
  ℕ, zero, suc, ◌+◌, ◌-◌, ◌^◌, ◌≤◌, ◌<◌, ◌≡◌, ◌∙◌, refl, sym, ap, Bool, Bool-cases, true, false,
  ◌&&◌, inl, inr, List, [], ◌∷◌, ◌++◌, map, ltb, leb, ltb→lt, if◌then◌else◌, length, length-append,
  length-write_text, take, set, write_text, arith,
}
use risc_v_cpu.Base.Int.{pos, signed32}
use risc_v_cpu.Serial.{Timeval, World, done}
use risc_v_cpu.Serial.Read.Safety.{or-true}
use risc_v_cpu.Serial.Bytes.{Chunk, pending, read_bytes_loop, read_bytes, timed}

abbrev pub joined : List (List ℕ) → List ℕ
joined [] = []
joined (bytes ∷ more) = bytes ++ joined more

take-append-long : (n : ℕ) (xs ys : List ℕ) → n ≤ length xs → take n (xs ++ ys) ≡ take n xs
take-append-long zero xs ys h = refl
take-append-long (suc n) [] ys h = absurd (omega arith)
take-append-long (suc n) (x ∷ xs) ys h =
    ap (λ (l : List ℕ). x ∷ l) (take-append-long n xs ys (omega arith))

take-append-short :
    (n m : ℕ) (xs ys : List ℕ) → n ≡ length xs + m → take n (xs ++ ys) ≡ xs ++ take m ys
take-append-short n m [] ys h = ap (λ (k : ℕ). take k ys) (h ∙ omega arith)
take-append-short zero m (x ∷ xs) ys h = absurd (omega arith)
take-append-short (suc n) m (x ∷ xs) ys h =
    ap (λ (l : List ℕ). x ∷ l) (take-append-short n m xs ys (omega arith))

take-all : (n : ℕ) (xs : List ℕ) → length xs ≤ n → take n xs ≡ xs
take-all zero [] h = refl
take-all zero (x ∷ xs) h = absurd (omega arith)
take-all (suc n) [] h = refl
take-all (suc n) (x ∷ xs) h = ap (λ (l : List ℕ). x ∷ l) (take-all n xs (omega arith))

length-take : (n : ℕ) (xs : List ℕ) → n ≤ length xs → length (take n xs) ≡ n
length-take zero xs h = refl
length-take (suc n) [] h = absurd (omega arith)
length-take (suc n) (x ∷ xs) h = ap suc (length-take n xs (omega arith))

write_text-append :
    (buffer : List ℕ) (i k : ℕ) (xs ys : List ℕ)
    → k ≡ i + length xs
    → write_text buffer i (xs ++ ys) ≡ write_text (write_text buffer i xs) k ys
write_text-append buffer i k [] ys e =
    ap (λ (j : ℕ). write_text buffer j ys) (sym (e ∙ omega arith))
write_text-append buffer i k (x ∷ xs) ys e =
    write_text-append (set buffer i x) (i + 1) k xs ys (omega arith)

module _ (max : ℕ) (start : Timeval) (chunks : List Chunk) (bytes buffer : List ℕ) (nb : ℕ)
    (w : World) where
  abbrev got : List ℕ
  got = take (max - nb) bytes

  -- The round that fills the request, and one that leaves it open.
  round-fills :
      max < 2 ^ 31
      → nb < max
      → max ≤ length buffer
      → nb + length got ≡ max
      → read_bytes_loop (pending bytes ∷ chunks) max 0 start buffer nb w
        ≡ done (pos max, write_text buffer nb got) (timed w)
  unfolding read_bytes_loop
  round-fills small below room full =
      let inside : ltb (length buffer) (nb + length got) ≡ false = ground arith in
      let some_bytes : ltb 0 (length got) ≡ true = ground arith in
      let enough : leb max (nb + length got) ≡ true = ground arith in
      let fits : ltb max (2 ^ 31) ≡ true = ground arith in
      rw (or-true, inside, some_bytes, enough, full, fits) refl

  round-goes_on :
      max ≤ length buffer
      → nb + length got < max
      → read_bytes_loop (pending bytes ∷ chunks) max 0 start buffer nb w
        ≡ read_bytes_loop chunks max 0 start (write_text buffer nb got) (nb + length got) (timed w)
  unfolding read_bytes_loop
  round-goes_on room more =
      let inside : ltb (length buffer) (nb + length got) ≡ false = ground arith in
      let open_still : leb max (nb + length got) ≡ false = ground arith in
      rw (or-true, inside) (go (ltb 0 (length got)) open_still)
    where
      go :
          (b : Bool)
          → leb max (nb + length got) ≡ false
          → (if b && leb max (nb + length got)
              then done (signed32 (nb + length got), write_text buffer nb got) (timed w)
              else read_bytes_loop chunks max 0 start
                  (write_text buffer nb got)
                  (nb + length got)
                  (timed w))
            ≡ read_bytes_loop chunks max 0 start
                (write_text buffer nb got)
                (nb + length got)
                (timed w)
      go true open_still = rw open_still refl
      go false open_still = refl

module _ (max : ℕ) (start : Timeval) (small : max < 2 ^ 31) where
  abbrev Collected : List (List ℕ) → List ℕ → ℕ → World → Type 0
  Collected chunks buffer nb w =
      (v : World) × (read_bytes_loop (map pending chunks) max 0 start buffer nb w
        ≡ done (pos max, write_text buffer nb (take (max - nb) (joined chunks))) v)

  loop-collects :
      (chunks : List (List ℕ)) (buffer : List ℕ) (nb : ℕ) (w : World)
      → nb < max
      → max ≤ length buffer
      → max ≤ nb + length (joined chunks)
      → Collected chunks buffer nb w
  loop-collects [] buffer nb w below room enough = absurd (omega arith)
  loop-collects (bytes ∷ chunks) buffer nb w below room enough =
      elim (Bool-cases (ltb (length bytes) (max - nb))) [
        | inl e ↦
            let short = ltb→lt (length bytes) (max - nb) e in
            let all : take (max - nb) bytes ≡ bytes = take-all (max - nb) bytes (omega arith) in
            let (v, ends) =
              loop-collects chunks (write_text buffer nb bytes) (nb + length bytes) (timed w)
                (omega arith) (rw length-write_text room)
                (omega (arith, length-append bytes (joined chunks))) in
            (
              v,
              round-goes_on max start (map pending chunks) bytes buffer nb w room
                    (rw all (omega arith))
                  ∙ rw (all, ends)
                      (rw
                        (
                          take-append-short (max - nb) (max - (nb + length bytes)) bytes
                              (joined chunks) (omega arith),
                          write_text-append buffer nb (nb + length bytes) bytes
                              (take (max - (nb + length bytes)) (joined chunks)) refl,
                        )
                        refl),
            )
        | inr e ↦
            let long : max - nb ≤ length bytes = ground arith in
            (
              timed w,
              round-fills max start (map pending chunks) bytes buffer nb w small below room
                    (rw (length-take (max - nb) bytes long) (omega arith))
                  ∙ rw (take-append-long (max - nb) bytes (joined chunks) long) refl,
            )
      ]

-- Without a time-out, with an array for the requested number of bytes, which is not 0, and a port that delivers at
-- least as many without an error, in whatever pieces, `readBytes` returns that number, and the array begins
-- with the first bytes that were delivered, in order, and is otherwise as before.
pub read_bytes-collects :
    (chunks : List (List ℕ)) (buffer : List ℕ) (max : ℕ) (w : World)
    → 0 < max
    → max < 2 ^ 31
    → max ≤ length buffer
    → max ≤ length (joined chunks)
    → (v : World) × (read_bytes (map pending chunks) buffer max 0 w
        ≡ done (pos max, write_text buffer 0 (take max (joined chunks))) v)
unfolding read_bytes
read_bytes-collects chunks buffer max w some_bytes small room enough =
    let (v, ends) =
      loop-collects max (w.clock w.tick) small chunks buffer 0 (timed w) some_bytes room
        (omega arith) in
    (
      v,
      ends
          ∙ ap (λ (k : ℕ). done (pos max, write_text buffer 0 (take k (joined chunks))) v)
              (omega arith),
    )
