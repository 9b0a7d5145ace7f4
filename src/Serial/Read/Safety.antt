-- ===== src/Serial/Read/Safety.antt =====
-- `readStringNoTimeOut` and the bounds of its buffer.
use risc_v_cpu.Base.{
  ℕ, zero, suc, ◌+◌, ◌≤◌, ◌<◌, ◌≡◌, ◌≢◌, ◌⊎◌, inl, inr, refl, ◌∙◌, List, [], ◌∷◌, Bool, true, false,
  ◌||◌, ltb, ◌==◌, Bool-cases, ltb→lt, lt→ltb, if◌then◌else◌, length, length-set, set, arith,
}
use risc_v_cpu.Base.Int.{pos}
use risc_v_cpu.Serial.{
  Rx, byte, nothing, error, Timeval, World, Outcome, done, waiting, fault, stuck, ◌>>=◌, store,
  store-lt, >>=-done, >>=-waiting,
}
use risc_v_cpu.Serial.Read.{
  TextRead, keep_char, CharRead, got, failed, after, poll, read_char, read_loop,
  read_string_no_time_out,
}

-- With no time-out a read of one character ends with a byte or an error, or waits.
abbrev pub Unlimited : Outcome CharRead → Type 0
Unlimited r =
    (r ≡ waiting)
    ⊎ ((b : ℕ) × (w : World) × (r ≡ done (got b) w))
    ⊎ ((w : World) × (r ≡ done failed w))

pub or-true : (b : Bool) → (b || true) ≡ true
or-true true = refl
or-true false = refl

pub poll-Unlimited : (start : Timeval) (rx : List Rx) (w : World) → Unlimited (poll 0 start rx w)
unfolding poll
poll-Unlimited start [] w = rw or-true (inl refl)
poll-Unlimited start (byte b ∷ rx) w = rw or-true (inr (inl (b, after rx w, refl)))
poll-Unlimited start (error ∷ rx) w = rw or-true (inr (inr (after rx w, refl)))
poll-Unlimited start (nothing ∷ rx) w = rw or-true (poll-Unlimited start rx (after rx w))

pub read_char-Unlimited : (w : World) → Unlimited (read_char 0 w)
unfolding read_char
read_char-Unlimited w = poll-Unlimited (w.clock w.tick) w.rx (record w { tick = w.tick + 1 })

abbrev pub IsSafe : Outcome TextRead → Type 0
IsSafe r = (r ≢ fault) × (r ≢ stuck)

-- A byte that is read with room for one more behind it is kept, and ends the text if it is the final one.
pub keep_char-got :
    (more : List ℕ → ℕ → World → Outcome TextRead) (final b nb : ℕ) (buffer : List ℕ) (w : World)
    → nb + 1 < length buffer
    → keep_char more final buffer nb (got b) w ≡ (
        if b == final
        then done (pos (nb + 1), set (set buffer nb b) (nb + 1) 0) w
        else more (set buffer nb b) (nb + 1) w)
unfolding keep_char
keep_char-got more final b nb buffer w room =
    >>=-done (store buffer nb b) _ w (store-lt buffer nb b w (omega arith))
    ∙ elim (Bool-cases (b == final)) [
      | inl e ↦
          rw e
            (>>=-done (store read (nb + 1) 0) _ w (store-lt read (nb + 1) 0 w (rw length-set room)))
      | inr e ↦ rw e
    ]
  where
    read : List ℕ
    read = set buffer nb b

-- A round that reads a byte.
pub read_loop-suc :
    (fuel final max : ℕ) (buffer : List ℕ) (nb : ℕ) (w : World)
    → nb < max
    → read_loop (suc fuel) final max buffer nb w
      ≡ (read_char 0 >>= keep_char (read_loop fuel final max) final buffer nb) w
unfolding read_loop
read_loop-suc fuel final max buffer nb w h = rw (lt→ltb nb max h)

module _ (fuel final max : ℕ) (buffer : List ℕ) (nb : ℕ) (room : nb + 1 < length buffer) where
  abbrev keep : CharRead → World → Outcome TextRead
  keep = keep_char (read_loop fuel final max) final buffer nb

  round-IsSafe :
      (w : World)
      → ((b : ℕ) (v : World) → IsSafe (read_loop fuel final max (set buffer nb b) (nb + 1) v))
      → Unlimited (read_char 0 w)
      → IsSafe ((read_char 0 >>= keep) w)
  unfolding keep_char
  round-IsSafe w next (inl e) = rw (>>=-waiting (read_char 0) keep w e) ((cc), (cc))
  round-IsSafe w next (inr (inl (b, v, e))) =
      rw
        (
          >>=-done (read_char 0) keep w e,
          keep_char-got (read_loop fuel final max) final b nb buffer v room,
        )
        (elim (Bool-cases (b == final)) [ inl f ↦ rw f ((cc), (cc)) | inr f ↦ rw f (next b v) ])
  round-IsSafe w next (inr (inr (v, e))) = rw (>>=-done (read_char 0) keep w e) ((cc), (cc))

read_loop-IsSafe :
    (fuel final max : ℕ) (buffer : List ℕ) (nb : ℕ) (w : World)
    → max < length buffer
    → nb ≤ max
    → max < nb + fuel
    → IsSafe (read_loop fuel final max buffer nb w)
read_loop-IsSafe zero final max buffer nb w room below enough = absurd (omega arith)
read_loop-IsSafe (suc fuel) final max buffer nb w room below enough =
    elim (Bool-cases (ltb nb max)) [
      | inl e ↦
          let lt = ltb→lt nb max e in
          rw (read_loop-suc fuel final max buffer nb w lt) (
            round-IsSafe fuel final max buffer nb (omega arith) w
              (λ b v.
                read_loop-IsSafe fuel final max (set buffer nb b) (nb + 1) v (rw length-set room)
                  (omega arith) (omega arith))
              (read_char-Unlimited w))
      | inr e ↦ unfold read_loop in rw e ((cc), (cc))
    ]

-- If the array is longer than `maxNbBytes`, no run of `readStringNoTimeOut` leaves it, and every run ends in
-- a result or waits for the port.
pub read_string_IsSafe :
    (buffer : List ℕ) (final max : ℕ) (w : World)
    → max < length buffer
    → IsSafe (read_string_no_time_out buffer final max w)
unfolding read_string_no_time_out
read_string_IsSafe buffer final max w room =
    read_loop-IsSafe (suc max) final max buffer 0 w room (omega arith) (omega arith)
